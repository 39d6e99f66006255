-- ===== src/Queue/Window.antt =====
-- What a circular array holds, and the invariant of `struct Queue`.
use smart_rabbit_server.Base.{
  ℕ, zero, suc, ◌+◌, ◌-◌, ◌≤◌, ◌<◌, ◌≡◌, ◌≢◌, refl, sym, ◌∙◌, ap, ap₂, Option, none, List, [], ◌∷◌,
  ◌++◌, ltb, if◌then◌else◌, get_or, set, length, arith,
}
use smart_rabbit_server.Queue.{Queue, next}

module _ {ℓ} {A : Type ℓ} (d : A) where
  -- The `n` elements from index `i` on, going round at `size`.
  abbrev pub window : List A → ℕ → ℕ → ℕ → List A
  window xs size i zero = []
  window xs size i (suc n) = get_or xs i d ∷ window xs size (next size i) n

  pub length-window : (xs : List A) (size i n : ℕ) → length (window xs size i n) ≡ n
  length-window xs size i zero = refl
  length-window xs size i (suc n) = ap suc (length-window xs size (next size i) n)

  pub get_or-set_self : (xs : List A) (i : ℕ) (x : A) → i < length xs → get_or (set xs i x) i d ≡ x
  get_or-set_self [] i x h = absurd (omega arith)
  get_or-set_self (y ∷ xs) zero x h = refl
  get_or-set_self (y ∷ xs) (suc i) x h = get_or-set_self xs i x (omega arith)

  pub get_or-set_ne :
      (xs : List A) (i j : ℕ) (x : A) → i ≢ j → get_or (set xs i x) j d ≡ get_or xs j d
  get_or-set_ne [] i j x h = refl
  get_or-set_ne (y ∷ xs) zero zero x h = absurd (h refl)
  get_or-set_ne (y ∷ xs) zero (suc j) x h = refl
  get_or-set_ne (y ∷ xs) (suc i) zero x h = refl
  get_or-set_ne (y ∷ xs) (suc i) (suc j) x h = get_or-set_ne xs i j x (λ e. h (ap suc e))

-- The index `n` places behind `i`.
abbrev pub behind : ℕ → ℕ → ℕ → ℕ
behind size i n = if ltb (i + n) size then i + n else i + n - size

pub behind-next :
    (size i n : ℕ) → i < size → suc n < size → behind size i (suc n) ≡ behind size (next size i) n
behind-next size i n p q = ground arith

pub next-behind :
    (size i n : ℕ) → i < size → n < size → next size (behind size i n) ≡ behind size i (suc n)
next-behind size i n p q = ground arith

behind-zero : (size i : ℕ) → i < size → behind size i 0 ≡ i
behind-zero size i p = ground arith

pub behind-ne : (size i n : ℕ) → i < size → suc n < size → behind size i (suc n) ≢ i
behind-ne size i n p q = ground arith

-- A write just behind a window that does not go all round extends the window.
pub window-set {ℓ} :
    {A : Type ℓ} (d : A) (xs : List A) (size i n j : ℕ) (x : A)
    → size ≤ length xs
    → i < size
    → n < size
    → j ≡ behind size i n
    → window d (set xs j x) size i (suc n) ≡ window d xs size i n ++ (x ∷ [])
window-set d xs size i zero j x l p q e =
    rw (e ∙ behind-zero size i p, get_or-set_self d xs i x (omega arith))
window-set d xs size i (suc n) j x l p q e =
    ap₂ ◌∷◌ (get_or-set_ne d xs j i x (λ f. behind-ne size i n p q (sym e ∙ f))) (
      window-set d xs size (next size i) n j x l (ground arith) (omega arith)
        (e ∙ behind-next size i n p q))

-- The invariant of `struct Queue`: the array has its size, the indices lie in it, and one slot at
-- least is free, so that `first == end` means empty.
pub record IsValid {ℓ} {A : Type ℓ} (q : Queue A) : Type 0 where
  pub sized : length q.list ≡ q.size
  pub first_in : q.first < q.size
  pub spare : q.used < q.size
  pub last_at : q.last ≡ behind q.size q.first q.used

-- The elements of a queue, oldest first.
abbrev pub contents {ℓ} : {A : Type ℓ} → Queue A → List (Option A)
contents q = window none q.list q.size q.first q.used

pub last_lt {ℓ} : {A : Type ℓ} {q : Queue A} → IsValid q → q.last < q.size
last_lt v = ground arith
