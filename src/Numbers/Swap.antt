-- ===== src/Numbers/Swap.antt =====
-- The swapping loop of rbtlib/math.c reverses a text.
use smart_rabbit_server.Base.{
  ℕ, zero, suc, ◌+◌, ◌-◌, ◌≤◌, ◌<◌, ◌≡◌, refl, sym, ap, ap₂, ◌∙◌, ◌⊎◌, inl, inr, List, [], ◌∷◌,
  ◌++◌, ltb, leb, ◌==◌, if◌then◌else◌, get_or, set, length, length-append, length-set, arith,
}
use smart_rabbit_server.Numbers.{swap_loop, reverse}

-- The text backwards.
abbrev pub backwards : List ℕ → List ℕ
backwards [] = []
backwards (c ∷ s) = backwards s ++ (c ∷ [])

get_or-set :
    (p : List ℕ) (i j c : ℕ)
    → i < length p
    → get_or (set p i c) j 0 ≡ (if i == j then c else get_or p j 0)
get_or-set [] i j c h = absurd (omega arith)
get_or-set (x ∷ p) zero zero c h = refl
get_or-set (x ∷ p) zero (suc j) c h = ground arith
get_or-set (x ∷ p) (suc i) zero c h = ground arith
get_or-set (x ∷ p) (suc i) (suc j) c h = ground (arith, get_or-set p i j c (omega arith))

-- The bytes that one swap leaves.
abbrev swapped : ℕ → ℕ → List ℕ → List ℕ
swapped start end p = set (set p end (get_or p start 0)) start (get_or p end 0)

get_or-swapped :
    (p : List ℕ) (start end k : ℕ)
    → start < length p
    → end < length p
    → get_or (swapped start end p) k 0
      ≡ (if start == k then get_or p end 0 else if end == k then get_or p start 0 else get_or p k 0)
get_or-swapped p start end k h1 h2 =
    get_or-set (set p end (get_or p start 0)) start k (get_or p end 0)
      (omega (arith, length-set p end (get_or p start 0)))
    ∙ ap (λ x. if start == k then get_or p end 0 else x) (get_or-set p end k (get_or p start 0) h2)

length-swapped : (p : List ℕ) (start end : ℕ) → length (swapped start end p) ≡ length p
length-swapped p start end =
    length-set (set p end (get_or p start 0)) start (get_or p end 0)
    ∙ length-set p end (get_or p start 0)

-- What the loop leaves at each place.
abbrev mirrored : ℕ → ℕ → List ℕ → ℕ → ℕ
mirrored start end p k =
    if leb start k
    then (if leb k end then get_or p (start + end - k) 0 else get_or p k 0)
    else get_or p k 0

swap_loop-length :
    (fuel start end : ℕ) (p : List ℕ) → length (swap_loop fuel start end p) ≡ length p
unfolding swap_loop
swap_loop-length zero start end p = refl
swap_loop-length (suc fuel) start end p = ground (
  arith,
  swap_loop-length fuel (start + 1) (end - 1) (swapped start end p),
  length-swapped p start end,
)

lt_or_le : (a b : ℕ) → (a < b) ⊎ (b ≤ a)
lt_or_le a b = ground arith

swap-zero :
    (start end : ℕ) (p : List ℕ) (k : ℕ) → get_or (swap_loop 0 start end p) k 0 ≡ get_or p k 0
unfolding swap_loop
swap-zero start end p k = refl

swap-step :
    (fuel start end : ℕ) (p : List ℕ) (k : ℕ)
    → start < end
    → get_or (swap_loop (suc fuel) start end p) k 0
      ≡ get_or (swap_loop fuel (start + 1) (end - 1) (swapped start end p)) k 0
unfolding swap_loop
swap-step fuel start end p k h = ground arith

swap-stop :
    (fuel start end : ℕ) (p : List ℕ) (k : ℕ)
    → end ≤ start
    → get_or (swap_loop (suc fuel) start end p) k 0 ≡ get_or p k 0
unfolding swap_loop
swap-stop fuel start end p k h = ground arith

mirrored-idle :
    (start end : ℕ) (p : List ℕ) (k : ℕ) → end ≤ start → mirrored start end p k ≡ get_or p k 0
mirrored-idle start end p k h = grind arith

mirrored-swapped :
    (start end : ℕ) (p : List ℕ) (k : ℕ)
    → start < end
    → end < length p
    → mirrored (start + 1) (end - 1) (swapped start end p) k ≡ mirrored start end p k
mirrored-swapped start end p k h l =
    let a = get_or-swapped p start end k (omega arith) l in
    let b = get_or-swapped p start end (start + end - k) (omega arith) l in
    let i : start + 1 + (end - 1) - k ≡ start + end - k = omega arith in grind arith

get_or-swap_loop :
    (fuel start end : ℕ) (p : List ℕ) (k : ℕ)
    → end < length p
    → end < start + fuel + 1
    → get_or (swap_loop fuel start end p) k 0 ≡ mirrored start end p k
get_or-swap_loop zero start end p k l f =
    swap-zero start end p k ∙ sym (mirrored-idle start end p k (omega arith))
get_or-swap_loop (suc fuel) start end p k l f = elim (lt_or_le start end) [
  | inl h ↦
      let r =
        get_or-swap_loop fuel (start + 1) (end - 1) (swapped start end p) k
          (omega (arith, length-swapped p start end)) (omega arith) in
      let m = mirrored-swapped start end p k h l in swap-step fuel start end p k h ∙ r ∙ m
  | inr h ↦ swap-stop fuel start end p k h ∙ sym (mirrored-idle start end p k h)
]

pub length-backwards : (p : List ℕ) → length (backwards p) ≡ length p
length-backwards [] = refl
length-backwards (c ∷ s) = length-append (backwards s) (c ∷ []) ∙ omega (arith, length-backwards s)

get_or-append :
    (xs ys : List ℕ) (k : ℕ)
    → get_or (xs ++ ys) k 0
      ≡ (if ltb k (length xs) then get_or xs k 0 else get_or ys (k - length xs) 0)
get_or-append [] ys k = grind arith
get_or-append (x ∷ xs) ys zero = ground arith
get_or-append (x ∷ xs) ys (suc k) = ground (arith, get_or-append xs ys k)

get_or-last : (c k : ℕ) → k ≡ 0 → get_or (c ∷ []) k 0 ≡ c
get_or-last c k e = rw e refl

get_or-cons : (c : ℕ) (s : List ℕ) (j k : ℕ) → j ≡ suc k → get_or (c ∷ s) j 0 ≡ get_or s k 0
get_or-cons c s j k e = rw e refl

get_or-head : (c : ℕ) (s : List ℕ) (j : ℕ) → j ≡ 0 → get_or (c ∷ s) j 0 ≡ c
get_or-head c s j e = rw e refl

get_or-backwards :
    (p : List ℕ) (k : ℕ) → k < length p → get_or (backwards p) k 0 ≡ get_or p (length p - 1 - k) 0
get_or-backwards [] k h = absurd (omega arith)
get_or-backwards (c ∷ s) k h = elim (lt_or_le k (length s)) [
  | inl l ↦
      let a = get_or-append (backwards s) (c ∷ []) k in
      let b = get_or-backwards s k l in
      let e = get_or-cons c s (suc (length s) - 1 - k) (length s - 1 - k) (omega arith) in
      let n = length-backwards s in grind arith
  | inr l ↦
      let a = get_or-append (backwards s) (c ∷ []) k in
      let b = get_or-last c (k - length (backwards s)) (omega (arith, length-backwards s)) in
      let e = get_or-head c s (suc (length s) - 1 - k) (omega arith) in
      let n = length-backwards s in grind arith
]

list-ext :
    (xs ys : List ℕ)
    → length xs ≡ length ys
    → ((k : ℕ) → k < length xs → get_or xs k 0 ≡ get_or ys k 0)
    → xs ≡ ys
list-ext [] [] e h = refl
list-ext [] (y ∷ ys) e h = absurd (omega arith)
list-ext (x ∷ xs) [] e h = absurd (omega arith)
list-ext (x ∷ xs) (y ∷ ys) e h =
    ap₂ ◌∷◌ (h 0 (omega arith)) (list-ext xs ys (omega arith) (λ k l. h (suc k) (omega arith)))

mirrored-all :
    (p : List ℕ) (k : ℕ)
    → k < length p
    → mirrored 0 (length p - 1) p k ≡ get_or p (length p - 1 - k) 0
mirrored-all p k h = let e : 0 + (length p - 1) - k ≡ length p - 1 - k = omega arith in grind arith

swap_loop-backwards :
    (p : List ℕ) → 0 < length p → swap_loop (length p) 0 (length p - 1) p ≡ backwards p
swap_loop-backwards p h =
    let n = swap_loop-length (length p) 0 (length p - 1) p in
    list-ext (swap_loop (length p) 0 (length p - 1) p) (backwards p) (n ∙ sym (length-backwards p))
      (λ k l.
        get_or-swap_loop (length p) 0 (length p - 1) p k (omega arith) (omega arith)
        ∙ mirrored-all p k (omega arith)
        ∙ sym (get_or-backwards p k (omega arith)))

reverse-swap_loop :
    (p : List ℕ) → 1 < length p → reverse p ≡ swap_loop (length p) 0 (length p - 1) p
unfolding reverse
reverse-swap_loop p h = ground arith

-- The in-place swapping loop of `reverse` turns every text into the text backwards.
pub reverse-backwards : (p : List ℕ) → reverse p ≡ backwards p
unfolding reverse
reverse-backwards [] = refl
reverse-backwards (c ∷ []) = refl
reverse-backwards (c ∷ d ∷ s) =
    reverse-swap_loop (c ∷ d ∷ s) (omega arith) ∙ swap_loop-backwards (c ∷ d ∷ s) (omega arith)
