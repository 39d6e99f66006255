-- ===== src/Base/Distinct.antt =====
-- Lists of distinct indices, as free lists and linked lists over an array have them, and of other distinct things.
use smart_rabbit_server.Base.{
  ◌≤◌, ◌⊎◌, inl, inr, false, ◌==◌, ==_iff, Bool-cases, ℕ, zero, suc, ◌+◌, ◌<◌, ◌≡◌, ◌≢◌, refl, sym,
  ap, subst, append_assoc, length, arith, List, [], ◌∷◌, ◌++◌,
}

module _ {A : Type 0} where
  -- The element is not in the list.
  abbrev pub Misses : A → List A → Type 0
  Misses j [] = Unit
  Misses j (i ∷ is) = (i ≢ j) × Misses j is

  abbrev pub Distinct : List A → Type 0
  Distinct [] = Unit
  Distinct (i ∷ is) = Misses i is × Distinct is

  pub Misses-append : (j : A) (is js : List A) → Misses j is → Misses j js → Misses j (is ++ js)
  Misses-append j [] js m n = n
  Misses-append j (i ∷ is) js (ne, m) n = (ne, Misses-append j is js m n)

  pub Misses-split : (j : A) (is js : List A) → Misses j (is ++ js) → Misses j is × Misses j js
  Misses-split j [] js m = (tt, m)
  Misses-split j (i ∷ is) js (ne, m) = let (a, b) = Misses-split j is js m in ((ne, a), b)

  -- No index of the first list is in the second.
  abbrev pub Apart : List A → List A → Type 0
  Apart [] js = Unit
  Apart (i ∷ is) js = Misses i js × Apart is js

  pub Distinct-append :
      (is js : List A) → Distinct is → Distinct js → Apart is js → Distinct (is ++ js)
  Distinct-append [] js d e a = e
  Distinct-append (i ∷ is) js (m, d) e (n, a) =
      (Misses-append i is js m n, Distinct-append is js d e a)

  pub Distinct-split :
      (is js : List A) → Distinct (is ++ js) → Distinct is × Distinct js × Apart is js
  Distinct-split [] js d = (tt, d, tt)
  Distinct-split (i ∷ is) js (m, d) =
      let (a, b) = Misses-split i is js m in
      let (x, y, z) = Distinct-split is js d in ((a, x), y, (b, z))

  pub Apart-cons : (is js : List A) (j : A) → Misses j is → Apart is js → Apart is (j ∷ js)
  Apart-cons [] js j m a = tt
  Apart-cons (i ∷ is) js j (ne, m) (n, a) = ((λ e. ne (sym e), n), Apart-cons is js j m a)

  pub Apart-uncons : (is js : List A) (j : A) → Apart is (j ∷ js) → Misses j is × Apart is js
  Apart-uncons [] js j a = (tt, tt)
  Apart-uncons (i ∷ is) js j ((ne, n), a) =
      let (m, b) = Apart-uncons is js j a in ((λ e. ne (sym e), m), (n, b))

-- The `n` indices from `i` on.
abbrev pub run_of : ℕ → ℕ → List ℕ
run_of i zero = []
run_of i (suc n) = i ∷ run_of (i + 1) n

pub run_of-Misses : (i n j : ℕ) → j < i → Misses j (run_of i n)
run_of-Misses i zero j h = tt
run_of-Misses i (suc n) j h = ((λ q. absurd (omega arith)), run_of-Misses (i + 1) n j (omega arith))

pub run_of-Distinct : (i n : ℕ) → Distinct (run_of i n)
run_of-Distinct i zero = tt
run_of-Distinct i (suc n) = (run_of-Misses (i + 1) n i (omega arith), run_of-Distinct (i + 1) n)

pub length-run_of : (i n : ℕ) → length (run_of i n) ≡ n
length-run_of i zero = refl
length-run_of i (suc n) = ap suc (length-run_of (i + 1) n)

module _ {A : Type 0} where
  pub Misses-insert :
      (j i : A) (is js : List A) → i ≢ j → Misses j (is ++ js) → Misses j (is ++ (i ∷ js))
  Misses-insert j i [] js ne m = (ne, m)
  Misses-insert j i (k ∷ is) js ne (n, m) = (n, Misses-insert j i is js ne m)

  pub Distinct-insert :
      (i : A) (is js : List A)
      → Misses i (is ++ js)
      → Distinct (is ++ js)
      → Distinct (is ++ (i ∷ js))
  Distinct-insert i [] js m d = (m, d)
  Distinct-insert i (k ∷ is) js (ne, m) (n, d) =
      (Misses-insert k i is js (λ e. ne (sym e)) n, Distinct-insert i is js m d)

  pub Apart-insert :
      (i : A) (is js ks : List A) → Misses i ks → Apart (is ++ js) ks → Apart (is ++ (i ∷ js)) ks
  Apart-insert i [] js ks m a = (m, a)
  Apart-insert i (k ∷ is) js ks m (n, a) = (n, Apart-insert i is js ks m a)

  -- An element that comes behind another one.
  pub Distinct-next :
      (i j : A) (is js : List A)
      → Misses i (is ++ (j ∷ js))
      → Distinct (is ++ (j ∷ js))
      → Distinct (is ++ (j ∷ i ∷ js))
  Distinct-next i j is js m d =
      let e = sym (append_assoc is (j ∷ []) js) in
      subst Distinct (append_assoc is (j ∷ []) (i ∷ js))
        (Distinct-insert i (is ++ (j ∷ [])) js (subst (Misses i) e m) (subst Distinct e d))

  pub Misses-remove : (j i : A) (is js : List A) → Misses j (is ++ (i ∷ js)) → Misses j (is ++ js)
  Misses-remove j i [] js (ne, m) = m
  Misses-remove j i (k ∷ is) js (n, m) = (n, Misses-remove j i is js m)

  -- Taking an index out of a list without repetitions.
  pub Distinct-remove :
      (i : A) (is js : List A)
      → Distinct (is ++ (i ∷ js))
      → Distinct (is ++ js) × Misses i (is ++ js)
  Distinct-remove i [] js (m, d) = (d, m)
  Distinct-remove i (k ∷ is) js (n, d) =
      let (d', m) = Distinct-remove i is js d in
      ((Misses-remove k i is js n, d'), (λ e. (Misses-split k is (i ∷ js) n).1.0 (sym e), m))

  pub Apart-remove :
      (i : A) (is js ks : List A) → Apart (is ++ (i ∷ js)) ks → Apart (is ++ js) ks × Misses i ks
  Apart-remove i [] js ks (m, a) = (a, m)
  Apart-remove i (k ∷ is) js ks (n, a) = let (a', m) = Apart-remove i is js ks a in ((n, a'), m)

-- Numbers from 0 to `n - 1` that are distinct are at most `n`.
abbrev pub Below : ℕ → List ℕ → Type 0
Below n [] = Unit
Below n (i ∷ is) = (i < n) × Below n is

Below-remove : (n i : ℕ) (is js : List ℕ) → Below n (is ++ (i ∷ js)) → Below n (is ++ js)
Below-remove n i [] js (l, b) = b
Below-remove n i (k ∷ is) js (l, b) = (l, Below-remove n i is js b)

lt-of : (n i : ℕ) → i < suc n → i ≢ n → i < n
lt-of n i l ne = elim (Bool-cases (i == n)) [
  | inl y ↦ absurd (ne ((==_iff i n).0 y))
  | inr z ↦ ground arith
]

ne-of : (i n : ℕ) → (i == n) ≡ false → i ≢ n
ne-of i n z e = ground arith

Below-less : (n : ℕ) (is : List ℕ) → Below (suc n) is → Misses n is → Below n is
Below-less n [] b m = tt
Below-less n (i ∷ is) (l, b) (ne, m) = (lt-of n i l ne, Below-less n is b m)

split_at :
    (n : ℕ) (is : List ℕ) → Misses n is ⊎ ((xs : List ℕ) × (ys : List ℕ) × (is ≡ xs ++ (n ∷ ys)))
split_at n [] = inl tt
split_at n (i ∷ is) = elim (Bool-cases (i == n)) [
  | inl y ↦ inr ([], is, ap (λ j. j ∷ is) ((==_iff i n).0 y))
  | inr z ↦ elim (split_at n is) [
    | inl m ↦ inl ((λ e. ne-of i n z e), m)
    | inr (xs, ys, q) ↦ inr (i ∷ xs, ys, ap (λ t. i ∷ t) q)
  ]
]

length-middle : (is js : List ℕ) (i : ℕ) → length (is ++ (i ∷ js)) ≡ suc (length (is ++ js))
length-middle [] js i = refl
length-middle (k ∷ is) js i = ap suc (length-middle is js i)

pub Distinct-length : (n : ℕ) (is : List ℕ) → Distinct is → Below n is → length is ≤ n
Distinct-length zero [] d b = omega arith
Distinct-length zero (i ∷ is) d (l, b) = absurd (omega arith)
Distinct-length (suc n) is d b = elim (split_at n is) [
  | inl m ↦ let r = Distinct-length n is d (Below-less n is b m) in omega arith
  | inr (xs, ys, q) ↦
      let (d', m) = Distinct-remove n xs ys (subst Distinct q d) in
      let r =
        Distinct-length n (xs ++ ys) d'
          (Below-less n (xs ++ ys) (Below-remove (suc n) n xs ys (subst (Below (suc n)) q b)) m) in
      omega (arith, ap length q, length-middle xs ys n)
]
