-- ===== src/Numbers/Digits.antt =====
-- The digits that rbtlib/math.c writes and the value that it reads.
use smart_rabbit_server.Base.{
  ℕ, zero, suc, ◌+◌, ◌-◌, ◌*◌, ◌/◌, ◌%◌, ◌^◌, ◌≤◌, ◌<◌, ◌≡◌, refl, ap, ◌∙◌, Bool, true, false, List,
  [], ◌∷◌, ◌++◌, ◌==◌, if◌then◌else◌, length, arith,
}
use smart_rabbit_server.Numbers.{is_digit, scan, digits}
use smart_rabbit_server.Numbers.Swap.{backwards}

-- The value of digits, the last one first.
abbrev pub value : List ℕ → ℕ
value [] = 0
value (c ∷ s) = value s * 10 + (c - 48)

abbrev pub AllDigits : List ℕ → Type 0
AllDigits [] = Unit
AllDigits (c ∷ s) = (is_digit c ≡ true) × AllDigits s

abbrev pub pow10 : ℕ → ℕ
pow10 zero = 1
pow10 (suc k) = pow10 k * 10

AllDigits-if :
    (b : Bool) (c : ℕ) (s : List ℕ)
    → is_digit c ≡ true
    → AllDigits s
    → AllDigits (if b then [] else c ∷ s)
AllDigits-if true c s d ds = tt
AllDigits-if false c s d ds = (d, ds)

pub digits-AllDigits : (room u : ℕ) → AllDigits (digits room u)
unfolding digits
digits-AllDigits zero u = tt
digits-AllDigits (suc room) u =
    AllDigits-if (u == 0) (48 + u % 10) (digits room (u / 10)) (ground arith)
      (digits-AllDigits room (u / 10))

-- With room for them, the digits have the value they were made from.
pub value-digits : (room u : ℕ) → u < pow10 room → value (digits room u) ≡ u
unfolding digits
value-digits zero u h = omega arith
value-digits (suc room) u h = ground (arith, value-digits room (u / 10) (omega arith))

pub length-digits : (room k u : ℕ) → u < pow10 k → length (digits room u) ≤ k
unfolding digits
length-digits zero k u h = omega arith
length-digits (suc room) zero u h = ground arith
length-digits (suc room) (suc k) u h = ground (arith, length-digits room k (u / 10) (omega arith))

-- Reading digits in their order of writing.
abbrev pub read : ℕ → List ℕ → ℕ
read r [] = r
read r (c ∷ s) = read ((r * 10 + (c - 48)) % 2 ^ 32) s

read-append :
    (r : ℕ) (s : List ℕ) (c : ℕ) → read r (s ++ (c ∷ [])) ≡ (read r s * 10 + (c - 48)) % 2 ^ 32
read-append r [] c = refl
read-append r (d ∷ s) c = read-append ((r * 10 + (d - 48)) % 2 ^ 32) s c

pub read-backwards : (s : List ℕ) → read 0 (backwards s) ≡ value s % 2 ^ 32
read-backwards [] = refl
read-backwards (c ∷ s) = read-append 0 (backwards s) c ∙ omega (arith, read-backwards s)

-- `scan` reads a text of at most ten digits to its end.
pub scan-read :
    (left r i : ℕ) (s : List ℕ)
    → AllDigits s
    → length s ≤ left
    → scan left r i s ≡ (read r s, i + length s, [])
unfolding scan
scan-read zero r i [] d h = ap (λ j. (r, j, [])) (omega arith)
scan-read (suc left) r i [] d h = ap (λ j. (r, j, [])) (omega arith)
scan-read zero r i (c ∷ s) d h = absurd (omega arith)
scan-read (suc left) r i (c ∷ s) (d, ds) h =
    let e = scan-read left ((r * 10 + (c - 48)) % 2 ^ 32) (i + 1) s ds (omega arith) in
    let j : i + 1 + length s ≡ i + suc (length s) = omega arith in
    rw d (e ∙ ap (λ j'. (read ((r * 10 + (c - 48)) % 2 ^ 32) s, j', [])) j)

append-AllDigits :
    (s : List ℕ) (c : ℕ) → AllDigits s → is_digit c ≡ true → AllDigits (s ++ (c ∷ []))
append-AllDigits [] c ds d = (d, tt)
append-AllDigits (x ∷ s) c (e, ds) d = (e, append-AllDigits s c ds d)

pub backwards-AllDigits : (s : List ℕ) → AllDigits s → AllDigits (backwards s)
backwards-AllDigits [] d = tt
backwards-AllDigits (c ∷ s) (d, ds) = append-AllDigits (backwards s) c (backwards-AllDigits s ds) d
