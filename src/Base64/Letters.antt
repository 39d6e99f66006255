-- ===== src/Base64/Letters.antt =====
-- How the loop of rbtlib/base64.c takes a letter and a pad.
use smart_rabbit_server.Base.{
  ℕ, zero, suc, ◌+◌, ◌-◌, ◌%◌, ◌<◌, ◌≡◌, refl, sym, ap, ◌∙◌, inl, inr, Bool, true, false, not, ◌&&◌,
  Bool-cases, none, some, List, [], ◌∷◌, ◌==◌, if◌then◌else◌, get_or, ltb, ==_iff, arith,
}
use smart_rabbit_server.Base.Int.{ℤ, pos, negsuc}
use smart_rabbit_server.Base64.{
  base64_reverse_table, base64_pad, invalid, State, switch, put, peek, step, decode_loop,
}

true-false : true ≡ false → ⊥
true-false h = ground arith

-- The alphabet: A to Z, a to z, 0 to 9, + and /.
unfoldable pub letter : ℕ → ℕ
letter v =
    if ltb v 26
    then v + 65
    else if ltb v 52
    then v + 71
    else if ltb v 62
    then v - 4
    else if v == 62
    then 43
    else 47

-- What the decoder needs of the letter for a value.
abbrev reads : ℕ → ℤ → Bool
reads v (pos w) = w == v
reads v (negsuc w) = false

abbrev all_of : (ℕ → Bool) → ℕ → Bool
all_of p zero = true
all_of p (suc n) = let rest = all_of p n in if p n then rest else false

all_of-lt : (p : ℕ → Bool) (n v : ℕ) → all_of p n ≡ true → v < n → p v ≡ true
all_of-lt p zero v h l = absurd (omega arith)
all_of-lt p (suc n) v h l = elim (Bool-cases (p n)) [
  | inr f ↦ absurd (true-false (sym h ∙ ap (λ b. if b then all_of p n else false) f))
  | inl t ↦ elim (Bool-cases (v == n)) [
    | inl y ↦ ap p ((==_iff v n).0 y) ∙ t
    | inr z ↦ all_of-lt p n v (sym (ap (λ b. if b then all_of p n else false) t) ∙ h) (ground arith)
  ]
]

letter-zero : (v : ℕ) → v < 64 → not (letter v == 0) ≡ true
unfolding letter
letter-zero v l = all_of-lt (λ v. not (letter v == 0)) 64 v refl l

letter-pad : (v : ℕ) → v < 64 → not (letter v == base64_pad) ≡ true
unfolding letter
letter-pad v l = all_of-lt (λ v. not (letter v == base64_pad)) 64 v refl l

letter-reads : (v : ℕ) → v < 64 → reads v (get_or base64_reverse_table (letter v) invalid) ≡ true
unfolding letter
letter-reads v l =
    all_of-lt (λ v. reads v (get_or base64_reverse_table (letter v) invalid)) 64 v refl l

not-true : (b : Bool) → not b ≡ true → b ≡ false
not-true true h = absurd (true-false (sym h))
not-true false h = refl

reads-pos : (v : ℕ) (z : ℤ) → reads v z ≡ true → z ≡ pos v
reads-pos v (pos w) h = ap pos ((==_iff w v).0 h)
reads-pos v (negsuc w) h = absurd (true-false (sym h))

step-value :
    (c v next : ℕ) (s : State)
    → (c == base64_pad) ≡ false
    → get_or base64_reverse_table c invalid ≡ pos v
    → step c next s ≡ some (put v s)
unfolding step
step-value c v next s p g =
    ap
      (λ b.
        if b
        then (if not (next == base64_pad) && s.i % 4 == 1 then none else some s)
        else some (elim (get_or base64_reverse_table c invalid) as (λ _. State) [
          | pos ch ↦ put ch s
          | negsuc m ↦ s
        ]))
      p
    ∙ ap (λ z. some (elim z as (λ _. State) [ pos ch ↦ put ch s | negsuc m ↦ s ])) g

loop-some :
    (c n : ℕ) (cs : List ℕ) (s t : State)
    → 0 < n
    → (c == 0) ≡ false
    → step c (peek cs) s ≡ some t
    → decode_loop (c ∷ cs) n s ≡ decode_loop cs (n - 1) t
unfolding decode_loop
loop-some c n cs s t l z h = let m : (n == 0) ≡ false = ground arith in rw (z, decode_loop, h, m)

-- A letter is read as its value.
pub loop-letter :
    (v n : ℕ) (cs : List ℕ) (s : State)
    → 0 < n
    → v < 64
    → decode_loop (letter v ∷ cs) n s ≡ decode_loop cs (n - 1) (put v s)
loop-letter v n cs s z l =
    loop-some (letter v) n cs s (put v s) z (not-true (letter v == 0) (letter-zero v l)) (
      step-value (letter v) v (peek cs) s (not-true (letter v == base64_pad) (letter-pad v l))
        (reads-pos v (get_or base64_reverse_table (letter v) invalid) (letter-reads v l)))

step-pad : (next : ℕ) (s : State) → (s.i % 4 == 1) ≡ false → step base64_pad next s ≡ some s
unfolding step
step-pad next s h = elim (Bool-cases (next == base64_pad)) [
  | inl y ↦ rw (h, y, step)
  | inr n ↦ rw (h, n, step)
]

pub loop-pad :
    (n : ℕ) (cs : List ℕ) (s : State)
    → 0 < n
    → (s.i % 4 == 1) ≡ false
    → decode_loop (base64_pad ∷ cs) n s ≡ decode_loop cs (n - 1) s
loop-pad n cs s z h = loop-some base64_pad n cs s s z refl (step-pad (peek cs) s h)

pub loop-nil : (n : ℕ) (s : State) → decode_loop [] n s ≡ some (s, 0)
unfolding decode_loop
loop-nil n s = refl

pub put-at :
    (r ch : ℕ) (s : State) → s.i % 4 ≡ r → put ch s ≡ record (switch r ch s) { i = s.i + 1 }
put-at r ch s h = ap (λ r. record (switch r ch s) { i = s.i + 1 }) h
