-- ===== src/Numbers/RoundTrip.antt =====
-- Writing an `int` in decimal and reading it back: rbtlib/math.c.
use smart_rabbit_server.Base.{
  ℕ, zero, suc, ◌+◌, ◌-◌, ◌^◌, ◌≤◌, ◌<◌, ◌≡◌, ◌≢◌, refl, sym, ap, ap₂, ◌∙◌, subst, ◌⊎◌, inl, inr,
  true, List, [], ◌∷◌, length, arith,
}
use smart_rabbit_server.Base.Int.{ℤ, pos, negsuc, ltb_ℤ, ◌≤ℤ◌}
use smart_rabbit_server.Numbers.{to_int, negate, scan, skip, s2u, stoi, digits, u2s, utos, itos}
use smart_rabbit_server.Numbers.Swap.{backwards, reverse-backwards, length-backwards}
use smart_rabbit_server.Numbers.Digits.{
  AllDigits, pow10, digits-AllDigits, value-digits, length-digits, read, read-backwards, scan-read,
  backwards-AllDigits,
}

to_int-pos : (n : ℕ) → n < 2 ^ 31 → to_int n ≡ pos n
to_int-pos n h = ground arith

s2u-read :
    (s : List ℕ) → AllDigits s → length s ≤ 10 → s2u s ≡ (to_int (read 0 s), length s, length s)
unfolding s2u skip
s2u-read s d h = rw (scan-read 10 0 0 s d h) (ap (λ l. (to_int (read 0 s), l, l)) (omega arith))

fits : (n : ℕ) → n < 2 ^ 31 → n < pow10 10
fits n h = omega arith

pow10_pos : (m : ℕ) → 1 ≤ pow10 m
pow10_pos zero = omega arith
pow10_pos (suc m) = omega (arith, pow10_pos m)

pow10_mono : (k m : ℕ) → k ≤ m → pow10 k ≤ pow10 m
pow10_mono zero m h = pow10_pos m
pow10_mono (suc k) zero h = absurd (omega arith)
pow10_mono (suc k) (suc m) h = omega (arith, pow10_mono k m (omega arith))

room-fits : (room n : ℕ) → 10 ≤ room → n < 2 ^ 31 → n < pow10 room
room-fits room n r h = let m = pow10_mono 10 room r in let f = fits n h in omega arith

read-digits : (room n : ℕ) → 10 ≤ room → n < 2 ^ 31 → read 0 (backwards (digits room n)) ≡ n
read-digits room n r h =
    let v = value-digits room n (room-fits room n r h) in
    let e = read-backwards (digits room n) in omega arith

-- The digits of a positive number, in the order of writing.
text-reads :
    (room n : ℕ)
    → 10 ≤ room
    → n < 2 ^ 31
    → s2u (backwards (digits room n))
      ≡ (pos n, length (backwards (digits room n)), length (backwards (digits room n)))
text-reads room n r h =
    let d = backwards-AllDigits (digits room n) (digits-AllDigits room n) in
    let l = length-backwards (digits room n) ∙ refl in
    let m = length-digits room 10 n (omega arith) in
    s2u-read (backwards (digits room n)) d (omega arith)
    ∙ ap (λ x. (x, length (backwards (digits room n)), length (backwards (digits room n))))
        (ap to_int (read-digits room n r h) ∙ to_int-pos n h)

u2s-text : (room n : ℕ) → n ≢ 0 → u2s (suc room) (pos n) ≡ backwards (digits (suc room) n)
unfolding u2s
u2s-text room n h = (let e = reverse-backwards (digits (suc room) n) in ground arith)

zero_or_ne : (n : ℕ) → (n ≡ 0) ⊎ (n ≢ 0)
zero_or_ne n = ground arith

-- What reading a text back as `n` means: the number, and all of the text read.
abbrev pub ReadsAs : List ℕ → ℕ → Type 0
ReadsAs s n = s2u s ≡ (pos n, length s, length s)

-- The two properties of a written number that a reader needs.
abbrev pub Writes : List ℕ → ℕ → Type 0
Writes s n = ReadsAs s n × AllDigits s × (0 < length s)

zero-Writes : (room : ℕ) → Writes (u2s (suc room) (pos 0)) 0
unfolding u2s s2u scan skip
zero-Writes room = (refl, (refl, tt), omega arith)

backwards-nonempty : (room n : ℕ) → n ≢ 0 → 0 < length (backwards (digits (suc room) n))
unfolding digits
backwards-nonempty room n h = let l = length-backwards (digits (suc room) n) in ground arith

pub u2s-Writes : (room n : ℕ) → 9 ≤ room → n < 2 ^ 31 → Writes (u2s (suc room) (pos n)) n
u2s-Writes room n r h = elim (zero_or_ne n) [
  | inl e ↦ subst (λ m. Writes (u2s (suc room) (pos m)) m) (sym e) (zero-Writes room)
  | inr ne ↦
      subst (λ s. Writes s n) (sym (u2s-text room n ne))
        (
          text-reads (suc room) n (omega arith) h,
          backwards-AllDigits (digits (suc room) n) (digits-AllDigits (suc room) n),
          backwards-nonempty room n ne,
        )
]

-- For n below 2^31 `stou` reads n from the text that `utos` writes, and both lengths that it
-- reports are the length of the text.
pub stou-utos :
    (n : ℕ)
    → n < 2 ^ 31
    → s2u (utos (pos n)) ≡ (pos n, length (utos (pos n)), length (utos (pos n)))
unfolding utos
stou-utos n h = (u2s-Writes 62 n (omega arith) h).0

stoi-digits : (s : List ℕ) (n : ℕ) → Writes s n → stoi s ≡ (pos n, length s)
unfolding stoi
stoi-digits [] n (e, d, l) = absurd (omega arith)
stoi-digits (c ∷ s) n (e, (d, ds), l) = rw e (ground arith)

stoi-minus : (s : List ℕ) (n : ℕ) → Writes s n → stoi (45 ∷ s) ≡ (negate (pos n), length s + 1)
unfolding stoi
stoi-minus s n (e, d, l) = rw e refl

negate-negsuc : (n : ℕ) → n < 2 ^ 31 - 1 → negate (negsuc n) ≡ pos (suc n)
negate-negsuc n h = ground arith

negate-pos : (n : ℕ) → n < 2 ^ 31 - 1 → negate (pos (suc n)) ≡ negsuc n
negate-pos n h = ground arith

itos-pos : (n : ℕ) → itos (pos n) ≡ u2s 63 (pos n)
unfolding itos
itos-pos n = ground arith

minus_first : (n : ℕ) → ltb_ℤ (negsuc n) (pos 0) ≡ true
minus_first n = ground arith

itos-minus : (n : ℕ) → itos (negsuc n) ≡ 45 ∷ u2s 62 (negate (negsuc n))
unfolding itos
itos-minus n = rw (minus_first n) refl

itos-negsuc : (n : ℕ) → n < 2 ^ 31 - 1 → itos (negsuc n) ≡ 45 ∷ u2s 62 (pos (suc n))
itos-negsuc n h = itos-minus n ∙ ap (λ x. 45 ∷ u2s 62 x) (negate-negsuc n h)

-- For every `int` but the least, `stoi` reads it from the text that `itos` writes, and the
-- length that it reports is the length of the text.
pub stoi-itos :
    (x : ℤ)
    → negsuc (2 ^ 31 - 2) ≤ℤ x
    → x ≤ℤ pos (2 ^ 31 - 1)
    → stoi (itos x) ≡ (x, length (itos x))
stoi-itos (pos n) lo hi =
    subst (λ s. stoi s ≡ (pos n, length s)) (sym (itos-pos n))
      (stoi-digits (u2s 63 (pos n)) n (u2s-Writes 62 n (omega arith) (omega arith)))
stoi-itos (negsuc n) lo hi =
    let t = u2s 62 (pos (suc n)) in
    let m = stoi-minus t (suc n) (u2s-Writes 61 (suc n) (omega arith) (omega arith)) in
    subst (λ s. stoi s ≡ (negsuc n, length s)) (sym (itos-negsuc n (omega arith)))
      (m ∙ ap₂ (λ x l. (x, l)) (negate-pos n (omega arith)) (omega arith))

-- `itos` writes the least `int` as "-0".
itos-least : itos (negsuc (2 ^ 31 - 1)) ≡ 45 ∷ 48 ∷ []
unfolding itos u2s
itos-least = refl
