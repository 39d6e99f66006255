-- ===== src/Numbers.antt =====
-- rbtlib/math.c: decimal texts of C's 32-bit `int`. A text is the list of its bytes.
pub mod Swap
pub mod Digits
pub mod RoundTrip
mod Tests
use smart_rabbit_server.Base.{
  ℕ, zero, suc, ◌+◌, ◌-◌, ◌*◌, ◌/◌, ◌%◌, ◌^◌, Bool, true, false, ◌&&◌, ◌||◌, List, [], ◌∷◌, ltb,
  leb, ◌==◌, if◌then◌else◌, get_or, set, length,
}
use smart_rabbit_server.Base.Int.{ℤ, pos, negsuc, ltb_ℤ}

-- The `int` with a given bit pattern, and its pattern. An `int` that overflows wraps.
abbrev pub to_int : ℕ → ℤ
to_int r = if ltb r (2 ^ 31) then pos r else negsuc (2 ^ 32 - 1 - r)

abbrev pub pattern_of : ℤ → ℕ
pattern_of (pos n) = n % 2 ^ 32
pattern_of (negsuc n) = 2 ^ 32 - 1 - n % 2 ^ 32

-- `-1 * x`, as an `int`.
abbrev pub negate : ℤ → ℤ
negate x = to_int ((2 ^ 32 - pattern_of x) % 2 ^ 32)

-- `'0' <= c && c <= '9'`
abbrev pub is_digit : ℕ → Bool
is_digit c = leb 48 c && leb c 57

-- The first loop of `s2u`, with 10 - i in `left` and the pattern of `r`: it stops at the end, at a
-- byte that is no digit and after ten digits. It gives `r`, `i` and the text from there on.
unfoldable pub scan : ℕ → ℕ → ℕ → List ℕ → ℕ × ℕ × List ℕ
scan zero r i s = (r, i, s)
scan (suc left) r i [] = (r, i, [])
scan (suc left) r i (c ∷ s) =
    if is_digit c then scan left ((r * 10 + (c - 48)) % 2 ^ 32) (i + 1) s else (r, i, c ∷ s)

-- The second loop of `s2u`, over the digits that are ignored.
unfoldable pub skip : ℕ → List ℕ → ℕ
skip i [] = i
skip i (c ∷ s) = if is_digit c then skip (i + 1) s else i

-- `s2u`, which is `stou`: the number, `*len` and `*real_len`.
unfoldable pub s2u : List ℕ → ℤ × ℕ × ℕ
s2u s = let (r, i, rest) = scan 10 0 0 s in (to_int r, skip i rest, i)

-- `stoi`: the number and `*len`.
unfoldable pub stoi : List ℕ → ℤ × ℕ
stoi [] = (pos 0, 0)
stoi (c ∷ s) =
    let (n, len, _) = s2u s in
    let (n', len', _) = s2u (c ∷ s) in if c == 45 then (negate n, len + 1) else (n', len')

-- The loop of `reverse`.
unfoldable pub swap_loop : ℕ → ℕ → ℕ → List ℕ → List ℕ
swap_loop zero start end p = p
swap_loop (suc fuel) start end p =
    let c = get_or p end 0 in
    let rest = swap_loop fuel (start + 1) (end - 1) (set (set p end (get_or p start 0)) start c) in
    if ltb start end then rest else p

-- `reverse` of a whole text; the loop runs fewer times than there are bytes.
unfoldable pub reverse : List ℕ → List ℕ
reverse p = if leb (length p) 1 then p else swap_loop (length p) 0 (length p - 1) p

-- The loop of `u2s`, with `len - i` in `room`: the digits, the last one first.
unfoldable pub digits : ℕ → ℕ → List ℕ
digits zero u = []
digits (suc room) u = let rest = digits room (u / 10) in if u == 0 then [] else (48 + u % 10) ∷ rest

-- `u2s`, the bytes it writes.
unfoldable pub u2s : ℕ → ℤ → List ℕ
u2s zero u = []
u2s (suc room) (negsuc n) = 48 ∷ []
u2s (suc room) (pos n) = if n == 0 then 48 ∷ [] else reverse (digits (suc room) n)

-- `utos` and `itos`: the text before the zero that ends it.
unfoldable pub utos : ℤ → List ℕ
utos u = u2s 63 u

unfoldable pub itos : ℤ → List ℕ
itos s = if ltb_ℤ s (pos 0) then 45 ∷ u2s 62 (negate s) else u2s 63 s
