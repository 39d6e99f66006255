-- ===== src/Amf/Ints.antt =====
-- The AMF3 29-bit integer: `_encode_int_amf3` of rbtlib/encoder.c and `_decode_int_amf3` of
-- rbtlib/decoder.c. A mask of low ones is `%`, a shift is `/` or `*`, and `|` joins disjoint bits.
pub mod RoundTrip
mod Tests
use smart_rabbit_server.Base.{
  ℕ, zero, suc, ◌+◌, ◌-◌, ◌*◌, ◌/◌, ◌%◌, ◌^◌, Bool, true, false, List, [], ◌∷◌, ltb, leb, ◌==◌,
  if◌then◌else◌,
}
use smart_rabbit_server.Base.Int.{ℤ, pos, negsuc, sub_ℕ}
use smart_rabbit_server.Amf.Value.{Result, ok, err}

-- `value & 0x1fffffff` on a two's complement `int`.
unfoldable pub low29 : ℤ → ℕ
low29 (pos n) = n % 2 ^ 29
low29 (negsuc n) = 2 ^ 29 - 1 - n % 2 ^ 29

-- The bytes that reach the `i_io`, beside the C return value.
abbrev pub Out : Type 0
Out = List ℕ × ℕ

-- `(value >> s & 0x7f) | 0x80`
abbrev pub more_byte : ℕ → ℕ
more_byte v = v % 128 + 128

unfoldable pub encode_bits : ℕ → Out
encode_bits v =
    if ltb v 0x80
    then (v ∷ [], 1)
    else if ltb v 0x4000
    then (more_byte (v / 2 ^ 7) ∷ v % 128 ∷ [], 2)
    else if ltb v 0x20_0000
    then (more_byte (v / 2 ^ 14) ∷ more_byte (v / 2 ^ 7) ∷ v % 128 ∷ [], 3)
    else if ltb v 0x4000_0000
    then (more_byte (v / 2 ^ 22) ∷ more_byte (v / 2 ^ 15) ∷ more_byte (v / 2 ^ 8) ∷ v % 256 ∷ [], 4)
    else ([], 0)

-- `_encode_int_amf3`
unfoldable pub encode_int : ℤ → Out
unfolding low29 encode_bits
encode_int value = encode_bits (low29 value)

-- `read_char` of an `i_io` that holds the bytes `rest`: the byte, whether `error` is set, and what
-- is left. At the end of the input it answers 0.
abbrev pub read_char : List ℕ → ℕ × Bool × List ℕ
read_char [] = (0, true, [])
read_char (b ∷ rest) = (b, false, rest)

-- The `while` loop, with `left` = 3 - byte_cnt. It ends with the result so far, the last byte, the
-- rounds left and the input.
unfoldable pub int_loop : ℕ → ℕ → ℕ → List ℕ → Result (ℕ × ℕ × ℕ × List ℕ)
int_loop zero result byte rest = ok (result, byte, zero, rest)
int_loop (suc left) result byte rest =
    let (next, failed, rest') = read_char rest in
    let again = int_loop left (result * 128 + byte % 128) next rest' in
    if leb 128 byte then (if failed then err else again) else ok (result, byte, suc left, rest)

-- The last byte, and the sign bit of the 29.
unfoldable pub finish_int : ℕ → ℕ → ℕ → ℤ
finish_int result byte left =
    let bits = if left == 0 then result * 256 + byte % 256 else result * 128 + byte % 128 in
    if bits / 2 ^ 28 % 2 == 1 then sub_ℕ bits (2 ^ 29) else pos bits

abbrev pub finish : Result (ℕ × ℕ × ℕ × List ℕ) → Result (ℤ × List ℕ)
unfolding finish_int
finish (ok (result, byte, left, rest)) = ok (finish_int result byte left, rest)
finish err = err
finish Result.fault = Result.fault
finish Result.stuck = Result.stuck

-- `_decode_int_amf3`: the first byte is read without a check of `error`.
unfoldable pub decode_int : List ℕ → Result (ℤ × List ℕ)
unfolding int_loop finish_int
decode_int input = let (byte, failed, rest) = read_char input in finish (int_loop 3 0 byte rest)
