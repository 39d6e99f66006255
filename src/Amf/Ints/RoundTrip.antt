-- ===== src/Amf/Ints/RoundTrip.antt =====
-- What the integer codec guarantees: round trip, sizes, and the range it covers.
use smart_rabbit_server.Base.{
  min, ℕ, ◌+◌, ◌^◌, ◌≤◌, ◌<◌, ◌≡◌, ◌≢◌, List, [], ◌∷◌, ◌++◌, ltb, if◌then◌else◌, length, arith,
}
use smart_rabbit_server.Base.Int.{ℤ, pos, negsuc, sub_ℕ}
use smart_rabbit_server.Amf.Value.{ok, stuck}
use smart_rabbit_server.Amf.Ints.{low29, encode_bits, encode_int, int_loop, decode_int, finish_int}

decode_bits :
    (v : ℕ) (rest : List ℕ)
    → v < 2 ^ 29
    → decode_int ((encode_bits v).0 ++ rest)
      ≡ ok ((if ltb v (2 ^ 28) then pos v else sub_ℕ v (2 ^ 29)), rest)
unfolding encode_bits decode_int int_loop finish_int
decode_bits v rest h = ground arith

-- An `int` that the 29 bits can hold.
abbrev pub Fits29 : ℤ → Type 0
Fits29 (pos n) = n < 2 ^ 28
Fits29 (negsuc n) = n < 2 ^ 28

-- Every integer of 29 bits that is encoded is decoded to itself, and the bytes behind it stay.
pub decode_int-encode_int :
    (z : ℤ) (rest : List ℕ) → Fits29 z → decode_int ((encode_int z).0 ++ rest) ≡ ok (z, rest)
unfolding encode_int
decode_int-encode_int (pos n) rest h = ground (arith, decode_bits (low29 (pos n)) rest)
decode_int-encode_int (negsuc n) rest h = ground (arith, decode_bits (low29 (negsuc n)) rest)

-- For every `int` the encoder writes 1 to 4 bytes and returns their number.
pub encode_int_size :
    (z : ℤ)
    → (1 ≤ (encode_int z).1) × ((encode_int z).1 ≤ 4) × (length (encode_int z).0 ≡ (encode_int z).1)
unfolding encode_int encode_bits
encode_int_size (pos n) = ground arith
encode_int_size (negsuc n) = ground arith

-- Whatever the input, a decoded integer fits in 29 bits, and one to four bytes are taken from an
-- input that is not empty.
pub decode_int_takes :
    (input : List ℕ) (z : ℤ) (rest : List ℕ)
    → decode_int input ≡ ok (z, rest)
    → Fits29 z
      × (length rest + min 1 (length input) ≤ length input)
      × (length input ≤ length rest + 4)
unfolding decode_int int_loop finish_int
decode_int_takes [] z rest e = ground arith
decode_int_takes (a ∷ []) z rest e = ground arith
decode_int_takes (a ∷ b ∷ []) z rest e = ground arith
decode_int_takes (a ∷ b ∷ c ∷ []) z rest e = ground arith
decode_int_takes (a ∷ b ∷ c ∷ d ∷ input) z rest e = ground arith

pub decode_int-ne-stuck : (input : List ℕ) → decode_int input ≢ stuck
unfolding decode_int int_loop finish_int
decode_int-ne-stuck [] = λ e. ground arith
decode_int-ne-stuck (a ∷ []) = λ e. ground arith
decode_int-ne-stuck (a ∷ b ∷ []) = λ e. ground arith
decode_int-ne-stuck (a ∷ b ∷ c ∷ []) = λ e. ground arith
decode_int-ne-stuck (a ∷ b ∷ c ∷ d ∷ input) = λ e. ground arith
