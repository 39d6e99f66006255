-- ===== src/Amf/Encoder/Forms.antt =====
-- What the encoder writes for an integer, a double and a string is the AMF3 form of it.
use smart_rabbit_server.Base.{
  ℕ, ◌+◌, ◌*◌, ◌^◌, ◌≤◌, ◌<◌, ◌≡◌, refl, ap, Bool, true, false, List, ◌++◌, length, arith,
}
use smart_rabbit_server.Base.Int.{ℤ, pos, negsuc}
use smart_rabbit_server.Amf.Value.{Double, bytes8}
use smart_rabbit_server.Amf.Ints.{low29, encode_bits, encode_int}
use smart_rabbit_server.Amf.Ints.RoundTrip.{Fits29}
use smart_rabbit_server.Amf.Encoder.{encode_double}
use smart_rabbit_server.Amf.Tree.{bits29, u29, wire_int, wire_double, wire_string}

encode_bits-u29 : (v : ℕ) → v < 2 ^ 29 → (encode_bits v).0 ≡ u29 v
unfolding encode_bits u29
encode_bits-u29 v h = ground arith

low29-bits29 : (z : ℤ) → Fits29 z → low29 z ≡ bits29 z
unfolding low29
low29-bits29 (pos n) h = omega arith
low29-bits29 (negsuc n) h = omega arith

bits29-lt : (z : ℤ) → Fits29 z → bits29 z < 2 ^ 29
bits29-lt (pos n) h = omega arith
bits29-lt (negsuc n) h = omega arith

pub encode_int-wire_int : (z : ℤ) → Fits29 z → (encode_int z).0 ≡ wire_int z
unfolding encode_int
encode_int-wire_int z h = rw (low29-bits29 z h) (encode_bits-u29 (bits29 z) (bits29-lt z h))

pub encode_double-wire_double : (be : Bool) (d : Double) → (encode_double be d).0 ≡ wire_double be d
unfolding encode_double
encode_double-wire_double true (bytes8 a b c d e f g h) = refl
encode_double-wire_double false (bytes8 a b c d e f g h) = refl

pub header-wire_string :
    (s : List ℕ) → length s < 2 ^ 27 → (encode_int (pos (length s * 2 + 1))).0 ++ s ≡ wire_string s
header-wire_string s h =
    ap (λ x. x ++ s) (encode_int-wire_int (pos (length s * 2 + 1)) (omega arith))

-- An integer takes a byte at least.
pub wire_int-length : (z : ℤ) → 1 ≤ length (wire_int z)
unfolding u29
wire_int-length (pos n) = ground arith
wire_int-length (negsuc n) = ground arith
