-- ===== src/Amf/Decoder/Edge.antt =====
-- What the decoder does off the encoder's path: its fuel, and three of its answers.
use smart_rabbit_server.Base.{
  ℕ, suc, ◌*◌, ◌^◌, ◌<◌, ◌≡◌, refl, Bool, false, Option, some, List, [], ◌∷◌, ◌++◌, length, arith,
  ◌/◌,
}
use smart_rabbit_server.Base.Int.{ℤ, pos}
use smart_rabbit_server.Amf.Value.{Double, Value, nil, string, Heap, bit_set, int_eq, ok}
use smart_rabbit_server.Amf.Ints.{encode_int, decode_int}
use smart_rabbit_server.Amf.Ints.RoundTrip.{Fits29, encode_int_size}
use smart_rabbit_server.Amf.RoundTrip.Scalars.{read_int-encode_int, eof-cons, decode_string-append}
use smart_rabbit_server.Amf.Encoder.{encode_double}
use smart_rabbit_server.Amf.Decoder.{
  Ctx, read_int, read_byte, decode_reference, idx_ret_index, deserialize_string,
  deserialize_string_body, idx_map_string, eof,
}
use smart_rabbit_server.Amf.Decoder.Collections.{deserialize_date, date_body}
use smart_rabbit_server.Amf.Decoder.Decode.{dispatch, decode_amf3, amf_decode}
use smart_rabbit_server.Amf.Decoder.Termination.{Bounded}
use smart_rabbit_server.Amf.Decoder.Total.{decode_amf3-Bounded}

-- On every input, one unit of fuel for each byte and one more is enough for `amf_decode`: it does not
-- run out, so that the recursion and every loop of the decoder ends unless the code has reached
-- undefined behaviour. It returns, and leaves no more bytes than it was given; or it calls
-- `decode_error`; or it reaches undefined behaviour (`fault`), which inputs can cause.
pub amf_decode-Bounded :
    (be : Bool) (heap : Heap) (old : Option Value) (input : List ℕ)
    → Bounded (length input) (amf_decode be (suc (length input)) heap old input)
unfolding amf_decode
amf_decode-Bounded be heap old input =
    decode_amf3-Bounded be (suc (length input)) old
      (record { input = input; obj_refs = []; string_refs = []; traits_refs = []; heap = heap })
      (omega arith)

-- A date that is sent in full, the header 1 and eight bytes, is returned as nil, and the eight bytes
-- stay in the input for the next read.
pub date_lost :
    (be : Bool) (fuel : ℕ) (heap : Heap) (old : Option Value) (d : Double) (rest : List ℕ)
    → amf_decode be (suc fuel) heap old (0x08 ∷ 0x01 ∷ ((encode_double be d).0 ++ rest))
      ≡ ok (
        some nil,
        record {
          input = (encode_double be d).0 ++ rest;
          obj_refs = [];
          string_refs = [];
          traits_refs = [];
          heap = heap;
        },
      )
unfolding amf_decode decode_amf3 dispatch read_byte deserialize_date date_body read_int decode_int
    decode_reference
date_lost be fuel heap old d rest = refl

abbrev pub fresh : Heap → List ℕ → Ctx
fresh heap input = record {
  input = input;
  obj_refs = [];
  string_refs = [];
  traits_refs = [];
  heap = heap;
}

string_header :
    (z : ℤ) (rest : List ℕ) (c : Ctx)
    → Fits29 z
    → c.input ≡ (encode_int z).0 ++ rest
    → deserialize_string c ≡ deserialize_string_body z (record c { input = rest })
unfolding deserialize_string
string_header z rest c h e =
    let ends : eof c.input ≡ false =
      rw e (eof-cons (encode_int z).0 rest (omega (arith, encode_int_size z))) in
    rw (ends, read_int-encode_int z rest c h e)

dangling_body :
    (s rest : List ℕ) (heap : Heap)
    → 0 < length s
    → deserialize_string_body (pos (length s * 2)) (fresh heap (s ++ rest))
      ≡ ok (string s, record (fresh heap rest) { string_refs = string s ∷ [] })
unfolding deserialize_string_body decode_reference idx_ret_index idx_map_string
dangling_body s rest heap h =
    let even : bit_set 0 (pos (length s * 2)) ≡ false = ground arith in
    let half : length s * 2 / 2 ≡ length s = omega arith in
    let other : int_eq (pos (length s * 2)) (pos 1) ≡ false = ground arith in
    rw (other, even, half, decode_string-append s rest (fresh heap (s ++ rest)) refl)

-- With no string in the reference table, a string header that is even, not 0 and below 2^28 is
-- not refused: half of it is taken for the length of a string that follows, which is returned.
pub string_reference-dangling :
    (be : Bool) (fuel : ℕ) (heap : Heap) (old : Option Value) (s rest : List ℕ)
    → 0 < length s
    → length s < 2 ^ 27
    → amf_decode be
        (suc fuel)
        heap
        old
        (0x06 ∷ ((encode_int (pos (length s * 2))).0 ++ (s ++ rest)))
      ≡ ok (some (string s), record (fresh heap rest) { string_refs = string s ∷ [] })
unfolding amf_decode decode_amf3 dispatch read_byte
string_reference-dangling be fuel heap old s rest h len =
    let z = pos (length s * 2) in
    let c : Ctx = fresh heap ((encode_int z).0 ++ (s ++ rest)) in
    rw (string_header z (s ++ rest) c (omega arith) refl, dangling_body s rest heap h)
