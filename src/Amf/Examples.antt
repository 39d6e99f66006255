-- ===== src/Amf/Examples.antt =====
-- The properties of the AMF3 codec at concrete values.
use smart_rabbit_server.Base.{
  ℕ, ◌+◌, ◌*◌, ◌≤◌, ◌≡◌, refl, min, true, false, none, some, List, [], ◌∷◌, ◌++◌, length, arith,
}
use smart_rabbit_server.Base.Int.{pos, negsuc}
use smart_rabbit_server.Amf.Value.{
  Double, bytes8, Value, nil, boolean, number, string, table, Heap, table_set, ok, fault,
}
use smart_rabbit_server.Amf.Ints.{encode_int, decode_int}
use smart_rabbit_server.Amf.Ints.RoundTrip.{
  Fits29, decode_int-encode_int, encode_int_size, decode_int_takes,
}
use smart_rabbit_server.Amf.Encoder.{Platform, encode_double, encode_amf3}
use smart_rabbit_server.Amf.Encoder.Wire.{encode_amf3-wire}
use smart_rabbit_server.Amf.Tree.{Tree, int, text, dict, end, entry, wire, Sendable, Shows}
use smart_rabbit_server.Amf.Decoder.{Traits, Ctx, new_table, set_entry, local_value, c_string}
use smart_rabbit_server.Amf.Decoder.Termination.{Bounded}
use smart_rabbit_server.Amf.Decoder.Collections.{
  DecodePart, traits_reference, traits_body, sealed_loop,
}
use smart_rabbit_server.Amf.Decoder.Decode.{amf_decode}
use smart_rabbit_server.Amf.Decoder.Sealed.{
  first_object, second_object, after_second, second_object-lost,
}
use smart_rabbit_server.Amf.Decoder.Edge.{
  amf_decode-Bounded, date_lost, string_reference-dangling, fresh,
}

abbrev zero_double : Double
zero_double = bytes8 0 0 0 0 0 0 0 0

abbrev little_host : Platform
little_host = record {
  big_endian = false;
  to_double = λ n. zero_double;
  utos = λ n. b'7' ∷ [];
  ftos = λ d. b'0' ∷ [];
}

-- A table that holds -5 and a table that holds a text.
abbrev two_tables : Heap
two_tables =
    ((string (b'a' ∷ []), number (negsuc 4)) ∷ (string (b'b' ∷ []), table 1) ∷ [])
    ∷ ((string (b'c' ∷ []), string (b'h' ∷ b'i' ∷ [])) ∷ [])
    ∷ []

abbrev two_dicts : Tree
two_dicts = dict (
    entry (b'a' ∷ []) (int (negsuc 4))
      (entry (b'b' ∷ []) (dict (entry (b'c' ∷ []) (text (b'h' ∷ b'i' ∷ [])) end)) end))

two_tables-Shows : Shows 0 two_tables (table 0) two_dicts
two_tables-Shows = (
  0,
  _,
  refl,
  omega arith,
  refl,
  (
    number (negsuc 4),
    _,
    refl,
    refl,
    (
      table 1,
      [],
      refl,
      (1, _, refl, omega arith, refl, (string (b'h' ∷ b'i' ∷ []), [], refl, refl, refl)),
      refl,
    ),
  ),
)

two_dicts-Sendable : Sendable two_dicts
two_dicts-Sendable = (
  (omega arith, omega arith, refl),
  tt,
  (refl, tt),
  omega arith,
  (
    (omega arith, omega arith, refl),
    tt,
    tt,
    ((omega arith, omega arith, refl), tt, tt, omega arith, tt),
    tt,
  ),
)

encode_amf3-wire_example :
    (ret : ℕ) × (encode_amf3 little_host 20 two_tables (table 0) ≡ some (wire false two_dicts, ret))
encode_amf3-wire_example =
    encode_amf3-wire little_host two_tables (table 0) two_dicts 20 0 two_tables-Shows
      two_dicts-Sendable (omega arith)

decode_int-encode_int_example :
    decode_int ((encode_int (negsuc 4)).0 ++ (7 ∷ [])) ≡ ok (negsuc 4, 7 ∷ [])
decode_int-encode_int_example = decode_int-encode_int (negsuc 4) (7 ∷ []) (omega arith)

encode_int_size_example :
    (1 ≤ (encode_int (pos 300)).1)
    × ((encode_int (pos 300)).1 ≤ 4)
    × (length (encode_int (pos 300)).0 ≡ (encode_int (pos 300)).1)
encode_int_size_example = encode_int_size (pos 300)

abbrev five_bytes : List ℕ
five_bytes = 0xff ∷ 0xff ∷ 0xff ∷ 0xfe ∷ 7 ∷ []

abbrev left : List ℕ
left = 7 ∷ []

minus_two : decode_int five_bytes ≡ ok (negsuc 1, left)
unfolding decode_int
minus_two = refl

decode_int_takes_example :
    Fits29 (negsuc 1)
    × (length left + min 1 (length five_bytes) ≤ length five_bytes)
    × (length five_bytes ≤ length left + 4)
decode_int_takes_example = decode_int_takes five_bytes (negsuc 1) left minus_two

amf_decode-Bounded_example : Bounded 3 (amf_decode false 4 [] none (0x09 ∷ 0x05 ∷ 0x01 ∷ []))
amf_decode-Bounded_example = amf_decode-Bounded false [] none (0x09 ∷ 0x05 ∷ 0x01 ∷ [])

date_lost_example :
    amf_decode false 1 [] none (0x08 ∷ 0x01 ∷ ((encode_double false zero_double).0 ++ []))
    ≡ ok (
      some nil,
      record {
        input = (encode_double false zero_double).0 ++ [];
        obj_refs = [];
        string_refs = [];
        traits_refs = [];
        heap = [];
      },
    )
date_lost_example = date_lost false 0 [] none zero_double []

-- Traits with one sealed member, and a part decoder that answers true without reading.
abbrev sealed : Traits
sealed = record { names = (b'x' ∷ []) ∷ []; dynamic = false }

abbrev one_traits : Ctx
one_traits = record {
  input = 3 ∷ [];
  obj_refs = [];
  string_refs = [];
  traits_refs = sealed ∷ [];
  heap = [];
}

abbrev says_true : DecodePart
says_true old c = ok (some (boolean true), c)

-- The object is lost: `v` is left unwritten.
sealed_run :
    traits_reference 2 says_true none (pos 0) one_traits
    ≡ ok (none, record one_traits { heap = ((string (b'x' ∷ []), boolean true) ∷ []) ∷ [] })
unfolding traits_reference traits_body sealed_loop new_table set_entry local_value c_string
    table_set
sealed_run = refl

-- A part decoder that reads traits, as an object in line does. With two traits before, it moves the
-- array under the pointer of the caller.
abbrev reads_traits : DecodePart
reads_traits old c =
    ok (some (boolean true), record c { traits_refs = c.traits_refs ++ (sealed ∷ []) })

moved_run :
    traits_reference 2 reads_traits none
      (pos 0)
      (record one_traits { traits_refs = sealed ∷ sealed ∷ [] })
    ≡ fault
unfolding traits_reference traits_body sealed_loop new_table
moved_run = refl

abbrev hi : List ℕ
hi = b'h' ∷ b'i' ∷ []

string_reference-dangling_example :
    amf_decode false 1 [] none (0x06 ∷ ((encode_int (pos (length hi * 2))).0 ++ (hi ++ [])))
    ≡ ok (some (string hi), record (fresh [] []) { string_refs = string hi ∷ [] })
string_reference-dangling_example =
    string_reference-dangling false 0 [] none hi [] (omega arith) (omega arith)

second_object-lost_example :
    amf_decode false 3 [] none
      (0x09 ∷ 0x05 ∷ 0x01 ∷ first_object (pos 7) (second_object (negsuc 0) (9 ∷ [])))
    ≡ ok (
      some (table 0),
      after_second
          (9 ∷ [])
          (pos 7)
          (negsuc 0)
          ((number (pos 0), table 1) ∷ (number (pos 1), table 1) ∷ []),
    )
second_object-lost_example =
    second_object-lost false 0 none (pos 7) (negsuc 0) (9 ∷ []) (omega arith) (omega arith)
