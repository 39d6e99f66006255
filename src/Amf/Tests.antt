-- ===== src/Amf/Tests.antt =====
-- Concrete runs of the AMF3 codec.
use smart_rabbit_server.Base.{ℕ, false, Option, none, some, List, [], ◌∷◌, ◌++◌, ◌≡◌, refl}
use smart_rabbit_server.Base.Int.{negsuc}
use smart_rabbit_server.Amf.Value.{
  table_set, bytes8, Value, number, string, table, Heap, Result, ok,
}
use smart_rabbit_server.Amf.Ints.{encode_int, decode_int}
use smart_rabbit_server.Amf.Encoder.{
  Platform, encode_amf3, encode_object, encode_entries, key_name, encode_string, serialize_string,
  write_int,
}
use smart_rabbit_server.Amf.Decoder.{
  Ctx, read_byte, read_int, new_table, set_entry, string_bytes, local_value, deserialize_string,
  deserialize_string_body, decode_reference, decode_string, idx_map_string, idx_map_object,
}
use smart_rabbit_server.Amf.Decoder.Decode.{amf_decode, decode_amf3, dispatch}
use smart_rabbit_server.Amf.Decoder.Collections.{
  decode_object, object_body, names_loop, sealed_count, add_traits, sealed_loop, members_loop,
}

abbrev host : Platform
host = record {
  big_endian = false;
  to_double = λ n. bytes8 0 0 0 0 0 0 0 0;
  utos = λ n. b'7' ∷ [];
  ftos = λ d. b'0' ∷ [];
}

abbrev sample : Heap
sample =
    ((string (b'a' ∷ []), number (negsuc 4)) ∷ (string (b'b' ∷ []), table 1) ∷ [])
    ∷ ((string (b'c' ∷ []), string (b'h' ∷ b'i' ∷ [])) ∷ [])
    ∷ []

abbrev wire : List ℕ
wire =
    10 ∷ 11 ∷ 1 ∷ 3 ∷ b'a' ∷ 4 ∷ 255 ∷ 255 ∷ 255 ∷ 251 ∷ 3 ∷ b'b' ∷ 10 ∷ 11 ∷ 1 ∷ 3 ∷ b'c' ∷ 6 ∷ 5
    ∷ b'h' ∷ b'i' ∷ 1 ∷ 1 ∷ []

encode_sample : encode_amf3 host 3 sample (table 0) ≡ some (wire, 1)
unfolding encode_amf3 encode_object encode_entries key_name encode_string serialize_string write_int
    encode_int
encode_sample = refl

abbrev outcome : Result (Option Value × Ctx) → Option (Option Value × Heap × List ℕ)
outcome (ok (v, c)) = some (v, c.heap, c.input)
outcome _ = none

decode_sample :
    outcome (amf_decode false 10 [] none (wire ++ (9 ∷ []))) ≡ some (some (table 0), sample, 9 ∷ [])
unfolding amf_decode decode_amf3 dispatch read_byte read_int decode_object object_body names_loop
    sealed_count add_traits sealed_loop members_loop new_table set_entry table_set string_bytes
    local_value deserialize_string deserialize_string_body decode_reference decode_string
    idx_map_string idx_map_object decode_int
decode_sample = refl
