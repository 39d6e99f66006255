-- ===== src/Amf/Decoder/Decode.antt =====
-- `decode_amf3` and `rbtAMF_decode` of rbtlib/decoder.c.
use smart_rabbit_server.Base.{
  ℕ, zero, suc, Bool, true, false, Option, some, List, [], ◌==◌, if◌then◌else◌,
}
use smart_rabbit_server.Amf.Value.{Value, nil, boolean, number, float, Heap, Result}
use smart_rabbit_server.Amf.Encoder.{
  undefined_type, null_type, false_type, true_type, int_type, double_type, string_type, date_type,
  array_type, object_type,
}
use smart_rabbit_server.Amf.Decoder.{
  Ctx, M, ◌>>=◌, return, decode_error, read_byte, read_int, decode_double, deserialize_string,
  out_of_fuel,
}
use smart_rabbit_server.Amf.Decoder.Collections.{
  DecodePart, deserialize_array, deserialize_date, decode_object,
}

-- A function that always writes `v`.
abbrev pub written : M Value → M (Option Value)
written m = do v ← m; return (some v)

module _ (big_endian : Bool) where
  -- The `switch` of `decode_amf3`; XML, byte arrays and unknown markers are an error. `old` is what
  -- `v` holds before the call.
  unfoldable pub dispatch : ℕ → DecodePart → Option Value → ℕ → M (Option Value)
  dispatch fuel dec old byte =
      if byte == undefined_type
      then return (some nil)
      else if byte == null_type
      then return (some nil)
      else if byte == false_type
      then return (some (boolean false))
      else if byte == true_type
      then return (some (boolean true))
      else if byte == int_type
      then written (do i ← read_int; return (number i))
      else if byte == double_type
      then written (do d ← decode_double big_endian; return (float d))
      else if byte == string_type
      then written deserialize_string
      else if byte == date_type
      then written (deserialize_date big_endian)
      else if byte == array_type
      then deserialize_array fuel dec false
      else if byte == object_type
      then decode_object fuel dec old
      else decode_error

  -- `decode_amf3`. The fuel bounds how deep values are nested, and each `while` loop in them.
  unfoldable pub decode_amf3 : ℕ → DecodePart
  decode_amf3 zero old = out_of_fuel
  decode_amf3 (suc fuel) old = do byte ← read_byte; dispatch fuel (decode_amf3 fuel) old byte

  -- `rbtAMF_decode` on a valid `i_io`: `err` is its -1. `old` is what the caller's `v` holds.
  unfoldable pub amf_decode : ℕ → Heap → Option Value → List ℕ → Result (Option Value × Ctx)
  amf_decode fuel heap old input =
      decode_amf3 fuel old
        (record { input = input; obj_refs = []; string_refs = []; traits_refs = []; heap = heap })
