-- ===== src/Amf/Decoder/Collections.antt =====
-- The loops and the compound types of rbtlib/decoder.c: dates, arrays and objects. `dec` is
-- `decode_amf3` on a part: it is handed the value that the C local holds, and returns what the
-- local holds afterwards. A `while` loop takes fuel.
use smart_rabbit_server.Base.{
  ℕ, zero, suc, ◌+◌, Bool, true, false, Option, none, some, List, [], ◌∷◌, ◌++◌, ◌*◌, ◌==◌, ltb,
  leb, if◌then◌else◌, length, get_elem?,
}
use smart_rabbit_server.Base.Int.{ℤ, pos, negsuc}
use smart_rabbit_server.Amf.Value.{
  Value, nil, number, string, date, table, is_nil, is_string, asr1, bit_set, Result, ok, err, fault,
  stuck,
}
use smart_rabbit_server.Amf.Decoder.{
  Traits, Ctx, M, ◌>>=◌, ◌>>◌, return, decode_error, undefined, out_of_fuel, read_int,
  idx_map_object, decode_reference, if_found, deserialize_string, decode_double, new_table,
  set_entry, string_bytes, local_value, c_string,
}

abbrev pub DecodePart : Type 0
DecodePart = Option Value → M (Option Value)

-- `decode_dynamic_dict_amf3`
unfoldable pub dict_loop : ℕ → DecodePart → ℕ → M (Unit {0})
dict_loop zero dec t = out_of_fuel
dict_loop (suc fuel) dec t = do
  key ← deserialize_string
  let again = dict_loop fuel dec t
  if is_nil key then decode_error else (do
    s ← string_bytes key
    if length s == 0 then return tt else (do
      val ← dec (some nil)
      v ← local_value val
      if is_nil v then return tt else (do set_entry t key v; again)))

-- `decode_dynamic_array_amf3`, `n` items from index `i` on; false stands for -1.
unfoldable pub array_loop : DecodePart → ℕ → ℕ → ℕ → Option Value → M Bool
array_loop dec t zero i val = return true
array_loop dec t (suc n) i val = do
  val' ← dec val
  v ← local_value val'
  let again = array_loop dec t n (i + 1) val'
  if is_nil v then return false else (do set_entry t (number (pos i)) v; again)

-- An array collection is entered a second time in the reference table.
abbrev pub map_collection : Bool → Value → M (Unit {0})
map_collection collection v = if collection then idx_map_object v else return tt

-- `i < array_len` for `i` from 0: how many rounds.
abbrev pub rounds : ℤ → ℕ
rounds (pos n) = n
rounds (negsuc n) = 0

-- The end of `deserialize_array_amf3`, once the table is made.
unfoldable pub fill_array : DecodePart → Bool → ℕ → ℤ → M (Option Value)
fill_array dec collection t len = do
  idx_map_object (table t)
  map_collection collection (table t)
  done ← array_loop dec t (rounds len) 0 none
  return (some (if done then table t else nil))

-- `deserialize_array_amf3` behind the first name: a regular array, whose length becomes a `size_t`
-- and so must not be negative, or an associative one.
unfoldable pub array_body : ℕ → DecodePart → Bool → ℤ → List ℕ → M (Option Value)
array_body fuel dec collection (negsuc n) [] = undefined
array_body fuel dec collection (pos n) [] = do t ← new_table; fill_array dec collection t (pos n)
array_body fuel dec collection len (c ∷ s) = do
  val ← dec none
  v ← local_value val
  if is_nil v then return (some nil) else (do
    t ← new_table
    set_entry t (string (c ∷ s)) v
    dict_loop fuel dec t
    fill_array dec collection t len)

-- `deserialize_array_amf3`
unfoldable pub deserialize_array : ℕ → DecodePart → Bool → M (Option Value)
deserialize_array fuel dec collection = do
  header ← read_int
  ref ← λ c. decode_reference c.obj_refs header c
  if_found ref (λ v. do map_collection collection v; return (some v))
      (do
        key ← deserialize_string
        if is_nil key
            then return (some nil)
            else (do s ← string_bytes key; array_body fuel dec collection (asr1 header) s))

-- `deserialize_date` behind the reference. `decode_reference_amf3` answers NULL, `none` here, for
-- a header that is no reference.
unfoldable pub date_body : Bool → Option Value → M Value
date_body big_endian none = return nil
date_body big_endian (some v) =
    if is_nil v
    then (do d ← decode_double big_endian; idx_map_object (date d); return (date d))
    else return v

-- `deserialize_date`
unfoldable pub deserialize_date : Bool → M Value
deserialize_date big_endian = do
  header ← read_int
  ref ← λ c. decode_reference c.obj_refs header c
  date_body big_endian ref

-- The members that follow the sealed ones, up to an empty name: the `while` loops of
-- `decode_object` and of `decode_traits_reference_object`. `store` makes the key of the table.
unfoldable pub members_loop :
    ℕ → DecodePart → (List ℕ → List ℕ) → ℕ → Value → Option Value → M (Unit {0})
members_loop zero dec store t key val = out_of_fuel
members_loop (suc fuel) dec store t key val = do
  s ← string_bytes key
  let again = members_loop fuel dec store t
  if length s == 0 then return tt else (do
    val' ← dec val
    v ← local_value val'
    set_entry t (string (store s)) v
    key' ← deserialize_string
    if is_string key' then again key' val' else return tt)

-- The loop over the sealed values; a name that was not read is an uninitialised pointer.
unfoldable pub sealed_loop : DecodePart → ℕ → ℕ → List (List ℕ) → Option Value → M (Unit {0})
sealed_loop dec t zero names val = return tt
sealed_loop dec t (suc n) [] val = do val' ← dec val; undefined
sealed_loop dec t (suc n) (s ∷ names) val = do
  val' ← dec val
  v ← local_value val'
  set_entry t (string (c_string s)) v
  sealed_loop dec t n names val'

-- The size of the `TraitsList` after as many calls of `new_traits` on an empty one: the array moves
-- when it is full.
abbrev pub traits_size : ℕ → ℕ
traits_size zero = 0
traits_size (suc used) =
    let size = traits_size used in if leb size used then (used + 1) * 2 else size

abbrev pub not_moved : ℕ → Result (Option Value × Ctx) → Result (Option Value × Ctx)
not_moved size (ok (o, c)) = if traits_size (length c.traits_refs) == size then ok (o, c) else fault
not_moved size err = err
not_moved size fault = fault
not_moved size stuck = stuck

-- `decode_amf3` where the caller keeps a `Traits *` across it and then reads through it: undefined
-- when the call has moved the array.
abbrev pub with_pointer : DecodePart → DecodePart
with_pointer dec old c = not_moved (traits_size (length c.traits_refs)) (dec old c)

-- `decode_traits_reference_object` behind its test of the index. With sealed members it returns
-- before `v` is written, and so it does where a name is no string. The loop over the sealed members
-- holds a pointer to the traits.
unfoldable pub traits_body : ℕ → DecodePart → Option Value → List (List ℕ) → M (Option Value)
traits_body fuel dec old names = do
  t ← new_table
  sealed_loop (with_pointer dec) t (length names) names none
  if ltb 0 (length names) then return old else (do
    key ← deserialize_string
    if is_string key
        then (do
          members_loop fuel dec c_string t key none
          idx_map_object (table t)
          return (some (table t)))
        else return old)

abbrev pub with_traits : ℕ → DecodePart → Option Value → Option Traits → M (Option Value)
with_traits fuel dec old none = decode_error
with_traits fuel dec old (some trait) = traits_body fuel dec old trait.names

-- `decode_traits_reference_object`
unfoldable pub traits_reference : ℕ → DecodePart → Option Value → ℤ → M (Option Value)
traits_reference fuel dec old (negsuc n) c = err
traits_reference fuel dec old (pos i) c = with_traits fuel dec old (get_elem? c.traits_refs i) c

-- The names of the sealed members; reading stops at one that is no string.
unfoldable pub names_loop : ℕ → M (List (List ℕ))
names_loop zero = return []
names_loop (suc n) = do
  key ← deserialize_string
  let again = names_loop n
  if is_string key then (do s ← string_bytes key; names ← again; return (s ∷ names)) else return []

-- `new_traits` with `*ptrait = trait`
unfoldable pub add_traits : Traits → M (Unit {0})
add_traits trait c = ok (tt, record c { traits_refs = c.traits_refs ++ (trait ∷ []) })

-- `header >> 4` as a count of members: none where it is negative.
unfoldable pub sealed_count : ℤ → ℕ
sealed_count header = rounds (asr1 (asr1 (asr1 (asr1 header))))

-- `decode_object` behind its header and its class name.
unfoldable pub object_body : ℕ → DecodePart → ℤ → M (Option Value)
object_body fuel dec header = do
  t ← new_table
  names ← names_loop (sealed_count header)
  add_traits (record { names = names; dynamic = bit_set 3 header })
  sealed_loop dec t (sealed_count header) names none
  key ← deserialize_string
  if is_nil key then return (some (table t)) else (do
    members_loop fuel dec (λ s. s) t key none
    idx_map_object (table t)
    return (some (table t)))

-- `decode_object`
unfoldable pub decode_object : ℕ → DecodePart → Option Value → M (Option Value)
decode_object fuel dec old = do
  header ← read_int
  ref ← λ c. decode_reference c.obj_refs header c
  if_found ref (λ v. return (some v))
      (if bit_set 1 header
        then (do
          class_name ← deserialize_string
          if is_nil class_name then return (some nil) else object_body fuel dec header)
        else traits_reference fuel dec old (asr1 (asr1 header)))
