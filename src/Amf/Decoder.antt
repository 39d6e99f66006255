-- ===== src/Amf/Decoder.antt =====
-- rbtlib/decoder.c: AMF3 bytes as a value. This module has the context and what reads integers,
-- doubles, strings and references; its children have dates, arrays, objects and the whole decoder.
pub mod Collections
pub mod Decode
pub mod Termination
pub mod Loops
pub mod Total
pub mod Edge
pub mod Sealed
use smart_rabbit_server.Base.{
  ℕ, zero, suc, ◌+◌, ◌*◌, Bool, true, false, Option, none, some, List, [], ◌∷◌, ◌++◌, ltb, ◌==◌,
  not, if◌then◌else◌, length, get_elem?, take, drop, set,
}
use smart_rabbit_server.Base.Int.{ℤ, pos, negsuc}
use smart_rabbit_server.Amf.Value.{
  Double, bytes8, Value, nil, boolean, number, float, date, string, table, object, Table, Heap,
  table_set, is_nil, is_string, asr1, bit_set, int_eq, Result, ok, err, fault, stuck,
}
use smart_rabbit_server.Amf.Ints.{decode_int, read_char}

-- `Traits`: the names of an object's sealed members.
pub record Traits : Type 0 where
  pub names : List (List ℕ)
  pub dynamic : Bool

-- `DecodeCTX`: the bytes that the `i_io` has left and the three reference tables, beside the heap
-- of the tables made so far.
pub record Ctx : Type 0 where
  pub input : List ℕ
  pub obj_refs : List Value
  pub string_refs : List Value
  pub traits_refs : List Traits
  pub heap : Heap

abbrev pub M {ℓ} : Type ℓ → Type ℓ
M A = Ctx → Result (A × Ctx)

abbrev pub bind_result {ℓ κ} :
    {A : Type ℓ} {B : Type κ} → Result (A × Ctx) → (A → M B) → Result (B × Ctx)
bind_result (ok (a, c)) f = f a c
bind_result err f = err
bind_result fault f = fault
bind_result stuck f = stuck

infixl 5 ◌>>=◌ ◌>>◌
abbrev pub ◌>>=◌ {ℓ κ} : {A : Type ℓ} {B : Type κ} → M A → (A → M B) → M B
◌>>=◌ m f c = bind_result (m c) f

abbrev pub ◌>>◌ {ℓ} : {B : Type ℓ} → M (Unit {0}) → M B → M B
m >> k = m >>= λ _. k

abbrev pub return {ℓ} : {A : Type ℓ} → A → M A
return a c = ok (a, c)

-- `decode_error`: `longjmp` out of the whole decoding.
abbrev pub decode_error {ℓ} : {A : Type ℓ} → M A
decode_error c = err

abbrev pub undefined {ℓ} : {A : Type ℓ} → M A
undefined c = fault

abbrev pub out_of_fuel {ℓ} : {A : Type ℓ} → M A
out_of_fuel c = stuck

abbrev pub with_input {ℓ} : {A : Type ℓ} → Ctx → Result (A × List ℕ) → Result (A × Ctx)
with_input c (ok (a, rest)) = ok (a, record c { input = rest })
with_input c err = err
with_input c fault = fault
with_input c stuck = stuck

-- `_decode_int_amf3` in its context.
unfoldable pub read_int : M ℤ
read_int c = with_input c (decode_int c.input)

-- `io->read_char`, which answers 0 at the end of the input.
unfoldable pub read_byte : M ℕ
read_byte c = let (b, failed, rest) = read_char c.input in ok (b, record c { input = rest })

-- `idx_map` of rbtlib/amf_common.c on the objects and on the strings.
unfoldable pub idx_map_object : Value → M (Unit {0})
idx_map_object v c = ok (tt, record c { obj_refs = c.obj_refs ++ (v ∷ []) })

unfoldable pub idx_map_string : Value → M (Unit {0})
idx_map_string v c = ok (tt, record c { string_refs = c.string_refs ++ (v ∷ []) })

-- `idx_ret_index`: NULL from the end on. It does not test for a negative index, and reads there.
unfoldable pub idx_ret_index : List Value → ℤ → M (Option Value)
idx_ret_index refs (pos i) c = ok (get_elem? refs i, c)
idx_ret_index refs (negsuc i) c = fault

-- `decode_reference_amf3`
unfoldable pub decode_reference : List Value → ℤ → M (Option Value)
decode_reference refs val = if bit_set 0 val then return none else idx_ret_index refs (asr1 val)

-- `if(ref && !ttisnil(ref))`: what to do with such a reference, and otherwise.
abbrev pub if_found {ℓ} : {A : Type ℓ} → Option Value → (Value → M A) → M A → M A
if_found none use_it other = other
if_found (some v) use_it other = if is_nil v then other else use_it v

-- `rbtS_init_io`: fewer bytes than asked for are an error. A negative length is undefined: the
-- string is then allocated with its size taken as a huge or a too small `size_t`, and written.
unfoldable pub decode_string : ℤ → M (List ℕ)
decode_string (negsuc n) c = fault
decode_string (pos n) c =
    if ltb (length c.input) n then err else ok (take n c.input, record c { input = drop n c.input })

-- `deserialize_string_amf3` after the header. A reference out of range falls through to the code
-- that reads a new string.
unfoldable pub deserialize_string_body : ℤ → M Value
deserialize_string_body header = if int_eq header (pos 1) then return (string []) else (do
  ref ← λ c. decode_reference c.string_refs header c
  if_found ref return
      (do s ← decode_string (asr1 header); idx_map_string (string s); return (string s)))

abbrev pub eof : List ℕ → Bool
eof [] = true
eof (b ∷ rest) = false

-- `deserialize_string_amf3`: at the end of the input the string is empty.
unfoldable pub deserialize_string : M Value
deserialize_string = do
  at_end ← λ c. ok (eof c.input, c)
  if at_end
      then deserialize_string_body (pos 1)
      else (do header ← read_int; deserialize_string_body header)

-- `_decode_double`
unfoldable pub decode_double : Bool → M Double
decode_double big_endian c = go big_endian c.input
  where
    go : Bool → List ℕ → Result (Double × Ctx)
    go true (a ∷ b ∷ d ∷ e ∷ f ∷ g ∷ h ∷ i ∷ rest) =
        ok (bytes8 a b d e f g h i, record c { input = rest })
    go false (a ∷ b ∷ d ∷ e ∷ f ∷ g ∷ h ∷ i ∷ rest) =
        ok (bytes8 i h g f e d b a, record c { input = rest })
    go _ _ = err

-- `rbtH_init`: the address of a new, empty table.
unfoldable pub new_table : M ℕ
new_table c = ok (length c.heap, record c { heap = c.heap ++ ([] ∷ []) })

-- `setvalue(rbtH_set(r, t, key), val)` on the table at an address.
unfoldable pub set_entry : ℕ → Value → Value → M (Unit {0})
set_entry a k v c = elim (get_elem? c.heap a) [
  | none ↦ fault
  | some t ↦ ok (tt, record c { heap = set c.heap a (table_set t k v) })
]

-- `strvalue(&key)` and the length of the string: not defined on another value.
unfoldable pub string_bytes : Value → M (List ℕ)
string_bytes (string s) c = ok (s, c)
string_bytes _ c = fault

-- A local `TValue`: `none` until it is first written. Its use before that is undefined.
unfoldable pub local_value : Option Value → M Value
local_value none c = fault
local_value (some v) c = ok (v, c)

-- The C string in a `TString`: up to the first zero byte. `rbtH_setstr` takes its key so.
unfoldable pub c_string : List ℕ → List ℕ
c_string [] = []
c_string (x ∷ s) = if x == 0 then [] else x ∷ c_string s
