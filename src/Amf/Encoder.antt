-- ===== src/Amf/Encoder.antt =====
-- rbtlib/encoder.c: a value as AMF3 bytes. The `i_io` is the list of the bytes that reach it, and
-- its writes succeed; each function returns the bytes that it writes beside the C return value.
pub mod Forms
pub mod Wire
use smart_rabbit_server.Base.{
  ℕ, zero, suc, ◌*◌, ◌+◌, Bool, true, false, Option, none, some, List, [], ◌∷◌, ◌++◌, ltb, ◌==◌,
  ◌&&◌, if◌then◌else◌, length, get_elem?,
}
use smart_rabbit_server.Base.Int.{ℤ, pos, negsuc, ltb_ℤ}
use smart_rabbit_server.Amf.Value.{
  Double, bytes8, Value, nil, boolean, number, float, date, string, table, object, Table, Heap,
  bytes_eq, is_nil,
}
use smart_rabbit_server.Amf.Ints.{Out, encode_int}

-- What the code takes from the machine and from libc: the order of bytes (`is_bigendian`), the
-- cast `(double)n`, `utos` on a number key and `snprintf("%f")` in `ftos`.
pub record Platform : Type 0 where
  pub big_endian : Bool
  pub to_double : ℤ → Double
  pub utos : ℤ → List ℕ
  pub ftos : Double → List ℕ

abbrev pub undefined_type : ℕ
undefined_type = 0x00

abbrev pub null_type : ℕ
null_type = 0x01

abbrev pub false_type : ℕ
false_type = 0x02

abbrev pub true_type : ℕ
true_type = 0x03

abbrev pub int_type : ℕ
int_type = 0x04

abbrev pub double_type : ℕ
double_type = 0x05

abbrev pub string_type : ℕ
string_type = 0x06

abbrev pub date_type : ℕ
date_type = 0x08

abbrev pub array_type : ℕ
array_type = 0x09

abbrev pub object_type : ℕ
object_type = 0x0a

abbrev pub empty_string_type : ℕ
empty_string_type = 0x01

-- `MIN_INT` and `MAX_INT`: the integers strictly between go out as AMF3 integers.
abbrev pub min_int : ℤ
min_int = negsuc 268435456

abbrev pub max_int : ℤ
max_int = pos 268435456

-- `_encode_double`: the most significant byte goes first.
unfoldable pub encode_double : Bool → Double → Out
encode_double true (bytes8 a b c d e f g h) = (a ∷ b ∷ c ∷ d ∷ e ∷ f ∷ g ∷ h ∷ [], 8)
encode_double false (bytes8 a b c d e f g h) = (h ∷ g ∷ f ∷ e ∷ d ∷ c ∷ b ∷ a ∷ [], 8)

-- `encode_bool_amf3`; `write_char` returns 0.
unfoldable pub encode_bool : Bool → Out
encode_bool true = (true_type ∷ [], 0)
encode_bool false = (false_type ∷ [], 0)

-- `encode_string`: twice the length with the reference bit, then the bytes. `write_len` returns
-- their number.
unfoldable pub encode_string : List ℕ → Out
encode_string s = ((encode_int (pos (length s * 2 + 1))).0 ++ s, length s)

-- `serialize_string_amf3`
unfoldable pub serialize_string : List ℕ → Out
serialize_string s = if length s == 0 then (empty_string_type ∷ [], 0) else encode_string s

-- The key that `encode_object` compares with, "Root".
abbrev pub root : List ℕ
root = b'R' ∷ b'o' ∷ b'o' ∷ b't' ∷ []

-- What `encode_object` calls a key: `none` where the entry is passed over.
unfoldable pub key_name : Platform → Value → Option (List ℕ)
key_name p (string []) = none
key_name p (string (c ∷ s)) = if bytes_eq (c ∷ s) root then none else some (c ∷ s)
key_name p (number n) = some (p.utos n)
key_name p (float d) = some (p.ftos d)
key_name p nil = none
key_name p (boolean b) = none
key_name p (date d) = none
key_name p (table a) = none
key_name p (object a) = none

-- Bytes then a further call that may run out of fuel.
abbrev pub then_write : List ℕ → Option (List ℕ) → Option (List ℕ)
then_write xs none = none
then_write xs (some ys) = some (xs ++ ys)

abbrev pub both_written : Option Out → Option (List ℕ) → Option (List ℕ)
both_written none ys = none
both_written (some (xs, ret)) none = none
both_written (some (xs, ret)) (some ys) = some (xs ++ ys)

module _ (p : Platform) where
  -- `write_int_amf3`
  unfoldable pub write_int : ℤ → Out
  write_int n =
      if ltb_ℤ n max_int && ltb_ℤ min_int n
      then (int_type ∷ (encode_int n).0, (encode_int n).1)
      else (double_type ∷ (encode_double p.big_endian (p.to_double n)).0, 8)

  -- The loop of `encode_object` over the entries of the table; `rbtH_next` skips an entry whose
  -- value is nil. `enc` is `encode_amf3` on the values.
  unfoldable pub encode_entries : (Value → Option Out) → Table → Option (List ℕ)
  encode_entries enc [] = some []
  encode_entries enc ((k, v) ∷ t) =
      let rest = encode_entries enc t in
      if is_nil v then rest else elim (key_name p k) [
        | none ↦ rest
        | some s ↦ then_write (encode_string s).0 (both_written (enc v) rest)
      ]

  -- `encode_object`: the traits 0xb (inline, dynamic, nothing sealed), an empty class name, the
  -- entries, and an empty name at the end.
  unfoldable pub encode_object : (Value → Option Out) → Table → Option Out
  encode_object enc t = elim (encode_entries enc t) [
    | none ↦ none
    | some body ↦ some (
      object_type
          ∷ ((encode_int (pos 0xb)).0
              ++ ((encode_string []).0 ++ (body ++ (empty_string_type ∷ [])))),
      1,
    )
  ]

  -- The table at an address. An address outside the heap stands for NULL, for which the code makes
  -- an empty table.
  abbrev pub encode_table : (Value → Option Out) → Option Table → Option Out
  encode_table enc none = encode_object enc []
  encode_table enc (some t) = encode_object enc t

  -- `encode_amf3`. The recursion follows table pointers, so it has fuel: on a cycle of tables the
  -- C code does not return either.
  unfoldable pub encode_amf3 : ℕ → Heap → Value → Option Out
  encode_amf3 zero heap v = none
  encode_amf3 (suc fuel) heap nil = some (null_type ∷ [], 0)
  encode_amf3 (suc fuel) heap (boolean b) = some (encode_bool b)
  encode_amf3 (suc fuel) heap (number n) = some (write_int n)
  encode_amf3 (suc fuel) heap (float d) = some (double_type ∷ (encode_double p.big_endian d).0, 8)
  encode_amf3 (suc fuel) heap (string s) =
      some (string_type ∷ (serialize_string s).0, (serialize_string s).1)
  encode_amf3 (suc fuel) heap (table a) = encode_table (encode_amf3 fuel heap) (get_elem? heap a)
  encode_amf3 (suc fuel) heap (date d) = some (undefined_type ∷ [], 0)
  encode_amf3 (suc fuel) heap (object a) = some (undefined_type ∷ [], 0)
