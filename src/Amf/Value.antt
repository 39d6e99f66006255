-- ===== src/Amf/Value.antt =====
-- Script values as the codec sees them (rbtlib/object.h), the tables that they point to, and the
-- outcome of a C call that may jump out by `longjmp`.
use smart_rabbit_server.Base.{
  ℕ, ◌/◌, ◌%◌, ◌^◌, Bool, true, false, ◌&&◌, List, [], ◌∷◌, ◌==◌, if◌then◌else◌,
}
use smart_rabbit_server.Base.Int.{ℤ, pos, negsuc}

-- The eight bytes of a C `double`, in the order of memory. The codec never computes with them.
pub data Double : Type 0 where
  bytes8 : ℕ → ℕ → ℕ → ℕ → ℕ → ℕ → ℕ → ℕ → Double

-- `TValue`: a string is its bytes, a table is its address in the heap, and `object` is any of the
-- tags that AMF has no form for.
pub data Value : Type 0 where
  nil : Value
  boolean : Bool → Value
  number : ℤ → Value
  float : Double → Value
  date : Double → Value
  string : List ℕ → Value
  table : ℕ → Value
  object : ℕ → Value

-- `ttisnil` and `ttisstr`.
abbrev pub is_nil : Value → Bool
is_nil nil = true
is_nil _ = false

abbrev pub is_string : Value → Bool
is_string (string s) = true
is_string _ = false

-- A table is the list of its entries. The encoder goes through a table in the order of the list, which
-- is any order that `rbtH_next` may have. The decoder only looks up and stores: where `newkey` puts an
-- entry is not modelled, and the order of a table that was stored to means nothing.
abbrev pub Table : Type 0
Table = List (Value × Value)

abbrev pub Heap : Type 0
Heap = List Table

abbrev pub bytes_eq : List ℕ → List ℕ → Bool
bytes_eq [] [] = true
bytes_eq [] (y ∷ ys) = false
bytes_eq (x ∷ xs) [] = false
bytes_eq (x ∷ xs) (y ∷ ys) = x == y && bytes_eq xs ys

abbrev pub int_eq : ℤ → ℤ → Bool
int_eq (pos a) (pos b) = a == b
int_eq (negsuc a) (negsuc b) = a == b
int_eq (pos a) (negsuc b) = false
int_eq (negsuc a) (pos b) = false

-- `getnum` and `getstr` of rbtlib/table.c: equality of the keys that the codec stores.
abbrev pub key_eq : Value → Value → Bool
key_eq (number a) (number b) = int_eq a b
key_eq (string a) (string b) = bytes_eq a b
key_eq _ _ = false

-- `rbtH_get`: nil where there is no such key.
abbrev pub table_get : Table → Value → Value
table_get [] k = nil
table_get ((j, w) ∷ t) k = if key_eq j k then w else table_get t k

-- `setvalue(rbtH_set(r, t, key), val)`: the entry is overwritten, or a new one is made. The table is a
-- finite map here; the place of the new entry among the others is not that of rbtlib/table.c.
unfoldable pub table_set : Table → Value → Value → Table
table_set [] k v = (k, v) ∷ []
table_set ((j, w) ∷ t) k v = if key_eq j k then (j, v) ∷ t else (j, w) ∷ table_set t k v

-- `int` arithmetic on a header: `x >> 1`, and whether bit k of x is set.
abbrev pub asr1 : ℤ → ℤ
asr1 (pos n) = pos (n / 2)
asr1 (negsuc n) = negsuc (n / 2)

abbrev pub bit_set : ℕ → ℤ → Bool
bit_set k (pos n) = n / 2 ^ k % 2 == 1
bit_set k (negsuc n) = n / 2 ^ k % 2 == 0

-- How a decoding call ends: normally; by `longjmp` to `rbtAMF_decode`; in undefined behaviour (an
-- index or a local that C does not define); or, in the model only, with its fuel used up.
pub data Result {ℓ} (A : Type ℓ) : Type ℓ where
  ok : A → Result A
  err : Result A
  fault : Result A
  stuck : Result A
