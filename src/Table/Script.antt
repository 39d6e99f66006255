-- ===== src/Table/Script.antt =====
-- The keys of script tables: `hash_object` of rbtlib/table.c and the tests of its lookups, with
-- `rbtO_rawequ` of rbtlib/object.c. A pointer is its address. Keys that are floating point, and booleans,
-- whose hash reads bytes that `setboolvalue` does not write, are left out.
use smart_rabbit_server.Base.{
  ℕ, zero, suc, ◌+◌, ◌-◌, ◌/◌, ◌%◌, ◌^◌, ◌≡◌, refl, ap, Bool, true, false, ◌&&◌, Option, none, some,
  leb, ◌==◌, ==_iff, if◌then◌else◌, arith,
}
use smart_rabbit_server.Base.Int.{ℤ, pos, negsuc}
use smart_rabbit_server.Table.{Keys}

-- `object` has the type and the address of a collected object that is not a string.
pub data Key : Type 0 where
  number : ℤ → Key
  string : ℕ → Key
  pointer : ℕ → Key
  object : ℕ → ℕ → Key

-- The loop of `hash_pointer` over the bytes from the lowest on; a `char` from 0x80 on is negative.
unfoldable pub hash_bytes : ℕ → ℕ → ℕ → ℕ
hash_bytes zero p hash = hash
hash_bytes (suc n) p hash =
    let b = p % 256 in
    hash_bytes n (p / 256) ((hash + b + (if leb 128 b then 2 ^ 32 - 256 else 0)) % 2 ^ 32)

unfoldable pub hash_pointer : ℕ → ℕ
hash_pointer p = hash_bytes 8 p 0

-- `abs`, as an unsigned number.
abbrev pub abs : ℤ → ℕ
abs (pos n) = n
abs (negsuc n) = suc n

-- `hash_object`, given the hash that is stored with the string at an address.
unfoldable pub hash_object : (ℕ → ℕ) → Key → ℕ
hash_object string_hash (number i) = abs i
hash_object string_hash (string p) = string_hash p
hash_object string_hash (pointer p) = hash_pointer p
hash_object string_hash (object tag p) = hash_pointer p

abbrev pub same_int : ℤ → ℤ → Bool
same_int (pos a) (pos b) = a == b
same_int (negsuc a) (negsuc b) = a == b
same_int (pos a) (negsuc b) = false
same_int (negsuc a) (pos b) = false

-- The tests of `getnum` and `getstr`, and `rbtO_rawequ` for the other keys.
unfoldable pub same_key : Key → Key → Bool
same_key (number i) (number j) = same_int i j
same_key (string p) (string q) = p == q
same_key (pointer p) (pointer q) = p == q
same_key (object s p) (object t q) = s == t && p == q
same_key _ _ = false

-- A number that is not negative may be an index into the array part.
unfoldable pub index_key : Key → Option ℕ
index_key (number (pos i)) = some i
index_key _ = none

pub same_key-eq : (j k : Key) → same_key j k ≡ true → j ≡ k
unfolding same_key
same_key-eq (number (pos a)) (number (pos b)) h = ap (λ n. number (pos n)) ((==_iff a b).0 h)
same_key-eq (number (negsuc a)) (number (negsuc b)) h =
    ap (λ n. number (negsuc n)) ((==_iff a b).0 h)
same_key-eq (number (pos a)) (number (negsuc b)) h = absurd (ground arith)
same_key-eq (number (negsuc a)) (number (pos b)) h = absurd (ground arith)
same_key-eq (string p) (string q) h = ap string ((==_iff p q).0 h)
same_key-eq (pointer p) (pointer q) h = ap pointer ((==_iff p q).0 h)
same_key-eq (object s p) (object t q) h = ground arith
same_key-eq (number i) (string q) h = absurd (ground arith)
same_key-eq (number i) (pointer q) h = absurd (ground arith)
same_key-eq (number i) (object t q) h = absurd (ground arith)
same_key-eq (string p) (number j) h = absurd (ground arith)
same_key-eq (string p) (pointer q) h = absurd (ground arith)
same_key-eq (string p) (object t q) h = absurd (ground arith)
same_key-eq (pointer p) (number j) h = absurd (ground arith)
same_key-eq (pointer p) (string q) h = absurd (ground arith)
same_key-eq (pointer p) (object t q) h = absurd (ground arith)
same_key-eq (object s p) (number j) h = absurd (ground arith)
same_key-eq (object s p) (string q) h = absurd (ground arith)
same_key-eq (object s p) (pointer q) h = absurd (ground arith)

pub index_key-number : (i : ℕ) → index_key (number (pos i)) ≡ some i
unfolding index_key
index_key-number i = refl

pub index_key-eq : (k : Key) (i : ℕ) → index_key k ≡ some i → k ≡ number (pos i)
unfolding index_key
index_key-eq (number (pos j)) i h =
    ap (λ o. elim o [ none ↦ number (pos j) | some n ↦ number (pos n) ]) h
index_key-eq (number (negsuc j)) i h = absurd (ground arith)
index_key-eq (string p) i h = absurd (ground arith)
index_key-eq (pointer p) i h = absurd (ground arith)
index_key-eq (object t p) i h = absurd (ground arith)

-- Every key equals itself, so each can be stored and found.
pub same_key_refl : (k : Key) → same_key k k ≡ true
unfolding same_key
same_key_refl (number (pos a)) = (==_iff a a).1 refl
same_key_refl (number (negsuc a)) = (==_iff a a).1 refl
same_key_refl (string p) = (==_iff p p).1 refl
same_key_refl (pointer p) = (==_iff p p).1 refl
same_key_refl (object t p) = ground arith

abbrev pub script_keys : (ℕ → ℕ) → Keys Key
script_keys string_hash = record {
  hash = hash_object string_hash;
  same = same_key;
  same_eq = same_key-eq;
  index = index_key;
  of_index = λ i. number (pos i);
  index_of_index = index_key-number;
  index_eq = index_key-eq;
}
