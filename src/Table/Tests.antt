-- ===== src/Table/Tests.antt =====
-- rbtlib/table.c with keys that are numbers.
use smart_rabbit_server.Base.{ℕ, ◌≡◌, ◌≢◌, refl, ap, none, some, [], ◌∷◌, ◌==◌, ==_iff, length}
use smart_rabbit_server.Table.{Keys, Table, find, get_free_pos}
use smart_rabbit_server.Table.Ops.{init, get_node, get, read, lookup, store}
use smart_rabbit_server.Table.Refine.{IsValid, store-lookup}
use smart_rabbit_server.Table.Init.{init-IsValid, clean-IsValid}
use smart_rabbit_server.Table.Script.{Key, string, script_keys, same_key_refl}
use smart_rabbit_server.Table.Scan.{clean, count, setnextnum, iterate, live}
use smart_rabbit_server.Table.Visit.{iterate-live}
use smart_rabbit_server.Table.Nextnum.{setnextnum-hides}

abbrev number_keys : Keys ℕ
number_keys = record {
  hash = λ k. k;
  same = λ j k. j == k;
  same_eq = λ j k h. (==_iff j k).0 h;
  index = λ k. some k;
  of_index = λ i. i;
  index_of_index = λ i. refl;
  index_eq = λ k i h. ap (λ o. elim o [ none ↦ k | some j ↦ j ]) h;
}

-- One element for small numbers and four nodes.
abbrev small : Table ℕ ℕ
small = init 1 4

small-free : get_free_pos small.node small.free_pos ≡ some (3, 4)
unfolding init get_free_pos
small-free = refl

store-lookup_example :
    (t : Table ℕ ℕ) × (store 1 number_keys small 6 (some 60) ≡ some t)
    × IsValid number_keys t
    × (lookup number_keys t 6 ≡ some (some 60))
    × ((j : ℕ) → j ≢ 6 → lookup number_keys t j ≡ lookup number_keys small j)
store-lookup_example =
    store-lookup 0 number_keys small 6 (some 60) (3, 4) (init-IsValid ℕ number_keys 1 4).0 refl
      small-free

-- Both small numbers are in the array part and 3 is in the hash part.
abbrev filled : Table ℕ ℕ
filled = record {
  vector = some 50 ∷ some 51 ∷ [];
  node =
      record { key = none; val = none; next = none }
      ∷ record { key = some 3; val = some 53; next = none }
      ∷ [];
  free_pos = 2;
}

filled-live : live number_keys filled ≡ (some 0, 50) ∷ (some 1, 51) ∷ (some 3, 53) ∷ []
unfolding live
filled-live = refl

iterate-live_example :
    (iterate 5 number_keys filled 0 ≡ some (live number_keys filled))
    × (count filled ≡ length (live number_keys filled))
iterate-live_example = iterate-live number_keys filled

filled-lookup : lookup number_keys filled 3 ≡ some (some 53)
unfolding lookup get get_node find read
filled-lookup = refl

-- The value under 3 is gone.
setnextnum-hides_example :
    (t' : Table ℕ ℕ) × (setnextnum number_keys filled ≡ some (2, t'))
    × (t'.node ≡ filled.node)
    × (count t' ≡ count filled)
    × (lookup number_keys t' 2 ≡ some none)
    × (lookup number_keys t' 3 ≡ some none)
setnextnum-hides_example = setnextnum-hides number_keys filled refl

-- A key of a script, and a table with such keys.
abbrev hash_zero : ℕ → ℕ
hash_zero p = 0

script-slot :
    get_free_pos (init {K = Key} {V = ℕ} 1 2).node (init {K = Key} {V = ℕ} 1 2).free_pos
    ≡ some (1, 2)
unfolding init get_free_pos
script-slot = refl

script-stored :
    (t : Table Key ℕ) × (store 1 (script_keys hash_zero) (init 1 2) (string 7) (some 70) ≡ some t)
    × (lookup (script_keys hash_zero) t (string 7) ≡ some (some 70))
script-stored =
    let (t, e, v, l, o) =
      store-lookup 0 (script_keys hash_zero) (init 1 2) (string 7) (some 70) (1, 2)
        (init-IsValid ℕ (script_keys hash_zero) 1 2).0 (same_key_refl (string 7)) script-slot in
    (t, e, l)

-- A table with a value, cleaned.
stored : (t : Table ℕ ℕ) × (store 1 number_keys small 6 (some 60) ≡ some t) × IsValid number_keys t
stored =
    let (t, e, v, l, o) =
      store-lookup 0 number_keys small 6 (some 60) (3, 4) (init-IsValid ℕ number_keys 1 4).0 refl
        small-free in
    (t, e, v)

clean-IsValid_example :
    IsValid number_keys (clean stored.0)
    × ((k : ℕ) → lookup number_keys (clean stored.0) k ≡ some none)
clean-IsValid_example = clean-IsValid ℕ number_keys stored.0 stored.2
