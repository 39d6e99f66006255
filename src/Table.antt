-- ===== src/Table.antt =====
-- rbtlib/table.c: the tables of scripts, an array part for small indices and a hash part whose nodes are
-- chained inside one array, with a free position that moves down.
pub mod Chains
pub mod Find
pub mod Frames
pub mod Before
pub mod Grow
pub mod Link
pub mod Move
pub mod Values
pub mod Newkey
pub mod Collide
pub mod Ops
pub mod Put
pub mod Store
pub mod Slots
pub mod Refine
pub mod Init
pub mod Script
pub mod Scan
pub mod Visit
pub mod Nextnum
mod Tests
use smart_rabbit_server.Base.{
  ℕ, zero, suc, ◌%◌, ◌≡◌, Bool, true, false, Option, none, some, List, [], ◌∷◌, ◌==◌, if◌then◌else◌,
  get_elem?, length, update,
}

-- What the hash part needs of keys: `hash_object`, and the test by which `getstr`, `getnum` and `get` know
-- a key, which holds of equal keys only. Keys are the values but nil.
pub record Keys (K : Type 0) : Type 0 where
  pub hash : K → ℕ
  pub same : K → K → Bool
  pub same_eq : (j k : K) → same j k ≡ true → j ≡ k
  -- The index in the array part of a number that is not negative. `rbtH_set` and `get` treat a float that
  -- is a whole number as that number, so such a float is not a key of its own here.
  pub index : K → Option ℕ
  pub of_index : ℕ → K
  pub index_of_index : (i : ℕ) → index (of_index i) ≡ some i
  pub index_eq : (k : K) (i : ℕ) → index k ≡ some i → k ≡ of_index i

-- `struct Node`; nil and `NULL` are `none`.
pub record Node (K V : Type 0) : Type 0 where
  pub key : Option K
  pub val : Option V
  pub next : Option ℕ

-- `struct Table`, less the collector's part; `free_pos` is `last_free_pos` + 1.
pub record Table (K V : Type 0) : Type 0 where
  pub vector : List (Option V)
  pub node : List (Node K V)
  pub free_pos : ℕ

-- The place in a table that `rbtH_set` returns a pointer to.
pub data Slot : Type 0 where
  in_vector : ℕ → Slot
  in_node : ℕ → Slot

module _ {K : Type 0} where
  -- `mainposition` of a key, and of the key in a node: `hash_object` of nil is 0.
  abbrev pub main_position : Keys K → ℕ → K → ℕ
  main_position keys size k = keys.hash k % size

  abbrev pub main_of : Keys K → ℕ → Option K → ℕ
  main_of keys size none = 0 % size
  main_of keys size (some k) = main_position keys size k

  abbrev pub key_is : Keys K → K → Option K → Bool
  key_is keys k none = false
  key_is keys k (some j) = keys.same j k

module _ {K V : Type 0} where
  -- A node after `table_init`.
  abbrev pub empty_node : Node K V
  empty_node = record { key = none; val = none; next = none }

  abbrev pub set_next : Option ℕ → Node K V → Node K V
  set_next o n = record n { next = o }

  abbrev pub set_val : Option V → Node K V → Node K V
  set_val v n = record n { val = v }

  -- `setnilvalue(gval(mp)); setvalue(gkey(mp), key)`
  abbrev pub set_key : K → Node K V → Node K V
  set_key k n = record n { key = some k; val = none }

  -- The loop of `getstr`, `getnum` and `get`: the node with the key, or `none` for `NULL`.
  unfoldable pub find : Keys K → ℕ → List (Node K V) → Option ℕ → K → Option (Option ℕ)
  find keys fuel ns none k = some none
  find keys zero ns (some i) k = none
  find keys (suc fuel) ns (some i) k = elim (get_elem? ns i) [
    | none ↦ none
    | some n ↦
        let on = find keys fuel ns n.next k in if key_is keys k n.key then some (some i) else on
  ]

  -- `get_free_pos`, with `last_free_pos` + 1: the free node, and the new position.
  unfoldable pub get_free_pos : List (Node K V) → ℕ → Option (ℕ × ℕ)
  get_free_pos ns zero = none
  get_free_pos ns (suc p) =
      let on = get_free_pos ns p in
      elim (get_elem? ns p) [
        | none ↦ none
        | some n ↦ elim n.val [
          | none ↦ elim n.key [ none ↦ some (p, suc p) | some k ↦ on ]
          | some v ↦ on
        ]
      ]

  -- The loop of `newkey` that finds the node before `mp`.
  unfoldable pub find_before : ℕ → List (Node K V) → ℕ → ℕ → Option ℕ
  find_before zero ns i mp = none
  find_before (suc fuel) ns i mp = elim (get_elem? ns i) [
    | none ↦ none
    | some n ↦ elim n.next [
      | none ↦ some i
      | some j ↦ let on = find_before fuel ns j mp in if j == mp then some i else on
    ]
  ]

  -- `newkey` where `mp` is in use by a key of another main position: that key moves to `fn`.
  unfoldable pub displace :
      ℕ → List (Node K V) → ℕ → ℕ → ℕ → Node K V → K → Option (ℕ × List (Node K V))
  displace fuel ns fn mp other n k =
      let moved = update ns fn (λ _. n) in
      elim (find_before fuel moved other mp) [
        | none ↦ none
        | some p ↦ some (
          mp,
          update (update (update moved p (set_next (some fn))) mp (set_next none)) mp (set_key k),
        )
      ]

  -- `newkey` once it has the free node `fn`: the node for the key, and the nodes.
  unfoldable pub newkey_at : Keys K → ℕ → List (Node K V) → ℕ → K → Option (ℕ × List (Node K V))
  newkey_at keys fuel ns fn k =
      let mp = main_position keys (length ns) k in
      elim (get_elem? ns mp) [
        | none ↦ none
        | some n ↦
            let other = main_of keys (length ns) n.key in
            let far = displace fuel ns fn mp other n k in
            let near = some (
              fn,
              update (update (update ns fn (set_next n.next)) mp (set_next (some fn))) fn
                  (set_key k),
            ) in
            elim n.val [
              | none ↦ some (mp, update ns mp (set_key k))
              | some v ↦ if other == mp then near else far
            ]
      ]
