-- ===== src/Table/Scan.antt =====
-- The operations of rbtlib/table.c that go through a whole table.
use smart_rabbit_server.Base.{
  ℕ, zero, suc, ◌+◌, ◌-◌, Bool, true, false, ◌&&◌, Option, none, some, List, [], ◌∷◌, ◌++◌,
  if◌then◌else◌, drop, max, length, map,
}
use smart_rabbit_server.Table.{Keys, Node, Table, empty_node}
use smart_rabbit_server.Table.Ops.{get, read, write}

module _ {V : Type 0} where
  -- The first nil of the array part, from index `i` on.
  abbrev pub first_nil : ℕ → List (Option V) → Option ℕ
  first_nil i [] = none
  first_nil i (none ∷ vs) = some i
  first_nil i (some v ∷ vs) = first_nil (suc i) vs

  abbrev pub is_some : Option V → Bool
  is_some none = false
  is_some (some v) = true

  abbrev pub count_some : List (Option V) → ℕ
  count_some [] = 0
  count_some (v ∷ vs) = let rest = count_some vs in if is_some v then suc rest else rest

  abbrev pub no_some : List (Option V) → Bool
  no_some [] = true
  no_some (v ∷ vs) = let rest = no_some vs in if is_some v then false else rest

module _ {K V : Type 0} where
  abbrev pub vals_of : List (Node K V) → List (Option V)
  vals_of [] = []
  vals_of (n ∷ ns) = n.val ∷ vals_of ns

  -- `rbtH_count`, `rbtH_countnum` and `rbtH_empty`
  unfoldable pub count : Table K V → ℕ
  count t = count_some t.vector + count_some (vals_of t.node)

  unfoldable pub countnum : Table K V → ℕ
  countnum t = count_some t.vector

  unfoldable pub empty : Table K V → Bool
  empty t = no_some t.vector && no_some (vals_of t.node)

  -- `rbtH_clean`
  unfoldable pub clean : Table K V → Table K V
  clean t = record {
    vector = map (λ _. none) t.vector;
    node = map (λ _. empty_node) t.node;
    free_pos = length t.node;
  }

  -- The two loops of `rbtH_next`.
  abbrev pub next_vector : Keys K → ℕ → List (Option V) → Option (ℕ × Option K × V)
  next_vector keys i [] = none
  next_vector keys i (none ∷ vs) = next_vector keys (suc i) vs
  next_vector keys i (some v ∷ vs) = some (i, some (keys.of_index i), v)

  abbrev pub next_node : ℕ → List (Node K V) → Option (ℕ × Option K × V)
  next_node i [] = none
  next_node i (n ∷ ns) =
      let rest = next_node (suc i) ns in elim n.val [ none ↦ rest | some v ↦ some (i, n.key, v) ]

  -- `rbtH_next` of `idx`, given `idx` + 1, which is 0 for every negative `idx`; `none` is the answer -1.
  unfoldable pub next : Keys K → Table K V → ℕ → Option (ℕ × Option K × V)
  next keys t start = elim (next_vector keys start (drop start t.vector)) [
    | some r ↦ some r
    | none ↦ next_node (max start (length t.vector)) (drop (start - length t.vector) t.node)
  ]

  -- `rbtH_rmnum` and `rbtH_setnextnum`
  unfoldable pub rmnum : Keys K → Table K V → ℕ → Option (Table K V)
  rmnum keys t i = elim (get keys t (keys.of_index i)) [
    | none ↦ none
    | some o ↦ elim o [
      | none ↦ some t
      | some s ↦ elim (read t s) [ none ↦ some t | some v ↦ some (write t s none) ]
    ]
  ]

  unfoldable pub setnextnum : Keys K → Table K V → Option (ℕ × Table K V)
  setnextnum keys t = elim (first_nil 0 t.vector) [
    | some i ↦ some (i, t)
    | none ↦
        let n = length t.vector in
        elim (rmnum keys (record t { vector = t.vector ++ (none ∷ none ∷ []) }) n) [
          | none ↦ none
          | some t' ↦ some (n, t')
        ]
  ]

  -- The caller's loop: `idx = -1; while((idx = rbtH_next(...)) >= 0)`.
  abbrev pub iterate : ℕ → Keys K → Table K V → ℕ → Option (List (Option K × V))
  iterate zero keys t start = none
  iterate (suc fuel) keys t start = elim (next keys t start) [
    | none ↦ some []
    | some r ↦ elim (iterate fuel keys t (r.0 + 1)) [
      | none ↦ none
      | some rest ↦ some ((r.1, r.2) ∷ rest)
    ]
  ]

  -- All that a table holds: the array part from an index on, and the nodes.
  abbrev pub live_vector : Keys K → ℕ → List (Option V) → List (Option K × V)
  live_vector keys i [] = []
  live_vector keys i (none ∷ vs) = live_vector keys (suc i) vs
  live_vector keys i (some v ∷ vs) = (some (keys.of_index i), v) ∷ live_vector keys (suc i) vs

  abbrev pub live_node : List (Node K V) → List (Option K × V)
  live_node [] = []
  live_node (n ∷ ns) =
      let rest = live_node ns in elim n.val [ none ↦ rest | some v ↦ (n.key, v) ∷ rest ]

  unfoldable pub live : Keys K → Table K V → List (Option K × V)
  live keys t = live_vector keys 0 t.vector ++ live_node t.node
