-- ===== src/Table/Ops.antt =====
-- The operations of rbtlib/table.c on both parts of a table, growth included.
use smart_rabbit_server.Base.{
  ℕ, zero, suc, ◌+◌, ◌-◌, ◌*◌, ◌/◌, ◌^◌, Option, none, some, List, [], ◌∷◌, ltb, leb, ◌==◌,
  if◌then◌else◌, get_elem?, get_or, take, set, update, length, replicate,
}
use smart_rabbit_server.Table.{
  Keys, Node, Table, Slot, in_vector, in_node, empty_node, set_val, main_position, find,
  get_free_pos, newkey_at,
}

-- `rbtM_log2` of rbtlib/math.c, plus 1: the number of binary digits.
unfoldable pub digits : ℕ → ℕ → ℕ
digits zero n = 0
digits (suc fuel) n = let rest = digits fuel (n / 2) in if n == 0 then 0 else suc rest

-- `caculnum`: a number of more than 31 digits is not counted.
unfoldable pub count_digits : List ℕ → ℕ → List ℕ
count_digits num i = let p = digits 32 i in if leb p 31 then update num p suc else num

-- The loop of `compute_size` from bucket `i` on, with `n` numbers below: `p` and `c` when it ends.
unfoldable pub choose : List ℕ → ℕ → ℕ → ℕ → ℕ → ℕ × ℕ
choose [] i n p c = (p, c)
choose (m ∷ num) i n p c =
    let here = leb (2 ^ i / 2) (n + m) in
    choose num (suc i) (n + m) (if here then i else p) (if here then n + m else c)

-- What the second loop of `collect_info` does with a key.
abbrev pub count_key : {K : Type 0} → Keys K → Option K → List ℕ → List ℕ
count_key keys none num = num
count_key keys (some k) num = elim (keys.index k) [ none ↦ num | some i ↦ count_digits num i ]

module _ {V : Type 0} where
  -- `vector_init`
  abbrev pub vector_init : ℕ → List (Option V)
  vector_init n = replicate (if n == 0 then 1 else n) none

  -- The first loop of `collect_info`: the number of values, and the numbers among their keys by their digits.
  unfoldable pub collect_vector : ℕ → List (Option V) → ℕ × List ℕ → ℕ × List ℕ
  collect_vector i [] acc = acc
  collect_vector i (none ∷ vs) acc = collect_vector (suc i) vs acc
  collect_vector i (some v ∷ vs) acc = collect_vector (suc i) vs (acc.0 + 1, count_digits acc.1 i)

module _ {K V : Type 0} where
  -- `table_init`
  abbrev pub table_init : ℕ → List (Node K V)
  table_init n = replicate (if n == 0 then 1 else n) empty_node

  -- `rbtH_init`
  unfoldable pub init : ℕ → ℕ → Table K V
  init vsize tsize = record {
    vector = vector_init vsize;
    node = table_init tsize;
    free_pos = length (table_init tsize);
  }

  -- `get` of a key in the hash part.
  unfoldable pub get_node : Keys K → Table K V → K → Option (Option Slot)
  get_node keys t k =
      elim (find keys (suc (length t.node)) t.node (some (main_position keys (length t.node) k))
        k) [ none ↦ none | some o ↦ some (elim o [ none ↦ none | some i ↦ some (in_node i) ]) ]

  -- `getnum` and `get`
  unfoldable pub get : Keys K → Table K V → K → Option (Option Slot)
  get keys t k =
      let node = get_node keys t k in
      elim (keys.index k) [
        | none ↦ node
        | some i ↦ if ltb i (length t.vector) then some (some (in_vector i)) else node
      ]

  -- Reading and writing through the pointer.
  unfoldable pub read : Table K V → Slot → Option V
  read t (in_vector i) = get_or t.vector i none
  read t (in_node i) = elim (get_elem? t.node i) [ none ↦ none | some n ↦ n.val ]

  unfoldable pub write : Table K V → Slot → Option V → Table K V
  write t (in_vector i) v = record t { vector = set t.vector i v }
  write t (in_node i) v = record t { node = update t.node i (set_val v) }

  -- `rbtH_get`; nil is `none` inside.
  unfoldable pub lookup : Keys K → Table K V → K → Option (Option V)
  lookup keys t k = elim (get keys t k) [
    | none ↦ none
    | some o ↦ some (elim o [ none ↦ none | some s ↦ read t s ])
  ]

  -- The second loop of `collect_info`.
  abbrev pub count_node : Keys K → Node K V → ℕ × List ℕ → ℕ × List ℕ
  count_node keys n acc = elim n.val [
    | none ↦ acc
    | some v ↦ (acc.0 + 1, count_key keys n.key acc.1)
  ]

  unfoldable pub collect_node : Keys K → List (Node K V) → ℕ × List ℕ → ℕ × List ℕ
  collect_node keys [] acc = acc
  collect_node keys (n ∷ ns) acc = collect_node keys ns (count_node keys n acc)

  -- `compute_size`: the number of values, that of the numbers for the array part, and the array's size.
  unfoldable pub compute_size : Keys K → Table K V → ℕ × ℕ × ℕ
  compute_size keys t =
      let info = collect_node keys t.node (collect_vector 0 t.vector (0, replicate 32 0)) in
      let best = choose (take 31 info.1) 0 0 0 0 in (info.0, best.1, 2 ^ best.0)

  -- The loops of `resize` that put the old values into the new table.
  abbrev pub refill_vector :
      (Table K V → K → Option V → Option (Table K V))
      → Keys K
      → ℕ
      → List (Option V)
      → Table K V
      → Option (Table K V)
  refill_vector store keys i [] t = some t
  refill_vector store keys i (none ∷ vs) t = refill_vector store keys (suc i) vs t
  refill_vector store keys i (some v ∷ vs) t = elim (store t (keys.of_index i) (some v)) [
    | none ↦ none
    | some t' ↦ refill_vector store keys (suc i) vs t'
  ]

  -- `setvalue(rbtH_set(r, t, gkey(n)), gval(n))` for every value that is not nil; a value under nil is none of
  -- a table's own.
  abbrev pub refill_node :
      (Table K V → K → Option V → Option (Table K V))
      → List (Node K V)
      → Table K V
      → Option (Table K V)
  refill_node store [] t = some t
  refill_node store (n ∷ ns) t = elim n.val [
    | none ↦ refill_node store ns t
    | some v ↦ elim n.key [
      | none ↦ none
      | some k ↦ elim (store t k (some v)) [ none ↦ none | some t' ↦ refill_node store ns t' ]
    ]
  ]

  -- `resize`, given how a value is stored.
  unfoldable pub resize :
      (Table K V → K → Option V → Option (Table K V)) → Keys K → Table K V → Option (Table K V)
  resize store keys t =
      let size = compute_size keys t in
      let new = init size.2 ((size.0 - size.1 + 1) * 2) in
      elim (refill_vector store keys 0 t.vector new) [
        | none ↦ none
        | some t' ↦ refill_node store t.node t'
      ]

  -- `setvalue` to what `rbtH_set` returns.
  abbrev pub then_write : Option (Slot × Table K V) → Option V → Option (Table K V)
  then_write none v = none
  then_write (some r) v = some (write r.1 r.0 v)

  -- `newkey` once `get_free_pos` has answered.
  unfoldable pub newkey : Keys K → Table K V → K → ℕ × ℕ → Option (Slot × Table K V)
  newkey keys t k free = elim (newkey_at keys (suc (length t.node)) t.node free.0 k) [
    | none ↦ none
    | some r ↦ some (in_node r.0, record t { node = r.1; free_pos = free.1 })
  ]

  -- `rbtH_set` and `newkey`; the depth counts the calls that grow the table.
  unfoldable pub set_slot : ℕ → Keys K → Table K V → K → Option (Slot × Table K V)
  set_slot zero keys t k = none
  set_slot (suc depth) keys t k =
      let grown = resize (λ u j v. then_write (set_slot depth keys u j) v) keys t in
      elim (get keys t k) [
        | none ↦ none
        | some o ↦ elim o [
          | some s ↦ some (s, t)
          | none ↦ elim (get_free_pos t.node t.free_pos) [
            | none ↦ elim grown [ none ↦ none | some t' ↦ set_slot depth keys t' k ]
            | some free ↦ newkey keys t k free
          ]
        ]
      ]

  -- `setvalue(rbtH_set(r, t, key), val)`
  unfoldable pub store : ℕ → Keys K → Table K V → K → Option V → Option (Table K V)
  store depth keys t k v = then_write (set_slot depth keys t k) v
