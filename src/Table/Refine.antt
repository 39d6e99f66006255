-- ===== src/Table/Refine.antt =====
-- rbtlib/table.c: a table is a finite map from keys to values.
use smart_rabbit_server.Base.{
  ℕ, suc, ◌≤◌, ◌≡◌, ◌≢◌, inl, inr, refl, sym, ap, ◌∙◌, true, Option, none, some, Option-cases, List,
  ltb, if◌then◌else◌, get_or, get_or-set_self, get_or-set_ne, set, update, length, length-set,
  length-update, arith,
}
use smart_rabbit_server.Table.{Keys, Table, in_vector, in_node, set_val, get_free_pos}
use smart_rabbit_server.Table.Ops.{write, lookup, store}
use smart_rabbit_server.Table.Chains.{Entry, Holds, index_of, value}
use smart_rabbit_server.Table.Put.{put, put-Holds, index_of-there, value-put}
use smart_rabbit_server.Table.Collide.{newkey_at-Makes}
use smart_rabbit_server.Table.Store.{
  length-entries, keys-missed, vector_index, content, get-in_vector, get-get_node, node_slot,
  get_node-index_of, lookup-content,
}
use smart_rabbit_server.Table.Slots.{
  vector_index-index, set_slot-some, set_slot-new, newkey-some, store-write, get_free_pos-IsFree,
  Linked-Misses,
}

module _ {K V : Type 0} where
  -- The chains of the hash part are whole, and the free position is in the array.
  unfoldable pub IsValid : Keys K → Table K V → Type 0
  IsValid keys t = (es : List (Entry K V)) × Holds keys t.node es × (t.free_pos ≤ length t.node)

  vector_index-length :
      (keys : Keys K) (t t' : Table K V) (k : K)
      → length t'.vector ≡ length t.vector
      → vector_index keys t' k ≡ vector_index keys t k
  vector_index-length keys t t' k q =
      ap
        (λ n. elim (keys.index k) as (λ _. Option ℕ) [
          | none ↦ none
          | some i ↦ if ltb i n then some i else none
        ])
        q

  content-node :
      (keys : Keys K) (t : Table K V) (es : List (Entry K V)) (k : K)
      → vector_index keys t k ≡ none
      → content keys t es k ≡ value keys k es
  content-node keys t es k q =
      ap (λ o. elim o [ none ↦ value keys k es | some i ↦ get_or t.vector i none ]) q

  content-vector :
      (keys : Keys K) (t : Table K V) (es : List (Entry K V)) (k : K) (i : ℕ)
      → vector_index keys t k ≡ some i
      → content keys t es k ≡ get_or t.vector i none
  content-vector keys t es k i q =
      ap (λ o. elim o [ none ↦ value keys k es | some i ↦ get_or t.vector i none ]) q

  -- What a store does: the key has the value, and every other key what it had.
  abbrev Stores : ℕ → Keys K → Table K V → List (Entry K V) → K → Option V → Type 0
  Stores depth keys t es k v =
      (t' : Table K V) × (es' : List (Entry K V)) × (store depth keys t k v ≡ some t')
      × Holds keys t'.node es'
      × (t'.free_pos ≤ length t'.node)
      × (content keys t' es' k ≡ v)
      × ((j : K) → j ≢ k → content keys t' es' j ≡ content keys t es j)

  write-vector :
      (t : Table K V) (i : ℕ) (v : Option V)
      → write t (in_vector i) v ≡ record t { vector = set t.vector i v }
  unfolding write
  write-vector t i v = refl

  write-node :
      (t : Table K V) (i : ℕ) (v : Option V)
      → write t (in_node i) v ≡ record t { node = update t.node i (set_val v) }
  unfolding write
  write-node t i v = refl

  store-in_vector :
      (depth : ℕ) (keys : Keys K) (t : Table K V) (es : List (Entry K V)) (k : K) (v : Option V)
      (i : ℕ)
      → Holds keys t.node es
      → t.free_pos ≤ length t.node
      → vector_index keys t k ≡ some i
      → Stores (suc depth) keys t es k v
  store-in_vector depth keys t es k v i h f q =
      let t' : Table K V = record t { vector = set t.vector i v } in
      let (n, lt) = vector_index-index keys t k i q in
      let same : (j : K) → vector_index keys t' j ≡ vector_index keys t j =
        λ j. vector_index-length keys t t' j (length-set t.vector i v) in
      (
        t',
        es,
        store-write (suc depth) keys t t k (in_vector i) v
              (set_slot-some depth keys t k (in_vector i) (get-in_vector keys t k i q))
            ∙ ap some (write-vector t i v),
        h,
        f,
        content-vector keys t' es k i (same k ∙ q) ∙ get_or-set_self t.vector i v none lt,
        λ j ne. elim (Option-cases (vector_index keys t j)) [
          | inl o ↦ content-node keys t' es j (same j ∙ o) ∙ sym (content-node keys t es j o)
          | inr (l, o) ↦
              let (m, _) = vector_index-index keys t j l o in
              content-vector keys t' es j l (same j ∙ o)
              ∙ get_or-set_ne t.vector i l v none (λ z.
                ne (keys.index_eq j l m ∙ ap keys.of_index (sym z) ∙ sym (keys.index_eq k i n)))
              ∙ sym (content-vector keys t es j l o)
        ],
      )

  store-in_node :
      (depth : ℕ) (keys : Keys K) (t : Table K V) (es : List (Entry K V)) (k : K) (v : Option V)
      (i : ℕ)
      → Holds keys t.node es
      → t.free_pos ≤ length t.node
      → vector_index keys t k ≡ none
      → index_of keys k es ≡ some i
      → Stores (suc depth) keys t es k v
  store-in_node depth keys t es k v i h f q m =
      let t' : Table K V = record t { node = update t.node i (set_val v) } in
      let (a, b) = value-put keys k es i v h.listed m in
      (
        t',
        put i v es,
        store-write (suc depth) keys t t k (in_node i) v (
              set_slot-some depth keys t k (in_node i) (
                get-get_node keys t k q
                ∙ get_node-index_of keys t k es h
                ∙ ap (λ o. some (node_slot o)) m))
            ∙ ap some (write-node t i v),
        put-Holds keys t.node es i v h (index_of-there keys k es i m),
        omega (arith, length-update t.node i (set_val v)),
        content-node keys t' (put i v es) k q ∙ a,
        λ j ne.
            ap
              (λ w. elim (vector_index keys t j) as (λ _. Option V) [
                | none ↦ w
                | some l ↦ get_or t.vector l none
              ])
              (b j ne),
      )

  store-new :
      (depth : ℕ) (keys : Keys K) (t : Table K V) (es : List (Entry K V)) (k : K) (v : Option V)
      (free : ℕ × ℕ)
      → Holds keys t.node es
      → t.free_pos ≤ length t.node
      → keys.same k k ≡ true
      → vector_index keys t k ≡ none
      → index_of keys k es ≡ none
      → get_free_pos t.node t.free_pos ≡ some free
      → Stores (suc depth) keys t es k v
  store-new depth keys t es k v free h f s q m r =
      let (lt, le, (n, g, nk)) = get_free_pos-IsFree t.node t.free_pos free r in
      let long = length-entries keys t.node es h in
      let (slot, ns, es1, e, h1, long1, o, same) =
        newkey_at-Makes keys (suc (length t.node)) t.node es free.0 k h (keys-missed keys k es s m)
          s lt (Linked-Misses t.node es none free.0 n h.linked g nk) (omega arith) in
      let t1 : Table K V = record t { node = ns; free_pos = free.1 } in
      let t' : Table K V = record t1 { node = update ns slot (set_val v) } in
      let (a, b) = value-put keys k es1 slot v h1.listed o in
      (
        t',
        put slot v es1,
        store-write (suc depth) keys t t1 k (in_node slot) v (
              set_slot-new depth keys t k free
                (get-get_node keys t k q
                  ∙ get_node-index_of keys t k es h
                  ∙ ap (λ o. some (node_slot o)) m)
                r
              ∙ newkey-some keys t k free slot ns e)
            ∙ ap some (write-node t1 slot v),
        put-Holds keys ns es1 slot v h1 (index_of-there keys k es1 slot o),
        omega (arith, length-update ns slot (set_val v)),
        content-node keys t' (put slot v es1) k q ∙ a,
        λ j ne.
            ap
              (λ w. elim (vector_index keys t j) as (λ _. Option V) [
                | none ↦ w
                | some l ↦ get_or t.vector l none
              ])
              (b j ne ∙ same j),
      )

  store-Stores :
      (depth : ℕ) (keys : Keys K) (t : Table K V) (es : List (Entry K V)) (k : K) (v : Option V)
      (free : ℕ × ℕ)
      → Holds keys t.node es
      → t.free_pos ≤ length t.node
      → keys.same k k ≡ true
      → get_free_pos t.node t.free_pos ≡ some free
      → Stores (suc depth) keys t es k v
  store-Stores depth keys t es k v free h f s r = elim (Option-cases (vector_index keys t k)) [
    | inr (i, q) ↦ store-in_vector depth keys t es k v i h f q
    | inl q ↦ elim (Option-cases (index_of keys k es)) [
      | inr (i, m) ↦ store-in_node depth keys t es k v i h f q m
      | inl m ↦ store-new depth keys t es k v free h f s q m r
    ]
  ]

  -- In a valid table with a free node, storing a value under a key that equals itself returns a valid
  -- table in which `rbtH_get` finds that value under the key, and under every other key what it found
  -- before. The value may be nil, which removes the key.
  pub store-lookup :
      (depth : ℕ) (keys : Keys K) (t : Table K V) (k : K) (v : Option V) (free : ℕ × ℕ)
      → IsValid keys t
      → keys.same k k ≡ true
      → get_free_pos t.node t.free_pos ≡ some free
      → (t' : Table K V) × (store (suc depth) keys t k v ≡ some t')
        × IsValid keys t'
        × (lookup keys t' k ≡ some v)
        × ((j : K) → j ≢ k → lookup keys t' j ≡ lookup keys t j)
  unfolding IsValid
  store-lookup depth keys t k v free (es, h, f) s r =
      let (t', es', e, h', f', a, b) = store-Stores depth keys t es k v free h f s r in
      (
        t',
        e,
        (es', h', f'),
        lookup-content keys t' es' k h' ∙ ap some a,
        λ j ne.
            lookup-content keys t' es' j h' ∙ ap some (b j ne) ∙ sym (lookup-content keys t es j h),
      )
