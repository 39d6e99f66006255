-- ===== src/Table/Store.antt =====
-- `rbtH_get` and `rbtH_set` of rbtlib/table.c: what is stored is found, and nothing else changes.
use smart_rabbit_server.Base.{
  ℕ, suc, ◌≤◌, ◌≡◌, inl, inr, refl, sym, ap, ◌∙◌, subst, true, false, Bool-cases, Option, none,
  some, Option-cases, List, [], ◌∷◌, ltb, if◌then◌else◌, get_elem?, get_elem?-lt, get_or, length,
  arith,
}
use smart_rabbit_server.Base.Distinct.{Misses, Below, Distinct-length}
use smart_rabbit_server.Table.{Keys, Node, Table, Slot, in_vector, in_node}
use smart_rabbit_server.Table.Ops.{get_node, get, read, lookup}
use smart_rabbit_server.Table.Chains.{
  Entry, indices, keys_of, head_or, link_of, node_of, Linked, Holds, index_of, value,
}
use smart_rabbit_server.Table.Find.{find-index_of, index_of-hit, index_of-miss}
use smart_rabbit_server.Table.Values.{value-hit, value-miss}
use smart_rabbit_server.Table.Put.{some-inj}

pub some-none : {A : Type 0} {a : A} → some a ≡ none → ⊥
some-none q = ground arith

true-false : true ≡ false → ⊥
true-false q = ground arith

abbrev pub node_slot : Option ℕ → Option Slot
node_slot o = elim o [ none ↦ none | some i ↦ some (in_node i) ]

module _ {K V : Type 0} where
  Linked-Below :
      (ns : List (Node K V)) (es : List (Entry K V)) (after : Option ℕ)
      → Linked ns es after
      → Below (length ns) (indices es)
  Linked-Below ns [] after l = tt
  Linked-Below ns (e ∷ es) after (g, l) = (
    get_elem?-lt ns e.at (node_of e (link_of e (head_or es after))) g,
    Linked-Below ns es after l,
  )

  length-indices : (es : List (Entry K V)) → length (indices es) ≡ length es
  length-indices [] = refl
  length-indices (e ∷ es) = ap suc (length-indices es)

  pub length-entries :
      (keys : Keys K) (ns : List (Node K V)) (es : List (Entry K V))
      → Holds keys ns es
      → length es ≤ length ns
  length-entries keys ns es h =
      let r =
        Distinct-length (length ns) (indices es) h.listed (Linked-Below ns es none h.linked) in
      omega (arith, length-indices es)

  read-index_of :
      (keys : Keys K) (ns : List (Node K V)) (k : K) (es : List (Entry K V)) (after : Option ℕ)
      (i : ℕ)
      → Linked ns es after
      → index_of keys k es ≡ some i
      → (n : Node K V) × (get_elem? ns i ≡ some n) × (n.val ≡ value keys k es)
  read-index_of keys ns k [] after i l q = absurd (ground arith)
  read-index_of keys ns k (e ∷ es) after i (g, l) q = elim (Bool-cases (keys.same e.key k)) [
    | inl y ↦ (
      node_of e (link_of e (head_or es after)),
      subst (λ j. get_elem? ns j ≡ some (node_of e (link_of e (head_or es after))))
          (some-inj (sym (index_of-hit keys k e es y) ∙ q)) g,
      sym (value-hit keys k e es y),
    )
    | inr n ↦
        let (m, a, b) =
          read-index_of keys ns k es after i l (sym (index_of-miss keys k e es n) ∙ q) in
        (m, a, b ∙ sym (value-miss keys k e es n))
  ]

  value-none :
      (keys : Keys K) (k : K) (es : List (Entry K V))
      → index_of keys k es ≡ none
      → value keys k es ≡ none
  value-none keys k [] q = refl
  value-none keys k (e ∷ es) q = elim (Bool-cases (keys.same e.key k)) [
    | inl y ↦ absurd (some-none (sym (index_of-hit keys k e es y) ∙ q))
    | inr n ↦
        value-miss keys k e es n ∙ value-none keys k es (sym (index_of-miss keys k e es n) ∙ q)
  ]

  pub keys-missed :
      (keys : Keys K) (k : K) (es : List (Entry K V))
      → keys.same k k ≡ true
      → index_of keys k es ≡ none
      → Misses k (keys_of es)
  keys-missed keys k [] s q = tt
  keys-missed keys k (e ∷ es) s q = elim (Bool-cases (keys.same e.key k)) [
    | inl y ↦ absurd (some-none (sym (index_of-hit keys k e es y) ∙ q))
    | inr n ↦ (
      (λ z. true-false (sym s ∙ ap (λ j. keys.same j k) (sym z) ∙ n)),
      keys-missed keys k es s (sym (index_of-miss keys k e es n) ∙ q),
    )
  ]

  -- The index of a key in the array part, where it has one.
  abbrev pub vector_index : Keys K → Table K V → K → Option ℕ
  vector_index keys t k = elim (keys.index k) [
    | none ↦ none
    | some i ↦ if ltb i (length t.vector) then some i else none
  ]

  -- What a table whose hash part holds `es` has for a key.
  abbrev pub content : Keys K → Table K V → List (Entry K V) → K → Option V
  content keys t es k = elim (vector_index keys t k) [
    | none ↦ value keys k es
    | some i ↦ get_or t.vector i none
  ]

  pub get-in_vector :
      (keys : Keys K) (t : Table K V) (k : K) (i : ℕ)
      → vector_index keys t k ≡ some i
      → get keys t k ≡ some (some (in_vector i))
  unfolding get
  get-in_vector keys t k i q = ground arith

  pub get-get_node :
      (keys : Keys K) (t : Table K V) (k : K)
      → vector_index keys t k ≡ none
      → get keys t k ≡ get_node keys t k
  unfolding get
  get-get_node keys t k q = ground arith

  pub get_node-index_of :
      (keys : Keys K) (t : Table K V) (k : K) (es : List (Entry K V))
      → Holds keys t.node es
      → get_node keys t k ≡ some (node_slot (index_of keys k es))
  unfolding get_node
  get_node-index_of keys t k es h =
      rw (
        find-index_of keys (length t.node) t.node k es h (length-entries keys t.node es h),
        get_node,
      )

  lookup-slot :
      (keys : Keys K) (t : Table K V) (k : K) (o : Option Slot)
      → get keys t k ≡ some o
      → lookup keys t k ≡ some (elim o [ none ↦ none | some s ↦ read t s ])
  unfolding lookup
  lookup-slot keys t k o q = rw (q, lookup)

  read-vector : (t : Table K V) (i : ℕ) → read t (in_vector i) ≡ get_or t.vector i none
  unfolding read
  read-vector t i = refl

  read-node :
      (t : Table K V) (i : ℕ) (n : Node K V)
      → get_elem? t.node i ≡ some n
      → read t (in_node i) ≡ n.val
  unfolding read
  read-node t i n q = rw (q, read)

  -- `rbtH_get` answers on every table that is valid, with what the table has for the key.
  pub lookup-content :
      (keys : Keys K) (t : Table K V) (es : List (Entry K V)) (k : K)
      → Holds keys t.node es
      → lookup keys t k ≡ some (content keys t es k)
  lookup-content keys t es k h = elim (Option-cases (vector_index keys t k)) [
    | inr (i, q) ↦
        lookup-slot keys t k (some (in_vector i)) (get-in_vector keys t k i q)
        ∙ ap some (read-vector t i)
        ∙ ap (λ o. some (elim o [ none ↦ value keys k es | some i ↦ get_or t.vector i none ]))
            (sym q)
    | inl q ↦
        let along = get-get_node keys t k q ∙ get_node-index_of keys t k es h in
        let here =
          ap (λ o. some (elim o [ none ↦ value keys k es | some i ↦ get_or t.vector i none ]))
            (sym q) in
        elim (Option-cases (index_of keys k es)) [
          | inl m ↦
              lookup-slot keys t k none (along ∙ ap (λ o. some (node_slot o)) m)
              ∙ ap some (sym (value-none keys k es m))
              ∙ here
          | inr (i, m) ↦
              let (n, g, v) = read-index_of keys t.node k es none i h.linked m in
              lookup-slot keys t k (some (in_node i)) (along ∙ ap (λ o. some (node_slot o)) m)
              ∙ ap some (read-node t i n g ∙ v)
              ∙ here
        ]
  ]
