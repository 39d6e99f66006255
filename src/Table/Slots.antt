-- ===== src/Table/Slots.antt =====
-- How `rbtH_set` and `newkey` of rbtlib/table.c come to the place of a key.
use smart_rabbit_server.Base.{
  ℕ, zero, suc, ◌<◌, ◌≤◌, ◌≡◌, inl, inr, refl, sym, ap, ◌∙◌, subst, Bool-cases, Option, none, some,
  Option-cases, List, [], ◌∷◌, ltb, get_elem?, get_elem?-lt, length, arith,
}
use smart_rabbit_server.Base.Distinct.{Misses}
use smart_rabbit_server.Table.{Keys, Node, Table, Slot, in_node, get_free_pos, newkey_at}
use smart_rabbit_server.Table.Ops.{get, write, newkey, set_slot, then_write, store}
use smart_rabbit_server.Table.Chains.{Entry, indices, Linked}
use smart_rabbit_server.Table.Put.{some-inj}
use smart_rabbit_server.Table.Store.{some-none, vector_index}

module _ {K V : Type 0} where
  pub vector_index-index :
      (keys : Keys K) (t : Table K V) (k : K) (i : ℕ)
      → vector_index keys t k ≡ some i
      → (keys.index k ≡ some i) × (i < length t.vector)
  vector_index-index keys t k i q = elim (Option-cases (keys.index k)) [
    | inl n ↦ absurd (ground arith)
    | inr (j, n) ↦ elim (Bool-cases (ltb j (length t.vector))) [
      | inl y ↦ ground arith
      | inr z ↦ absurd (ground arith)
    ]
  ]

  pub set_slot-some :
      (depth : ℕ) (keys : Keys K) (t : Table K V) (k : K) (s : Slot)
      → get keys t k ≡ some (some s)
      → set_slot (suc depth) keys t k ≡ some (s, t)
  unfolding set_slot
  set_slot-some depth keys t k s q = rw (q, set_slot)

  pub set_slot-new :
      (depth : ℕ) (keys : Keys K) (t : Table K V) (k : K) (free : ℕ × ℕ)
      → get keys t k ≡ some none
      → get_free_pos t.node t.free_pos ≡ some free
      → set_slot (suc depth) keys t k ≡ newkey keys t k free
  unfolding set_slot
  set_slot-new depth keys t k free q f = rw (q, set_slot, f)

  pub newkey-some :
      (keys : Keys K) (t : Table K V) (k : K) (free : ℕ × ℕ) (slot : ℕ) (ns : List (Node K V))
      → newkey_at keys (suc (length t.node)) t.node free.0 k ≡ some (slot, ns)
      → newkey keys t k free ≡ some (in_node slot, record t { node = ns; free_pos = free.1 })
  unfolding newkey
  newkey-some keys t k free slot ns q = rw (q, newkey)

  pub store-write :
      (depth : ℕ) (keys : Keys K) (t t' : Table K V) (k : K) (s : Slot) (v : Option V)
      → set_slot depth keys t k ≡ some (s, t')
      → store depth keys t k v ≡ some (write t' s v)
  unfolding store
  store-write depth keys t t' k s v q = ap (λ o. then_write o v) q

  pub get_free_pos-here :
      (ns : List (Node K V)) (p : ℕ) (n : Node K V)
      → get_elem? ns p ≡ some n
      → n.val ≡ none
      → n.key ≡ none
      → get_free_pos ns (suc p) ≡ some (p, suc p)
  unfolding get_free_pos
  get_free_pos-here ns p n g v k = rw (g, get_free_pos, v, k)

  pub get_free_pos-val :
      (ns : List (Node K V)) (p : ℕ) (n : Node K V) (v : V)
      → get_elem? ns p ≡ some n
      → n.val ≡ some v
      → get_free_pos ns (suc p) ≡ get_free_pos ns p
  unfolding get_free_pos
  get_free_pos-val ns p n v g w = rw (g, get_free_pos, w)

  pub get_free_pos-key :
      (ns : List (Node K V)) (p : ℕ) (n : Node K V) (k : K)
      → get_elem? ns p ≡ some n
      → n.val ≡ none
      → n.key ≡ some k
      → get_free_pos ns (suc p) ≡ get_free_pos ns p
  unfolding get_free_pos
  get_free_pos-key ns p n k g v w = rw (g, get_free_pos, v, w)

  pub get_free_pos-out :
      (ns : List (Node K V)) (p : ℕ) → get_elem? ns p ≡ none → get_free_pos ns (suc p) ≡ none
  unfolding get_free_pos
  get_free_pos-out ns p g = rw (g, get_free_pos)

  pub get_free_pos-zero : (ns : List (Node K V)) → get_free_pos ns zero ≡ none
  unfolding get_free_pos
  get_free_pos-zero ns = refl

  -- A free node is in the array and has no key; the free position does not move up.
  abbrev pub IsFree : List (Node K V) → ℕ → ℕ × ℕ → Type 0
  IsFree ns p free =
      (free.0 < length ns)
      × (free.1 ≤ p)
      × ((n : Node K V) × (get_elem? ns free.0 ≡ some n) × (n.key ≡ none))

  pub get_free_pos-IsFree :
      (ns : List (Node K V)) (p : ℕ) (free : ℕ × ℕ)
      → get_free_pos ns p ≡ some free
      → IsFree ns p free
  get_free_pos-IsFree ns zero free q = absurd (some-none (sym q ∙ get_free_pos-zero ns))
  get_free_pos-IsFree ns (suc p) free q =
      let on : get_free_pos ns (suc p) ≡ get_free_pos ns p → IsFree ns (suc p) free =
        λ r. let (a, b, c) = get_free_pos-IsFree ns p free (sym r ∙ q) in (a, omega arith, c) in
      elim (Option-cases (get_elem? ns p)) [
        | inl e ↦ absurd (some-none (sym q ∙ get_free_pos-out ns p e))
        | inr (n, e) ↦ elim (Option-cases n.val) [
          | inr (v, w) ↦ on (get_free_pos-val ns p n v e w)
          | inl v ↦ elim (Option-cases n.key) [
            | inr (k, w) ↦ on (get_free_pos-key ns p n k e v w)
            | inl w ↦
                subst (IsFree ns (suc p)) (some-inj (sym (get_free_pos-here ns p n e v w) ∙ q))
                  (get_elem?-lt ns p n e, omega arith, (n, e, w))
          ]
        ]
      ]

  pub Linked-Misses :
      (ns : List (Node K V)) (es : List (Entry K V)) (after : Option ℕ) (i : ℕ) (n : Node K V)
      → Linked ns es after
      → get_elem? ns i ≡ some n
      → n.key ≡ none
      → Misses i (indices es)
  Linked-Misses ns [] after i n l g q = tt
  Linked-Misses ns (e ∷ es) after i n (h, l) g q = (
    (λ z. absurd (
        some-none (
          ap (λ o. elim o [ none ↦ none | some m ↦ m.key ]) (sym h ∙ ap (get_elem? ns) z ∙ g)
          ∙ q))),
    Linked-Misses ns es after i n l g q,
  )
