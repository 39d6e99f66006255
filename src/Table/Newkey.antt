-- ===== src/Table/Newkey.antt =====
-- `newkey` of rbtlib/table.c finds a place for a key where its main position holds no value.
use smart_rabbit_server.Base.{
  ℕ, ◌≡◌, refl, sym, ap, ◌∙◌, subst, true, false, Option, none, some, List, ◌∷◌, ◌++◌, get_elem?,
  update, length, length-update,
}
use smart_rabbit_server.Base.Distinct.{Misses, Misses-split, Distinct, Distinct-remove}
use smart_rabbit_server.Table.{Keys, Node, empty_node, set_key, main_position, newkey_at}
use smart_rabbit_server.Table.Chains.{
  Entry, indices, keys_of, head_or, link_of, node_of, Holds, index_of, value,
}
use smart_rabbit_server.Table.Find.{index_of-hit, main-lt}
use smart_rabbit_server.Table.Frames.{keys_of-append, Linked-split}
use smart_rabbit_server.Table.Grow.{fresh, newkey_at-unused, unused-Holds, reuse-Holds}
use smart_rabbit_server.Table.Values.{value-nil, value-front, index_of-front}

module _ {K V : Type 0} where
  -- What `newkey` does: the key has the node `slot`, and every key has the value that it had.
  abbrev pub Makes : Keys K → Option (ℕ × List (Node K V)) → K → ℕ → List (Entry K V) → Type 0
  Makes keys o k size es =
      (slot : ℕ) × (ns' : List (Node K V)) × (es' : List (Entry K V)) × (o ≡ some (slot, ns'))
      × Holds keys ns' es'
      × (length ns' ≡ size)
      × (index_of keys k es' ≡ some slot)
      × ((j : K) → value keys j es' ≡ value keys j es)

  pub keys_of-split :
      (k : K) (xs ys : List (Entry K V))
      → Misses k (keys_of (xs ++ ys))
      → Misses k (keys_of xs) × Misses k (keys_of ys)
  keys_of-split k xs ys m =
      Misses-split k (keys_of xs) (keys_of ys) (subst (Misses k) (keys_of-append xs ys) m)

  tail-Distinct :
      (xs : List (Entry K V)) (e : Entry K V) (ys : List (Entry K V))
      → Distinct (keys_of (xs ++ (e ∷ ys)))
      → Misses e.key (keys_of ys)
  tail-Distinct xs e ys d =
      let d' = subst Distinct (keys_of-append xs (e ∷ ys)) d in
      (Misses-split e.key (keys_of xs) (keys_of ys)
        (Distinct-remove e.key (keys_of xs) (keys_of ys) d').1).1

  pub newkey-unused :
      (keys : Keys K) (fuel : ℕ) (ns : List (Node K V)) (es : List (Entry K V)) (fn : ℕ) (k : K)
      → Holds keys ns es
      → Misses k (keys_of es)
      → keys.same k k ≡ true
      → Misses (main_position keys (length ns) k) (indices es)
      → Makes keys (newkey_at keys fuel ns fn k) k (length ns) es
  newkey-unused keys fuel ns es fn k h f s m =
      let mp = main_position keys (length ns) k in
      (
        mp,
        update ns mp (set_key k),
        fresh mp k false ∷ es,
        newkey_at-unused keys fuel ns fn k empty_node
            (h.unused mp (main-lt keys (length ns) k h.some_node) m) refl,
        unused-Holds keys ns es k h f m,
        length-update ns mp (set_key k),
        index_of-hit keys k (fresh mp k false) es s,
        λ j. value-nil keys j (fresh mp k false) es refl f,
      )

  pub newkey-reuse :
      (keys : Keys K) (fuel : ℕ) (ns : List (Node K V)) (xs : List (Entry K V)) (e : Entry K V)
      (ys : List (Entry K V)) (fn : ℕ) (k : K)
      → Holds keys ns (xs ++ (e ∷ ys))
      → Misses k (keys_of (xs ++ (e ∷ ys)))
      → keys.same k k ≡ true
      → e.at ≡ main_position keys (length ns) k
      → e.val ≡ none
      → Makes keys (newkey_at keys fuel ns fn k) k (length ns) (xs ++ (e ∷ ys))
  newkey-reuse keys fuel ns xs e ys fn k h f s q v =
      let mp = main_position keys (length ns) k in
      let e' : Entry K V = record e { key = k; val = none } in
      let (g, _) = (Linked-split ns xs (e ∷ ys) none h.linked).1 in
      let (fx, (ne, fy)) = keys_of-split k xs (e ∷ ys) f in
      (
        mp,
        update ns mp (set_key k),
        xs ++ (e' ∷ ys),
        newkey_at-unused keys fuel ns fn k (node_of e (link_of e (head_or ys none)))
            (subst (λ i. get_elem? ns i ≡ some (node_of e (link_of e (head_or ys none)))) q g) v,
        subst (λ i. Holds keys (update ns i (set_key k)) (xs ++ (e' ∷ ys))) q
            (reuse-Holds keys ns xs e ys k h f q),
        length-update ns mp (set_key k),
        index_of-front keys k xs (e' ∷ ys) fx ∙ index_of-hit keys k e' ys s ∙ ap some q,
        λ j. value-front keys j xs (e ∷ ys) (e' ∷ ys) (
            value-nil keys j e' ys refl fy
            ∙ sym (value-nil keys j e ys v (tail-Distinct xs e ys h.keyed))),
      )
