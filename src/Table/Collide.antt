-- ===== src/Table/Collide.antt =====
-- `newkey` of rbtlib/table.c finds a place for a key whatever its main position holds.
use smart_rabbit_server.Base.{
  ℕ, ◌<◌, ◌≤◌, ◌≡◌, ◌≢◌, inl, inr, refl, sym, ap, ◌∙◌, subst, true, false, Bool-cases, Option-cases,
  none, some, List, [], ◌∷◌, ◌++◌, ◌==◌, ==_iff, if◌then◌else◌, get_elem?, update, length,
  length-update, length-append, arith,
}
use smart_rabbit_server.Base.Distinct.{Misses}
use smart_rabbit_server.Table.{Keys, Node, set_next, set_key, main_position, newkey_at, find_before}
use smart_rabbit_server.Table.Chains.{
  Entry, indices, keys_of, head_or, link_of, node_of, Holds, value,
}
use smart_rabbit_server.Table.Find.{eq-false, ne-false, index_of-hit, index_of-miss}
use smart_rabbit_server.Table.Frames.{
  keys_of-append, locate, Distinct-middle, Linked-split, Linked-update,
}
use smart_rabbit_server.Table.Before.{find_before-last}
use smart_rabbit_server.Table.Grow.{fresh, newkey_at-near, newkey_at-far, displace-some}
use smart_rabbit_server.Table.Link.{near, near-Holds}
use smart_rabbit_server.Table.Move.{far-Holds}
use smart_rabbit_server.Table.Values.{same-ne, value-nil, value-front, index_of-front}
use smart_rabbit_server.Table.Newkey.{Makes, keys_of-split, newkey-unused, newkey-reuse}
use smart_rabbit_server.Table.Link.{far, length-far}

module _ {K V : Type 0} where
  newkey-near :
      (keys : Keys K) (fuel : ℕ) (ns : List (Node K V)) (xs : List (Entry K V)) (e : Entry K V)
      (ys : List (Entry K V)) (fn : ℕ) (k : K) (v : V)
      → Holds keys ns (xs ++ (e ∷ ys))
      → Misses k (keys_of (xs ++ (e ∷ ys)))
      → keys.same k k ≡ true
      → e.at ≡ main_position keys (length ns) k
      → e.val ≡ some v
      → main_position keys (length ns) e.key ≡ e.at
      → fn < length ns
      → Misses fn (indices (xs ++ (e ∷ ys)))
      → Makes keys (newkey_at keys fuel ns fn k) k (length ns) (xs ++ (e ∷ ys))
  newkey-near keys fuel ns xs e ys fn k v h f s q w at_main lt mf =
      let mp = main_position keys (length ns) k in
      let e' : Entry K V = record e { more = true } in
      let new : Entry K V = fresh fn k e.more in
      let nx = link_of e (head_or ys none) in
      let (g, _) = (Linked-split ns xs (e ∷ ys) none h.linked).1 in
      let (fx, (ne, fy)) = keys_of-split k xs (e ∷ ys) f in
      let long : length (near ns fn mp nx k) ≡ length ns =
        length-update (update (update ns fn (set_next nx)) mp (set_next (some fn))) fn (set_key k)
        ∙ length-update (update ns fn (set_next nx)) mp (set_next (some fn))
        ∙ length-update ns fn (set_next nx) in
      (
        fn,
        near ns fn mp nx k,
        xs ++ (e' ∷ new ∷ ys),
        newkey_at-near keys fuel ns fn k (node_of e nx) v
            (subst (λ i. get_elem? ns i ≡ some (node_of e nx)) q g) w
            ((==_iff (main_position keys (length ns) e.key) mp).1 (at_main ∙ q)),
        subst (λ i. Holds keys (near ns fn i nx k) (xs ++ (e' ∷ new ∷ ys))) q
            (near-Holds keys ns fn xs e ys k h f q at_main lt mf),
        long,
        index_of-front keys k xs (e' ∷ new ∷ ys) fx
            ∙ index_of-miss keys k e' (new ∷ ys) (same-ne keys e.key k ne)
            ∙ index_of-hit keys k new ys s,
        λ j.
            value-front keys j xs (e ∷ ys) (e' ∷ new ∷ ys)
              (ap (λ r. if keys.same e.key j then e.val else r) (value-nil keys j new ys refl fy)),
      )

  newkey-far :
      (keys : Keys K) (fuel : ℕ) (ns : List (Node K V)) (xs : List (Entry K V)) (e : Entry K V)
      (ys : List (Entry K V)) (fn : ℕ) (k : K) (v : V)
      → Holds keys ns (xs ++ (e ∷ ys))
      → Misses k (keys_of (xs ++ (e ∷ ys)))
      → keys.same k k ≡ true
      → e.at ≡ main_position keys (length ns) k
      → e.val ≡ some v
      → main_position keys (length ns) e.key ≢ e.at
      → fn < length ns
      → Misses fn (indices (xs ++ (e ∷ ys)))
      → length xs < fuel
      → Makes keys (newkey_at keys fuel ns fn k) k (length ns) (xs ++ (e ∷ ys))
  newkey-far keys fuel ns xs e ys fn k v h f s q w away lt mf lf =
      let mp = main_position keys (length ns) k in
      let other = main_position keys (length ns) e.key in
      let n = node_of e (link_of e (head_or ys none)) in
      let (g, _) = (Linked-split ns xs (e ∷ ys) none h.linked).1 in
      let mx = (Distinct-middle xs e ys h.listed).1 in
      let (zs, l, r, t, b) =
        find_before-last keys (length ns) fuel (update ns fn (λ _. n)) xs e ys
          (Linked-update ns (xs ++ (e ∷ ys)) none fn (λ _. n) mf h.linked) h.placed away mx lf in
      let es' = fresh e.at k false ∷ (zs ++ (l ∷ [])) ++ (record e { at = fn } ∷ ys) in
      let H = subst (λ us. Holds keys ns (us ++ (e ∷ ys))) r h in
      let F = subst (λ us. Misses k (keys_of (us ++ (e ∷ ys)))) r f in
      let M = subst (λ us. Misses fn (indices (us ++ (e ∷ ys)))) r mf in
      let kept =
        keys_of-append (zs ++ (l ∷ [])) (e ∷ ys)
        ∙ sym (keys_of-append (zs ++ (l ∷ [])) (record e { at = fn } ∷ ys)) in
      (
        mp,
        far ns fn mp l.at n k,
        es',
        newkey_at-far keys fuel ns fn k n v (subst (λ i. get_elem? ns i ≡ some n) q g) w
              (ne-false other mp (λ z. away (z ∙ sym q)))
            ∙ displace-some fuel ns fn mp other l.at n k
                (subst (λ i. find_before fuel (update ns fn (λ _. n)) other i ≡ some l.at) q b),
        subst (λ i. Holds keys (far ns fn i l.at n k) es') q
            (far-Holds keys ns fn zs l e ys k H F q away t lt M),
        length-far ns fn mp l.at n k,
        index_of-hit keys k (fresh e.at k false) ((zs ++ (l ∷ [])) ++ (record e { at = fn } ∷ ys)) s
            ∙ ap some q,
        λ j.
            value-nil keys j (fresh e.at k false) ((zs ++ (l ∷ [])) ++ (record e { at = fn } ∷ ys))
              refl (subst (Misses k) kept F)
            ∙ value-front keys j (zs ++ (l ∷ [])) (e ∷ ys) (record e { at = fn } ∷ ys) refl
            ∙ ap (λ us. value keys j (us ++ (e ∷ ys))) (sym r),
      )

  newkey-used :
      (keys : Keys K) (fuel : ℕ) (ns : List (Node K V)) (xs : List (Entry K V)) (e : Entry K V)
      (ys : List (Entry K V)) (fn : ℕ) (k : K)
      → Holds keys ns (xs ++ (e ∷ ys))
      → Misses k (keys_of (xs ++ (e ∷ ys)))
      → keys.same k k ≡ true
      → e.at ≡ main_position keys (length ns) k
      → fn < length ns
      → Misses fn (indices (xs ++ (e ∷ ys)))
      → length xs < fuel
      → Makes keys (newkey_at keys fuel ns fn k) k (length ns) (xs ++ (e ∷ ys))
  newkey-used keys fuel ns xs e ys fn k h f s q lt mf lf = elim (Option-cases e.val) [
    | inl v ↦ newkey-reuse keys fuel ns xs e ys fn k h f s q v
    | inr (v, w) ↦ elim (Bool-cases (main_position keys (length ns) e.key == e.at)) [
      | inl y ↦
          newkey-near keys fuel ns xs e ys fn k v h f s q w
            ((==_iff (main_position keys (length ns) e.key) e.at).0 y) lt mf
      | inr z ↦
          newkey-far keys fuel ns xs e ys fn k v h f s q w
            (eq-false (main_position keys (length ns) e.key) e.at z) lt mf lf
    ]
  ]

  -- Where a free node is at hand, `newkey` returns a node for the key, which holds nil, and every key has
  -- the value that it had before.
  pub newkey_at-Makes :
      (keys : Keys K) (fuel : ℕ) (ns : List (Node K V)) (es : List (Entry K V)) (fn : ℕ) (k : K)
      → Holds keys ns es
      → Misses k (keys_of es)
      → keys.same k k ≡ true
      → fn < length ns
      → Misses fn (indices es)
      → length es ≤ fuel
      → Makes keys (newkey_at keys fuel ns fn k) k (length ns) es
  newkey_at-Makes keys fuel ns es fn k h f s lt mf lf =
      elim (locate (main_position keys (length ns) k) es) [
        | inl m ↦ newkey-unused keys fuel ns es fn k h f s m
        | inr (xs, e, ys, r, q) ↦
            subst (Makes keys (newkey_at keys fuel ns fn k) k (length ns)) (sym r) (
              newkey-used keys fuel ns xs e ys fn k (subst (Holds keys ns) r h)
                (subst (λ es. Misses k (keys_of es)) r f) s q lt
                (subst (λ es. Misses fn (indices es)) r mf)
                (omega (arith, ap length r, length-append xs (e ∷ ys), lf)))
      ]
