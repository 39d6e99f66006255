-- ===== src/Table/Visit.antt =====
-- `rbtH_next` of rbtlib/table.c visits every value of a table once.
use smart_rabbit_server.Base.{
  ℕ, zero, suc, ◌+◌, ◌-◌, ◌<◌, ◌≤◌, ◌≡◌, refl, sym, ap, ◌∙◌, ◌⊎◌, inl, inr, Option, none, some,
  Option-cases, List, [], ◌∷◌, ◌++◌, if◌then◌else◌, drop, max, length, length-append, length-drop,
  arith,
}
use smart_rabbit_server.Table.{Keys, Node, Table}
use smart_rabbit_server.Table.Scan.{
  is_some, count_some, vals_of, count, next_vector, next_node, next, iterate, live_vector,
  live_node, live,
}

drop-nil : {A : Type 0} (n : ℕ) → drop {A = A} n [] ≡ []
drop-nil zero = refl
drop-nil (suc n) = refl

drop-drop : {A : Type 0} (a b c : ℕ) (xs : List A) → c ≡ b + a → drop a (drop b xs) ≡ drop c xs
drop-drop a zero c xs q = ap (λ n. drop n xs) (omega arith)
drop-drop a (suc b) zero xs q = absurd (omega arith)
drop-drop a (suc b) (suc c) [] q = drop-nil a
drop-drop a (suc b) (suc c) (x ∷ xs) q = drop-drop a b c xs (omega arith)

drop-all : {A : Type 0} (n : ℕ) (xs : List A) → length xs ≤ n → drop n xs ≡ []
drop-all n [] h = drop-nil n
drop-all zero (x ∷ xs) h = absurd (omega arith)
drop-all (suc n) (x ∷ xs) h = drop-all n xs (omega arith)

zero_sub : (n : ℕ) → 0 - n ≡ 0
zero_sub n = omega arith

module _ {K V : Type 0} where
  -- Where the first loop of `rbtH_next` ends.
  next_vector-live :
      (keys : Keys K) (i : ℕ) (vs : List (Option V))
      → ((next_vector keys i vs ≡ none) × (live_vector keys i vs ≡ []))
        ⊎ ((d : ℕ) × (k : Option K) × (v : V) × (next_vector keys i vs ≡ some (i + d, k, v))
            × (live_vector keys i vs ≡ (k, v) ∷ live_vector keys (i + d + 1) (drop (suc d) vs))
            × (d < length vs))
  next_vector-live keys i [] = inl (refl, refl)
  next_vector-live keys i (some v ∷ vs) =
      let e : i ≡ i + 0 = omega arith in
      let f : suc i ≡ i + 0 + 1 = omega arith in
      inr (
        0,
        some (keys.of_index i),
        v,
        ap (λ n. some (n, some (keys.of_index i), v)) e,
        ap (λ n. (some (keys.of_index i), v) ∷ live_vector keys n vs) f,
        omega arith,
      )
  next_vector-live keys i (none ∷ vs) = elim (next_vector-live keys (suc i) vs) [
    | inl h ↦ inl h
    | inr (d, k, v, p, q, l) ↦
        let e : suc i + d ≡ i + suc d = omega arith in
        inr (
          suc d,
          k,
          v,
          p ∙ ap (λ n. some (n, k, v)) e,
          q ∙ ap (λ n. (k, v) ∷ live_vector keys (n + 1) (drop (suc d) vs)) e,
          omega arith,
        )
  ]

  next_node-none :
      (i : ℕ) (n : Node K V) (ns : List (Node K V))
      → n.val ≡ none
      → next_node i (n ∷ ns) ≡ next_node (suc i) ns
  next_node-none i n ns h = rw h

  next_node-some :
      (i : ℕ) (n : Node K V) (ns : List (Node K V)) (v : V)
      → n.val ≡ some v
      → next_node i (n ∷ ns) ≡ some (i, n.key, v)
  next_node-some i n ns v h = rw h

  live_node-none :
      (n : Node K V) (ns : List (Node K V)) → n.val ≡ none → live_node (n ∷ ns) ≡ live_node ns
  live_node-none n ns h = rw h

  live_node-some :
      (n : Node K V) (ns : List (Node K V)) (v : V)
      → n.val ≡ some v
      → live_node (n ∷ ns) ≡ (n.key, v) ∷ live_node ns
  live_node-some n ns v h = rw h

  -- Where the second loop ends.
  next_node-live :
      (i : ℕ) (ns : List (Node K V))
      → ((next_node i ns ≡ none) × (live_node ns ≡ []))
        ⊎ ((d : ℕ) × (k : Option K) × (v : V) × (next_node i ns ≡ some (i + d, k, v))
            × (live_node ns ≡ (k, v) ∷ live_node (drop (suc d) ns))
            × (d < length ns))
  next_node-live i [] = inl (refl, refl)
  next_node-live i (n ∷ ns) = elim (Option-cases n.val) [
    | inr (v, w) ↦
        let e : i ≡ i + 0 = omega arith in
        inr (
          0,
          n.key,
          v,
          next_node-some i n ns v w ∙ ap (λ j. some (j, n.key, v)) e,
          live_node-some n ns v w,
          omega arith,
        )
    | inl w ↦ elim (next_node-live (suc i) ns) [
      | inl (p, q) ↦ inl (next_node-none i n ns w ∙ p, live_node-none n ns w ∙ q)
      | inr (d, k, v, p, q, l) ↦
          let e : suc i + d ≡ i + suc d = omega arith in
          inr (
            suc d,
            k,
            v,
            next_node-none i n ns w ∙ p ∙ ap (λ j. some (j, k, v)) e,
            live_node-none n ns w ∙ q,
            omega arith,
          )
    ]
  ]

  next-vector :
      (keys : Keys K) (t : Table K V) (s : ℕ) (r : ℕ × Option K × V)
      → next_vector keys s (drop s t.vector) ≡ some r
      → next keys t s ≡ some r
  unfolding next
  next-vector keys t s r q = rw (q, next)

  next-node :
      (keys : Keys K) (t : Table K V) (s : ℕ)
      → next_vector keys s (drop s t.vector) ≡ none
      → next keys t s ≡ next_node (max s (length t.vector)) (drop (s - length t.vector) t.node)
  unfolding next
  next-node keys t s q = rw (q, next)

  iterate-none :
      (fuel : ℕ) (keys : Keys K) (t : Table K V) (s : ℕ)
      → next keys t s ≡ none
      → iterate (suc fuel) keys t s ≡ some []
  iterate-none fuel keys t s q = rw (q, iterate)

  iterate-some :
      (fuel : ℕ) (keys : Keys K) (t : Table K V) (s i : ℕ) (k : Option K) (v : V)
      (rest : List (Option K × V))
      → next keys t s ≡ some (i, k, v)
      → iterate fuel keys t (i + 1) ≡ some rest
      → iterate (suc fuel) keys t s ≡ some ((k, v) ∷ rest)
  iterate-some fuel keys t s i k v rest q r = rw (q, iterate, r)

  -- What is left from a position on.
  abbrev live_from : Keys K → Table K V → ℕ → List (Option K × V)
  live_from keys t s =
      live_vector keys s (drop s t.vector) ++ live_node (drop (s - length t.vector) t.node)

  live_from-vector :
      (keys : Keys K) (t : Table K V) (s d : ℕ) (k : Option K) (v : V)
      → s + d < length t.vector
      → live_vector keys s (drop s t.vector)
        ≡ (k, v) ∷ live_vector keys (s + d + 1) (drop (suc d) (drop s t.vector))
      → live_from keys t s ≡ (k, v) ∷ live_from keys t (s + d + 1)
  live_from-vector keys t s d k v h q =
      let e : s - length t.vector ≡ s + d + 1 - length t.vector = omega arith in
      ap (λ l. l ++ live_node (drop (s - length t.vector) t.node)) q
      ∙ ap
          (λ xs.
            (k, v) ∷ live_vector keys (s + d + 1) xs
            ++ live_node (drop (s - length t.vector) t.node))
          (drop-drop (suc d) s (s + d + 1) t.vector (omega arith))
      ∙ ap
          (λ n.
            (k, v) ∷ live_vector keys (s + d + 1) (drop (s + d + 1) t.vector)
            ++ live_node (drop n t.node))
          e

  live_from-node :
      (keys : Keys K) (t : Table K V) (s d : ℕ) (k : Option K) (v : V)
      → live_vector keys s (drop s t.vector) ≡ []
      → live_node (drop (s - length t.vector) t.node)
        ≡ (k, v) ∷ live_node (drop (suc d) (drop (s - length t.vector) t.node))
      → live_from keys t s ≡ (k, v) ∷ live_from keys t (max s (length t.vector) + d + 1)
  live_from-node keys t s d k v p q =
      let m = max s (length t.vector) + d + 1 in
      let here =
        drop-drop (suc d) (s - length t.vector) (m - length t.vector) t.node (omega arith) in
      let gone = drop-all m t.vector (omega arith) in
      ap (λ l. l ++ live_node (drop (s - length t.vector) t.node)) p
      ∙ q
      ∙ ap (λ ns. (k, v) ∷ live_node ns) here
      ∙ ap (λ vs. (k, v) ∷ live_vector keys m vs ++ live_node (drop (m - length t.vector) t.node))
          (sym gone)

  iterate-live_from :
      (fuel : ℕ) (keys : Keys K) (t : Table K V) (s : ℕ)
      → length t.vector + length t.node < fuel + s
      → 0 < fuel
      → iterate fuel keys t s ≡ some (live_from keys t s)
  iterate-live_from zero keys t s h z = absurd (omega arith)
  iterate-live_from (suc fuel) keys t s h z = elim (next_vector-live keys s (drop s t.vector)) [
    | inr (d, k, v, p, q, l) ↦
        let lt : s + d < length t.vector = omega (arith, length-drop s t.vector) in
        iterate-some fuel keys t s (s + d) k v (live_from keys t (s + d + 1))
          (next-vector keys t s (s + d, k, v) p)
          (iterate-live_from fuel keys t (s + d + 1) (omega arith) (omega arith))
        ∙ ap some (sym (live_from-vector keys t s d k v lt q))
    | inl (p, q) ↦
        elim (next_node-live (max s (length t.vector)) (drop (s - length t.vector) t.node)) [
          | inl (a, b) ↦
              iterate-none fuel keys t s (next-node keys t s p ∙ a)
              ∙ ap some (sym (ap (λ l. l ++ live_node (drop (s - length t.vector) t.node)) q ∙ b))
          | inr (d, k, v, a, b, l) ↦
              let m = max s (length t.vector) + d in
              let lt : m < length t.vector + length t.node =
                omega (arith, length-drop (s - length t.vector) t.node) in
              iterate-some fuel keys t s m k v (live_from keys t (m + 1)) (next-node keys t s p ∙ a)
                (iterate-live_from fuel keys t (m + 1) (omega arith) (omega arith))
              ∙ ap some (sym (live_from-node keys t s d k v q b))
        ]
  ]

  length-live_vector :
      (keys : Keys K) (i : ℕ) (vs : List (Option V))
      → length (live_vector keys i vs) ≡ count_some vs
  length-live_vector keys i [] = refl
  length-live_vector keys i (none ∷ vs) = length-live_vector keys (suc i) vs
  length-live_vector keys i (some v ∷ vs) = ap suc (length-live_vector keys (suc i) vs)

  length-live_node : (ns : List (Node K V)) → length (live_node ns) ≡ count_some (vals_of ns)
  length-live_node [] = refl
  length-live_node (n ∷ ns) = elim (Option-cases n.val) [
    | inl w ↦
        ap length (live_node-none n ns w)
        ∙ length-live_node ns
        ∙ ap (λ o. if is_some o then suc (count_some (vals_of ns)) else count_some (vals_of ns))
            (sym w)
    | inr (v, w) ↦
        ap length (live_node-some n ns v w)
        ∙ ap suc (length-live_node ns)
        ∙ ap (λ o. if is_some o then suc (count_some (vals_of ns)) else count_some (vals_of ns))
            (sym w)
  ]

  -- The loop over `rbtH_next`, begun at -1, ends within one call for each slot and node and one more, and
  -- meets every value of the table exactly once, those of the array part first; `rbtH_count` is their
  -- number.
  pub iterate-live :
      (keys : Keys K) (t : Table K V)
      → (iterate (length t.vector + length t.node + 1) keys t 0 ≡ some (live keys t))
        × (count t ≡ length (live keys t))
  unfolding live count
  iterate-live keys t = (
    iterate-live_from (length t.vector + length t.node + 1) keys t 0 (omega arith) (omega arith)
        ∙ ap (λ n. some (live_vector keys 0 t.vector ++ live_node (drop n t.node)))
            (zero_sub (length t.vector)),
    omega (
      arith,
      length-append (live_vector keys 0 t.vector) (live_node t.node),
      length-live_vector keys 0 t.vector,
      length-live_node t.node,
    ),
  )
