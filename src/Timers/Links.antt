-- ===== src/Timers/Links.antt =====
-- The writes by which `insert` and `tm_list_insert_ex` of rbtlib/time_process_list.c link a node.
use smart_rabbit_server.Base.{
  ℕ, ◌≡◌, ◌≢◌, refl, sym, ap, ◌∙◌, subst, ◌⊎◌, inl, inr, Option, none, some, List, [], ◌∷◌, ◌++◌,
  get_elem?, append_assoc,
}
use smart_rabbit_server.Base.Distinct.{
  Misses, Misses-split, Distinct, Apart, Apart-remove, Distinct-remove,
}
use smart_rabbit_server.Timers.{Node, change, change?, set_next, set_prev, set_links}
use smart_rabbit_server.Timers.Segment.{
  Event, node_of, indices, last_or, Seg, get-change_self, get-change_ne, Seg-change, Seg-set_prev,
  Seg-set_next, Seg-append, Seg-split, indices-append, last_or-snoc,
}

-- The index, if there is one, is not in the list.
abbrev pub Misses? : Option ℕ → List ℕ → Type 0
Misses? none is = Unit
Misses? (some i) is = Misses i is

-- What `insert` and `remove_at` make of `first_ex`.
abbrev pub first_of : Option ℕ → Option ℕ → Option ℕ → Option ℕ
first_of pre new first = elim pre [ none ↦ new | some i ↦ first ]

module _ {A T : Type 0} where
  -- A segment is empty or has a last timer.
  pub snoc_cases :
      (xs : List (ℕ × Event A T))
      → (xs ≡ [])
        ⊎ ((ys : List (ℕ × Event A T)) × (q : ℕ) × (c : Event A T) × (xs ≡ ys ++ ((q, c) ∷ [])))
  snoc_cases [] = inl refl
  snoc_cases ((i, e) ∷ xs) = elim (snoc_cases xs) [
    | inl n ↦ inr ([], i, e, ap (λ t. (i, e) ∷ t) n)
    | inr (ys, q, c, n) ↦ inr ((i, e) ∷ ys, q, c, ap (λ t. (i, e) ∷ t) n)
  ]

  -- The writes of `insert`.
  abbrev pub linked : List (Node A T) → ℕ → ℕ → Option ℕ → List (Node A T)
  linked ns p at pre =
      change? (change (change ns at (set_links (some p) pre)) p (set_prev (some at))) pre
        (set_next (some at))

  linked-first :
      (ns : List (Node A T)) (p at : ℕ) (d e : Event A T) (nx pv : Option ℕ)
      (ys : List (ℕ × Event A T))
      → get_elem? ns at ≡ some (node_of e nx pv)
      → Misses at (p ∷ indices ys)
      → Misses p (indices ys)
      → Seg ns none ((p, d) ∷ ys) none
      → Seg (linked ns p at none) none ((at, e) ∷ (p, d) ∷ ys) none
  linked-first ns p at d e nx pv ys g m mp s =
      let ns1 = change ns at (set_links (some p) none) in
      (
        get-change_ne ns1 p at (set_prev (some at)) m.0
            ∙ get-change_self ns at (node_of e nx pv) (set_links (some p) none) g,
        Seg-set_prev ns1 none (some at) p d ys none mp
            (Seg-change ns none ((p, d) ∷ ys) none at (set_links (some p) none) m s),
      )

  linked-middle :
      (ns : List (Node A T)) (p at q : ℕ) (d e c : Event A T) (nx pv : Option ℕ)
      (xs ys : List (ℕ × Event A T))
      → get_elem? ns at ≡ some (node_of e nx pv)
      → Misses at (indices (xs ++ ((q, c) ∷ [])))
      → q ≢ at
      → Misses at (p ∷ indices ys)
      → Misses p (indices ys)
      → Misses p (indices (xs ++ ((q, c) ∷ [])))
      → Misses q (indices xs)
      → Misses q (p ∷ indices ys)
      → Seg ns none (xs ++ ((q, c) ∷ [])) (some p)
      → Seg ns (some q) ((p, d) ∷ ys) none
      → Seg (linked ns p at (some q)) none ((xs ++ ((q, c) ∷ [])) ++ ((at, e) ∷ (p, d) ∷ ys)) none
  linked-middle ns p at q d e c nx pv xs ys g mx qa my mp mpf mq mqb front back =
      let links = set_links {A = A} {T = T} (some p) (some q) in
      let ns1 = change ns at links in
      let ns2 = change ns1 p (set_prev (some at)) in
      let ns3 = change ns2 q (set_next (some at)) in
      let f1 = Seg-change ns none (xs ++ ((q, c) ∷ [])) (some p) at links mx front in
      let f2 = Seg-change ns1 none (xs ++ ((q, c) ∷ [])) (some p) p (set_prev (some at)) mpf f1 in
      let f3 = Seg-set_next ns2 none xs q c (some p) (some at) mq f2 in
      let b1 = Seg-change ns (some q) ((p, d) ∷ ys) none at links my back in
      let b2 = Seg-set_prev ns1 (some q) (some at) p d ys none mp b1 in
      let b3 = Seg-change ns2 (some at) ((p, d) ∷ ys) none q (set_next (some at)) mqb b2 in
      let h =
        get-change_ne ns2 q at (set_next (some at)) qa
        ∙ get-change_ne ns1 p at (set_prev (some at)) my.0
        ∙ get-change_self ns at (node_of e nx pv) links g in
      Seg-append ns3 none (xs ++ ((q, c) ∷ [])) ((at, e) ∷ (p, d) ∷ ys) none f3 (
        subst (λ o. Seg ns3 o ((at, e) ∷ (p, d) ∷ ys) none) (sym (last_or-snoc none xs q c))
          (h, b3))

  -- Misses and Distinct over the indices of two segments.
  pub Misses-indices :
      (j : ℕ) (xs ys : List (ℕ × Event A T))
      → Misses j (indices (xs ++ ys))
      → Misses j (indices xs) × Misses j (indices ys)
  Misses-indices j xs ys m =
      Misses-split j (indices xs) (indices ys) (subst (Misses j) (indices-append xs ys) m)

  pub Distinct-indices :
      (i : ℕ) (e : Event A T) (xs ys : List (ℕ × Event A T))
      → Distinct (indices (xs ++ ((i, e) ∷ ys)))
      → Distinct (indices (xs ++ ys)) × Misses i (indices xs) × Misses i (indices ys)
  Distinct-indices i e xs ys d =
      let (d', m) =
        Distinct-remove i (indices xs) (indices ys)
          (subst Distinct (indices-append xs ((i, e) ∷ ys)) d) in
      let (a, b) = Misses-split i (indices xs) (indices ys) m in
      (subst Distinct (sym (indices-append xs ys)) d', a, b)

  pub Apart-indices :
      (i : ℕ) (e : Event A T) (xs ys : List (ℕ × Event A T)) (ks : List ℕ)
      → Apart (indices (xs ++ ((i, e) ∷ ys))) ks
      → Apart (indices (xs ++ ys)) ks × Misses i ks
  Apart-indices i e xs ys ks a =
      let (a', m) =
        Apart-remove i (indices xs) (indices ys) ks
          (subst (λ is. Apart is ks) (indices-append xs ((i, e) ∷ ys)) a) in
      (subst (λ is. Apart is ks) (sym (indices-append xs ys)) a', m)

  pub Apart-front :
      (xs ys : List (ℕ × Event A T)) (ks : List ℕ)
      → Apart (indices (xs ++ ys)) ks
      → Apart (indices xs) ks
  Apart-front [] ys ks a = tt
  Apart-front ((i, e) ∷ xs) ys ks (m, a) = (m, Apart-front xs ys ks a)

  pub linked-Seg :
      (ns : List (Node A T)) (p at : ℕ) (d e : Event A T) (nx pv : Option ℕ)
      (xs ys : List (ℕ × Event A T))
      → get_elem? ns at ≡ some (node_of e nx pv)
      → Misses at (indices (xs ++ ((p, d) ∷ ys)))
      → Distinct (indices (xs ++ ((p, d) ∷ ys)))
      → Seg ns none (xs ++ ((p, d) ∷ ys)) none
      → Seg (linked ns p at (last_or none xs)) none (xs ++ ((at, e) ∷ (p, d) ∷ ys)) none
  linked-Seg ns p at d e nx pv xs ys g m u s =
      let P : List (ℕ × Event A T) → Type 0 = λ xs.
        Misses at (indices (xs ++ ((p, d) ∷ ys)))
        → Distinct (indices (xs ++ ((p, d) ∷ ys)))
        → Seg ns none (xs ++ ((p, d) ∷ ys)) none
        → Seg (linked ns p at (last_or none xs)) none (xs ++ ((at, e) ∷ (p, d) ∷ ys)) none in
      let there : P xs = elim (snoc_cases xs) [
        | inl n ↦ subst P (sym n) (λ m u s. linked-first ns p at d e nx pv ys g m u.0 s)
        | inr (zs, q, c, n) ↦ subst P (sym n) (λ m u s.
            let snoc = zs ++ ((q, c) ∷ []) in
            let (mz, my) = Misses-indices at snoc ((p, d) ∷ ys) m in
            let (up, mpf, mp) = Distinct-indices p d snoc ys u in
            let e' : snoc ++ ((p, d) ∷ ys) ≡ zs ++ ((q, c) ∷ (p, d) ∷ ys) =
              append_assoc zs ((q, c) ∷ []) ((p, d) ∷ ys) in
            let (uq, mq, mqb) =
              Distinct-indices q c zs ((p, d) ∷ ys) (subst (λ cs. Distinct (indices cs)) e' u) in
            let (front, back) = Seg-split ns none snoc ((p, d) ∷ ys) none s in
            let link = subst (λ o. Seg ns o ((p, d) ∷ ys) none) (last_or-snoc none zs q c) back in
            subst (λ o. Seg (linked ns p at o) none (snoc ++ ((at, e) ∷ (p, d) ∷ ys)) none)
              (sym (last_or-snoc none zs q c))
              (linked-middle ns p at q d e c nx pv zs ys g mz
                (Misses-indices at zs ((q, c) ∷ []) mz).1.0 my mp mpf mq mqb front link))
      ] in
      there m u s
