-- ===== src/Timers/Unlink.antt =====
-- The writes by which `remove_at` and `tm_list_next_ex` of rbtlib/time_process_list.c unlink a node.
use smart_rabbit_server.Base.{
  ℕ, ◌-◌, ◌≡◌, refl, sym, ap, ◌∙◌, subst, inl, inr, Option, none, some, List, [], ◌∷◌, ◌++◌,
  get_elem?, some-get_elem?, get_elem?-lt, length, arith,
}
use smart_rabbit_server.Base.Distinct.{
  Misses, Distinct, Distinct-split, Misses-append, Apart, Apart-cons, Apart-uncons,
}
use smart_rabbit_server.Timers.{Node, TmList, change, change?, set_next, set_prev, remove_at}
use smart_rabbit_server.Timers.Segment.{
  Event, node_of, indices, first_or, last_or, Seg, length-change, Seg-change, Seg-set_prev,
  Seg-set_next, Seg-append, Seg-split, indices-append, last_or-snoc,
}
use smart_rabbit_server.Timers.Storage.{Free-cons, Holds}
use smart_rabbit_server.Timers.Links.{
  Misses?, first_of, snoc_cases, Distinct-indices, Apart-indices, Apart-front,
}
use smart_rabbit_server.Timers.Filled.{
  Free-change?, length-change?, last_or-Misses, first_of-last, length-insert,
}

module _ {A T : Type 0} where
  -- The writes of `remove_at` to the nodes on both sides.
  abbrev pub unlinked : List (Node A T) → Option ℕ → Option ℕ → List (Node A T)
  unlinked ns next prev = change? (change? ns next (set_prev prev)) prev (set_next next)

  Seg-change? :
      (ns : List (Node A T)) (prev : Option ℕ) (cs : List (ℕ × Event A T)) (next o : Option ℕ)
      (f : Node A T → Node A T)
      → Misses? o (indices cs)
      → Seg ns prev cs next
      → Seg (change? ns o f) prev cs next
  Seg-change? ns prev cs next none f m s = s
  Seg-change? ns prev cs next (some i) f m s = Seg-change ns prev cs next i f m s

  Seg-first :
      (ns : List (Node A T)) (prev prev' : Option ℕ) (ys : List (ℕ × Event A T))
      → Distinct (indices ys)
      → Seg ns prev ys none
      → Seg (change? ns (first_or ys none) (set_prev prev')) prev' ys none
  Seg-first ns prev prev' [] u s = tt
  Seg-first ns prev prev' ((p, d) ∷ ys) u s = Seg-set_prev ns prev prev' p d ys none u.0 s

  Seg-last :
      (ns : List (Node A T)) (xs : List (ℕ × Event A T)) (next next' : Option ℕ)
      → Distinct (indices xs)
      → Seg ns none xs next
      → Seg (change? ns (last_or none xs) (set_next next')) none xs next'
  Seg-last ns xs next next' u s =
      let P : List (ℕ × Event A T) → Type 0 = λ xs.
        Distinct (indices xs)
        → Seg ns none xs next
        → Seg (change? ns (last_or none xs) (set_next next')) none xs next' in
      let there : P xs = elim (snoc_cases xs) [
        | inl n ↦ subst P (sym n) (λ u s. tt)
        | inr (zs, q, c, n) ↦ subst P (sym n) (λ u s.
            let (d, m, m') = Distinct-indices q c zs [] u in
            subst (λ o. Seg (change? ns o (set_next next')) none (zs ++ ((q, c) ∷ [])) next')
              (sym (last_or-snoc none zs q c)) (Seg-set_next ns none zs q c next next' m s))
      ] in
      there u s

  first_or-Misses :
      (ys : List (ℕ × Event A T)) (is : List ℕ)
      → Apart is (indices ys)
      → Misses? (first_or ys none) is
  first_or-Misses [] is a = tt
  first_or-Misses ((p, d) ∷ ys) is a = (Apart-uncons is (indices ys) p a).0

  first_or-Misses_left :
      (ys : List (ℕ × Event A T)) (is : List ℕ)
      → Apart (indices ys) is
      → Misses? (first_or ys none) is
  first_or-Misses_left [] is a = tt
  first_or-Misses_left ((p, d) ∷ ys) is a = a.0

  unlinked-Seg :
      (ns : List (Node A T)) (i : ℕ) (xs ys : List (ℕ × Event A T))
      → Distinct (indices (xs ++ ys))
      → Seg ns none xs (some i)
      → Seg ns (some i) ys none
      → Seg (unlinked ns (first_or ys none) (last_or none xs)) none (xs ++ ys) none
  unlinked-Seg ns i xs ys u front back =
      let (ux, uy, a) =
        Distinct-split (indices xs) (indices ys) (subst Distinct (indices-append xs ys) u) in
      let nx = first_or ys none in
      let pre = last_or none xs in
      let ns1 = change? ns nx (set_prev pre) in
      Seg-append (unlinked ns nx pre) none xs ys none
        (Seg-last ns1 xs (some i) nx ux (
          Seg-change? ns none xs (some i) nx (set_prev pre) (first_or-Misses ys (indices xs) a)
            front))
        (Seg-change? ns1 pre ys none pre (set_next nx) (last_or-Misses xs none (indices ys) tt a)
          (Seg-first ns (some i) pre ys uy back))

  first_of-rest :
      (xs ys : List (ℕ × Event A T)) (c : ℕ × Event A T)
      → first_of (last_or none xs) (first_or ys none) (first_or (xs ++ (c ∷ ys)) none)
        ≡ first_or (xs ++ ys) none
  first_of-rest [] ys c = refl
  first_of-rest ((i, d) ∷ xs) ys c = first_of-last i xs (first_or ys none) (some i)

  -- The list after a node is taken out.
  abbrev pub taken : TmList A T → ℕ → Option ℕ → Option ℕ → TmList A T
  taken l i next prev = record l {
    node = change (unlinked l.node next prev) i (set_next l.free);
    first_ex = first_of prev next l.first_ex;
    free = some i;
    num = l.num - 1;
  }

  pub remove_at-some :
      (l : TmList A T) (i : ℕ) (e : Event A T) (next prev : Option ℕ)
      → get_elem? l.node i ≡ some (node_of e next prev)
      → remove_at l i ≡ some (taken l i next prev)
  unfolding remove_at
  remove_at-some l i e next prev g = rw (g, remove_at)

  length-unlinked :
      (ns : List (Node A T)) (next prev : Option ℕ) → length (unlinked ns next prev) ≡ length ns
  length-unlinked ns next prev =
      length-change? (change? ns next (set_prev prev)) prev (set_next next)
      ∙ length-change? ns next (set_prev prev)

  Apart-back :
      (xs ys : List (ℕ × Event A T)) (ks : List ℕ)
      → Apart (indices (xs ++ ys)) ks
      → Apart (indices ys) ks
  Apart-back [] ys ks a = a
  Apart-back ((i, e) ∷ xs) ys ks (m, a) = Apart-back xs ys ks a

  Apart-cons_indices :
      (i : ℕ) (xs ys : List (ℕ × Event A T)) (ks : List ℕ)
      → Misses i (indices xs)
      → Misses i (indices ys)
      → Apart (indices (xs ++ ys)) ks
      → Apart (indices (xs ++ ys)) (i ∷ ks)
  Apart-cons_indices i xs ys ks mx my a =
      Apart-cons (indices (xs ++ ys)) ks i
        (subst (Misses i) (sym (indices-append xs ys))
          (Misses-append i (indices xs) (indices ys) mx my))
        a

  -- The timer at the index `i` leaves the list, and its node is free.
  pub taken-Holds :
      (l : TmList A T) (i : ℕ) (e : Event A T) (xs ys : List (ℕ × Event A T)) (frees : List ℕ)
      → Holds 0 l (xs ++ ((i, e) ∷ ys)) frees
      → Holds 0 (taken l i (first_or ys none) (last_or none xs)) (xs ++ ys) (i ∷ frees)
  taken-Holds l i e xs ys frees h =
      let nx = first_or ys none in
      let pre = last_or none xs in
      let (front, (g, back)) = Seg-split l.node none xs ((i, e) ∷ ys) none h.seg in
      let (u, mx, my) = Distinct-indices i e xs ys h.listed in
      let (a, mf) = Apart-indices i e xs ys frees h.apart in
      let m =
        subst (Misses i) (sym (indices-append xs ys))
          (Misses-append i (indices xs) (indices ys) mx my) in
      let ns2 = unlinked l.node nx pre in
      let long = length-unlinked l.node nx pre in
      let at = get_elem?-lt l.node i (node_of e nx pre) g in
      let (n, g2) = some-get_elem? ns2 i (omega (arith, long)) in
      let free1 =
        Free-change? l.node l.free frees nx (set_prev pre)
          (first_or-Misses_left ys frees (Apart-back xs ys frees a)) h.chain in
      let free2 =
        Free-change? (change? l.node nx (set_prev pre)) l.free frees pre (set_next nx)
          (last_or-Misses xs none frees tt (Apart-front xs ys frees a)) free1 in
      record {
        seg =
            Seg-change ns2 none (xs ++ ys) none i (set_next l.free) m
              (unlinked-Seg l.node i xs ys u front back);
        first = ap (first_of pre nx) h.first ∙ first_of-rest xs ys (i, e);
        chain = Free-cons ns2 l.free frees i n g2 mf free2;
        listed = u;
        unused = (mf, h.unused);
        apart = Apart-cons_indices i xs ys frees mx my a;
        counted = omega (arith, h.counted, length-insert xs ys (i, e));
        sized = length-change ns2 i (set_next l.free) ∙ long ∙ h.sized;
        all = omega (arith, h.all, length-insert xs ys (i, e));
      }
