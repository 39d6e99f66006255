-- ===== src/Timers/Filled.antt =====
-- `insert` and `tm_list_insert_ex` of rbtlib/time_process_list.c link a node that holds a new timer.
use smart_rabbit_server.Base.{
  ℕ, suc, ◌+◌, ◌≡◌, refl, sym, ap, ◌∙◌, subst, Option, none, some, List, [], ◌∷◌, ◌++◌, get_elem?,
  length, append-nil, arith,
}
use smart_rabbit_server.Base.Distinct.{
  Misses, Misses-append, Distinct, Distinct-insert, Apart, Apart-insert,
}
use smart_rabbit_server.Timers.{
  Node, TmList, change, change?, set_next, set_prev, set_links, insert, append_node,
}
use smart_rabbit_server.Timers.Segment.{
  Event, node_of, indices, first_or, last_or, Seg, get-change_self, get-change_ne, length-change,
  Seg-change, Seg-set_next, Seg-append, Seg-split, indices-append, last_or-snoc,
}
use smart_rabbit_server.Timers.Storage.{Free, Free-change, Holds}
use smart_rabbit_server.Timers.Links.{
  Misses?, first_of, linked, linked-Seg, Misses-indices, Distinct-indices, Apart-indices,
  Apart-front,
}

module _ {A T : Type 0} where
  -- The list holds the timers `cs` and a call has filled the node `at` with the timer `e`.
  pub record Filled (at : ℕ) (e : Event A T) (l : TmList A T) (cs : List (ℕ × Event A T))
      (frees : List ℕ) : Type 0 where
    pub seg : Seg l.node none cs none
    pub first : l.first_ex ≡ first_or cs none
    pub chain : Free l.node l.free frees
    pub listed : Distinct (indices cs)
    pub unused : Distinct frees
    pub apart : Apart (indices cs) frees
    pub counted : l.num ≡ suc (length cs)
    pub sized : length l.node ≡ l.size
    pub all : length cs + 1 + length frees ≡ l.size
    pub nx : Option ℕ
    pub pv : Option ℕ
    pub here : get_elem? l.node at ≡ some (node_of e nx pv)
    pub misses : Misses at (indices cs)
    pub misses_free : Misses at frees

  pub Free-change? :
      (ns : List (Node A T)) (head : Option ℕ) (is : List ℕ) (o : Option ℕ)
      (f : Node A T → Node A T)
      → Misses? o is
      → Free ns head is
      → Free (change? ns o f) head is
  Free-change? ns head is none f m c = c
  Free-change? ns head is (some i) f m c = Free-change ns head is i f m c

  pub length-change? :
      (ns : List (Node A T)) (o : Option ℕ) (f : Node A T → Node A T)
      → length (change? ns o f) ≡ length ns
  length-change? ns none f = refl
  length-change? ns (some i) f = length-change ns i f

  pub last_or-Misses :
      (xs : List (ℕ × Event A T)) (pre : Option ℕ) (ks : List ℕ)
      → Misses? pre ks
      → Apart (indices xs) ks
      → Misses? (last_or pre xs) ks
  last_or-Misses [] pre ks m a = m
  last_or-Misses ((i, e) ∷ xs) pre ks m (n, a) = last_or-Misses xs (some i) ks n a

  pub first_of-last :
      (i : ℕ) (xs : List (ℕ × Event A T)) (new first : Option ℕ)
      → first_of (last_or (some i) xs) new first ≡ first
  first_of-last i [] new first = refl
  first_of-last i ((j, e) ∷ xs) new first = first_of-last j xs new first

  first_of-first :
      (xs ys : List (ℕ × Event A T)) (at : ℕ) (e : Event A T) (c : ℕ × Event A T)
      → first_of (last_or none xs) (some at) (first_or (xs ++ (c ∷ ys)) none)
        ≡ first_or (xs ++ ((at, e) ∷ c ∷ ys)) none
  first_of-first [] ys at e c = refl
  first_of-first ((i, d) ∷ xs) ys at e c = first_of-last i xs (some at) (some i)

  insert-some :
      (l : TmList A T) (p at : ℕ) (d : Event A T) (nx pre : Option ℕ)
      → get_elem? l.node p ≡ some (node_of d nx pre)
      → insert l p at
        ≡ some (record l {
          node = linked l.node p at pre;
          first_ex = first_of pre (some at) l.first_ex;
        })
  unfolding insert
  insert-some l p at d nx pre g = rw (g, insert)

  first_or-more :
      (xs : List (ℕ × Event A T)) (c : ℕ × Event A T) (ys : List (ℕ × Event A T))
      → first_or (xs ++ (c ∷ [])) none ≡ first_or ((xs ++ (c ∷ [])) ++ ys) none
  first_or-more [] c ys = refl
  first_or-more (x ∷ xs) c ys = refl

  pub length-insert :
      (xs ys : List (ℕ × Event A T)) (c : ℕ × Event A T)
      → length (xs ++ (c ∷ ys)) ≡ suc (length (xs ++ ys))
  length-insert [] ys c = refl
  length-insert (x ∷ xs) ys c = ap suc (length-insert xs ys c)

  -- `insert` puts the filled node before the one at `p`.
  pub insert-Holds :
      (l : TmList A T) (p at : ℕ) (d e : Event A T) (xs ys : List (ℕ × Event A T)) (frees : List ℕ)
      → Filled at e l (xs ++ ((p, d) ∷ ys)) frees
      → (l' : TmList A T) × (insert l p at ≡ some l')
        × Holds 0 l' (xs ++ ((at, e) ∷ (p, d) ∷ ys)) frees
  insert-Holds l p at d e xs ys frees h =
      let (front, back) = Seg-split l.node none xs ((p, d) ∷ ys) none h.seg in
      let pre = last_or none xs in
      let (ax, mpf) = Apart-indices p d xs ys frees h.apart in
      let mpre = last_or-Misses xs none frees tt (Apart-front xs ((p, d) ∷ ys) frees h.apart) in
      let m = subst (Misses at) (indices-append xs ((p, d) ∷ ys)) h.misses in
      let ns1 = change l.node at (set_links (some p) pre) in
      let ns2 = change ns1 p (set_prev (some at)) in
      (
        record l { node = linked l.node p at pre; first_ex = first_of pre (some at) l.first_ex },
        insert-some l p at d (first_or ys none) pre back.0,
        record {
          seg = linked-Seg l.node p at d e h.nx h.pv xs ys h.here h.misses h.listed h.seg;
          first = ap (first_of pre (some at)) h.first ∙ first_of-first xs ys at e (p, d);
          chain = Free-change? ns2 l.free frees pre (set_next (some at)) mpre (
              Free-change ns1 l.free frees p (set_prev (some at)) mpf (
                Free-change l.node l.free frees at (set_links (some p) pre) h.misses_free h.chain));
          listed = subst Distinct (sym (indices-append xs ((at, e) ∷ (p, d) ∷ ys))) (
              Distinct-insert at (indices xs) (p ∷ indices ys) m
                (subst Distinct (indices-append xs ((p, d) ∷ ys)) h.listed));
          unused = h.unused;
          apart =
              subst (λ is. Apart is frees) (sym (indices-append xs ((at, e) ∷ (p, d) ∷ ys)))
                (Apart-insert at (indices xs) (p ∷ indices ys) frees h.misses_free
                  (subst (λ is. Apart is frees) (indices-append xs ((p, d) ∷ ys)) h.apart));
          counted = h.counted ∙ sym (length-insert xs ((p, d) ∷ ys) (at, e));
          sized =
              length-change? ns2 pre (set_next (some at))
              ∙ length-change ns1 p (set_prev (some at))
              ∙ length-change l.node at (set_links (some p) pre)
              ∙ h.sized;
          all = omega (arith, h.all, length-insert xs ((p, d) ∷ ys) (at, e));
        },
      )

  -- The last node is followed by the filled one.
  pub append_node-Holds :
      (l : TmList A T) (q at : ℕ) (c e : Event A T) (xs : List (ℕ × Event A T)) (frees : List ℕ)
      → Filled at e l (xs ++ ((q, c) ∷ [])) frees
      → Holds 0 (append_node l q at) ((xs ++ ((q, c) ∷ [])) ++ ((at, e) ∷ [])) frees
  unfolding append_node
  append_node-Holds l q at c e xs frees h =
      let snoc = xs ++ ((q, c) ∷ []) in
      let links = set_links {A = A} {T = T} none (some q) in
      let ns1 = change l.node q (set_next (some at)) in
      let (uq, mq, mqb) = Distinct-indices q c xs [] h.listed in
      let (ax, mqf) = Apart-indices q c xs [] frees h.apart in
      let s1 =
        Seg-change ns1 none snoc (some at) at links h.misses
          (Seg-set_next l.node none xs q c none (some at) mq h.seg) in
      let ne = (Misses-indices at xs ((q, c) ∷ []) h.misses).1.0 in
      let g =
        get-change_self ns1 at (node_of e h.nx h.pv) links
          (get-change_ne l.node q at (set_next (some at)) ne ∙ h.here) in
      record {
        seg = Seg-append (change ns1 at links) none snoc ((at, e) ∷ []) none s1 (
            subst (λ o. Seg (change ns1 at links) o ((at, e) ∷ []) none)
              (sym (last_or-snoc none xs q c)) (g, tt));
        first = h.first ∙ first_or-more xs (q, c) ((at, e) ∷ []);
        chain =
            Free-change ns1 l.free frees at links h.misses_free
              (Free-change l.node l.free frees q (set_next (some at)) mqf h.chain);
        listed = subst Distinct (sym (indices-append snoc ((at, e) ∷ []))) (
            Distinct-insert at (indices snoc) [] (Misses-append at (indices snoc) [] h.misses tt)
              (subst Distinct (sym (append-nil (indices snoc))) h.listed));
        unused = h.unused;
        apart =
            subst (λ is. Apart is frees) (sym (indices-append snoc ((at, e) ∷ [])))
              (Apart-insert at (indices snoc) [] frees h.misses_free
                (subst (λ is. Apart is frees) (sym (append-nil (indices snoc))) h.apart));
        counted =
            h.counted
            ∙ sym (length-insert snoc [] (at, e) ∙ ap (λ t. suc (length t)) (append-nil snoc));
        sized = length-change ns1 at links ∙ length-change l.node q (set_next (some at)) ∙ h.sized;
        all = omega (arith, h.all, length-insert snoc [] (at, e), ap length (append-nil snoc));
      }
