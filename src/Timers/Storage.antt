-- ===== src/Timers/Storage.antt =====
-- The node array of rbtlib/time_process_list.c: every node is on the list of timers, on the free
-- list, or in the hands of a call.
use smart_rabbit_server.Base.{
  ℕ, zero, suc, ◌+◌, ◌≤◌, ◌≡◌, refl, sym, ap, ◌∙◌, subst, Option, none, some, List, [], ◌∷◌, ◌++◌,
  get_elem?, length, length-append, append_assoc, get_elem?-lt, get_elem?-append_left,
  get_elem?-append_right, arith,
}
use smart_rabbit_server.Base.Distinct.{
  Misses, Distinct, Apart, Apart-uncons, run_of, run_of-Misses, run_of-Distinct, length-run_of,
}
use smart_rabbit_server.Timers.{
  Node, TmList, node_init_num, free_nodes, init, resize, take_node, get_free_node, change, set_next,
}
use smart_rabbit_server.Timers.Segment.{
  Event, indices, first_or, Seg, node_of, get-change_self, get-change_ne,
}

module _ {A T : Type 0} where
  -- The nodes of the list are linked by `next`, from `head` to `LINK_NULL`.
  abbrev pub Free : List (Node A T) → Option ℕ → List ℕ → Type 0
  Free ns head [] = head ≡ none
  Free ns head (i ∷ is) =
      (head ≡ some i) × ((n : Node A T) × (get_elem? ns i ≡ some n) × Free ns n.next is)

  -- The list holds the timers `cs`, its free nodes are `frees`, and a call holds `held` nodes.
  pub record Holds (held : ℕ) (l : TmList A T) (cs : List (ℕ × Event A T)) (frees : List ℕ)
      : Type 0 where
    pub seg : Seg l.node none cs none
    pub first : l.first_ex ≡ first_or cs none
    pub chain : Free l.node l.free frees
    pub listed : Distinct (indices cs)
    pub unused : Distinct frees
    pub apart : Apart (indices cs) frees
    pub counted : l.num ≡ length cs
    pub sized : length l.node ≡ l.size
    pub all : length cs + held + length frees ≡ l.size

  pub Free-change :
      (ns : List (Node A T)) (head : Option ℕ) (is : List ℕ) (i : ℕ) (f : Node A T → Node A T)
      → Misses i is
      → Free ns head is
      → Free (change ns i f) head is
  Free-change ns head [] i f m c = c
  Free-change ns head (j ∷ is) i f (ne, m) (e, (n, g, c)) =
      (e, (n, get-change_ne ns i j f (λ q. ne (sym q)) ∙ g, Free-change ns n.next is i f m c))

  -- Giving back a node.
  pub Free-cons :
      (ns : List (Node A T)) (head : Option ℕ) (is : List ℕ) (i : ℕ) (n : Node A T)
      → get_elem? ns i ≡ some n
      → Misses i is
      → Free ns head is
      → Free (change ns i (set_next head)) (some i) (i ∷ is)
  Free-cons ns head is i n g m c = (
    refl,
    (
      record n { next = head },
      get-change_self ns i n (set_next head) g,
      Free-change ns head is i (set_next head) m c,
    ),
  )

  Seg-append_nodes :
      (ns ms : List (Node A T)) (prev : Option ℕ) (cs : List (ℕ × Event A T)) (next : Option ℕ)
      → Seg ns prev cs next
      → Seg (ns ++ ms) prev cs next
  Seg-append_nodes ns ms prev [] next s = tt
  Seg-append_nodes ns ms prev ((i, e) ∷ cs) next (g, s) = (
    get_elem?-append_left ns ms i (get_elem?-lt ns i (node_of e (first_or cs next) prev) g) ∙ g,
    Seg-append_nodes ns ms (some i) cs next s,
  )

  Seg-lt :
      (ns : List (Node A T)) (prev : Option ℕ) (cs : List (ℕ × Event A T)) (next : Option ℕ) (j : ℕ)
      → Seg ns prev cs next
      → length ns ≤ j
      → Misses j (indices cs)
  Seg-lt ns prev [] next j s h = tt
  Seg-lt ns prev ((i, e) ∷ cs) next j (g, s) h =
      let l = get_elem?-lt ns i (node_of e (first_or cs next) prev) g in
      ((λ q. absurd (omega arith)), Seg-lt ns (some i) cs next j s h)

  Seg-run_of :
      (ns : List (Node A T)) (prev : Option ℕ) (cs : List (ℕ × Event A T)) (next : Option ℕ)
      (i n : ℕ)
      → Seg ns prev cs next
      → length ns ≤ i
      → Apart (indices cs) (run_of i n)
  Seg-run_of ns prev [] next i n s h = tt
  Seg-run_of ns prev ((j, e) ∷ cs) next i n (g, s) h =
      let l = get_elem?-lt ns j (node_of e (first_or cs next) prev) g in
      (run_of-Misses i n j (omega arith), Seg-run_of ns (some j) cs next i n s h)

  length-free_nodes : (blank : Node A T) (i n : ℕ) → length (free_nodes blank i n) ≡ n
  length-free_nodes blank i zero = refl
  length-free_nodes blank i (suc zero) = refl
  length-free_nodes blank i (suc (suc n)) = ap suc (length-free_nodes blank (i + 1) (suc n))

  -- Whatever stands before them, fresh nodes at their place are a free list.
  Free-run_of :
      (blank : Node A T) (ns : List (Node A T)) (i n : ℕ)
      → length ns ≡ i
      → Free (ns ++ free_nodes blank i (suc n)) (some i) (run_of i (suc n))
  Free-run_of blank ns i zero h = (
    refl,
    (
      record blank { next = none },
      get_elem?-append_right ns (free_nodes blank i 1) i 0 (omega arith),
      refl,
    ),
  )
  Free-run_of blank ns i (suc n) h =
      let n0 : Node A T = record blank { next = some (i + 1) } in
      let e : (ns ++ (n0 ∷ [])) ++ free_nodes blank (i + 1) (suc n)
          ≡ ns ++ free_nodes blank i (suc (suc n)) =
        append_assoc ns (n0 ∷ []) (free_nodes blank (i + 1) (suc n)) in
      (
        refl,
        (
          n0,
          get_elem?-append_right ns (free_nodes blank i (suc (suc n))) i 0 (omega arith),
          subst (λ ms. Free ms (some (i + 1)) (run_of (i + 1) (suc n))) e
              (Free-run_of blank (ns ++ (n0 ∷ [])) (i + 1) n
                (length-append ns (n0 ∷ []) ∙ omega arith)),
        ),
      )

  -- A new list holds no timers and has all its nodes free.
  pub init-Holds : (blank : Node A T) → Holds 0 (init blank) [] (run_of 0 node_init_num)
  unfolding init
  init-Holds blank = record {
    seg = tt;
    first = refl;
    chain = Free-run_of blank [] 0 31 refl;
    listed = tt;
    unused = run_of-Distinct 0 32;
    apart = tt;
    counted = refl;
    sized = length-free_nodes blank 0 32;
    all = omega (arith, length-run_of 0 32);
  }

  -- The free list is used up when `resize` is called.
  resize-Holds :
      (blank : Node A T) (l : TmList A T) (cs : List (ℕ × Event A T))
      → Holds 0 l cs []
      → Holds 0 (resize blank l) cs (run_of l.size node_init_num)
  unfolding resize
  resize-Holds blank l cs h = record {
    seg = Seg-append_nodes l.node (free_nodes blank l.size 32) none cs none h.seg;
    first = h.first;
    chain = Free-run_of blank l.node l.size 31 h.sized;
    listed = h.listed;
    unused = run_of-Distinct l.size 32;
    apart = Seg-run_of l.node none cs none l.size 32 h.seg (omega (arith, h.sized));
    counted = h.counted;
    sized =
        length-append l.node (free_nodes blank l.size 32)
        ∙ omega (arith, length-free_nodes blank l.size 32, h.sized);
    all = omega (arith, h.all, length-run_of l.size 32);
  }

  -- What a call that takes a node gets.
  abbrev pub Gets : Option (ℕ × TmList A T) → TmList A T → List (ℕ × Event A T) → Type 0
  Gets o l cs =
      (at : ℕ) × (l' : TmList A T) × (frees : List ℕ) × (n : Node A T) × (o ≡ some (at, l'))
      × Holds 1 l' cs frees
      × Misses at (indices cs)
      × Misses at frees
      × (get_elem? l'.node at ≡ some n)
      × (l'.handler ≡ l.handler)

  take_node-free :
      (l : TmList A T) (at : ℕ) (n : Node A T)
      → l.free ≡ some at
      → get_elem? l.node at ≡ some n
      → take_node l ≡ some (at, record l { free = n.next })
  unfolding take_node
  take_node-free l at n e g = ground arith

  take_node-Gets :
      (l : TmList A T) (cs : List (ℕ × Event A T)) (i : ℕ) (is : List ℕ)
      → Holds 0 l cs (i ∷ is)
      → Gets (take_node l) l cs
  take_node-Gets l cs i is h =
      let (e, (n, g, c)) = h.chain in
      let (m, d) = h.unused in
      let (a, b) = Apart-uncons (indices cs) is i h.apart in
      (
        i,
        record l { free = n.next },
        is,
        n,
        take_node-free l i n e g,
        record {
          seg = h.seg;
          first = h.first;
          chain = c;
          listed = h.listed;
          unused = d;
          apart = b;
          counted = h.counted;
          sized = h.sized;
          all = omega (arith, h.all);
        },
        a,
        m,
        g,
        refl,
      )

  get_free_node-some :
      (blank : Node A T) (l : TmList A T) (at : ℕ)
      → l.free ≡ some at
      → get_free_node blank l ≡ take_node l
  unfolding get_free_node
  get_free_node-some blank l at e = ground arith

  get_free_node-none :
      (blank : Node A T) (l : TmList A T)
      → l.free ≡ none
      → get_free_node blank l ≡ take_node (resize blank l)
  unfolding get_free_node
  get_free_node-none blank l e = ground arith

  resize-handler : (blank : Node A T) (l : TmList A T) → (resize blank l).handler ≡ l.handler
  unfolding resize
  resize-handler blank l = refl

  -- `get_free_node` always finds a node, growing the array when it has to.
  pub get_free_node-Gets :
      (blank : Node A T) (l : TmList A T) (cs : List (ℕ × Event A T)) (frees : List ℕ)
      → Holds 0 l cs frees
      → Gets (get_free_node blank l) l cs
  get_free_node-Gets blank l cs (i ∷ is) h =
      let (at, l', is', n, e, k, a, m, g, q) = take_node-Gets l cs i is h in
      (at, l', is', n, get_free_node-some blank l i h.chain.0 ∙ e, k, a, m, g, q)
  get_free_node-Gets blank l cs [] h =
      let (at, l', is', n, e, k, a, m, g, q) =
        take_node-Gets (resize blank l) cs l.size (run_of (l.size + 1) 31)
          (resize-Holds blank l cs h) in
      (
        at,
        l',
        is',
        n,
        get_free_node-none blank l h.chain ∙ e,
        k,
        a,
        m,
        g,
        q ∙ resize-handler blank l,
      )
