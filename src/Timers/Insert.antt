-- ===== src/Timers/Insert.antt =====
-- `tm_list_insert_ex` of rbtlib/time_process_list.c inserts into a list of timers.
use smart_rabbit_server.Base.{
  ℕ, ◌+◌, ◌%◌, ◌^◌, ◌≤◌, ◌≡◌, refl, sym, ap, ◌∙◌, subst, none, some, List, [], ◌∷◌, get_elem?,
  arith,
}
use smart_rabbit_server.Base.Int.{ℤ}
use smart_rabbit_server.Base.Distinct.{Misses}
use smart_rabbit_server.Timers.{
  Clock, Node, TmList, change, set_links, insert_loop, place, insert_ex, get_free_node,
}
use smart_rabbit_server.Timers.Segment.{
  Event, node_of, indices, events, get-change_self, length-change, Seg-change,
}
use smart_rabbit_server.Timers.Storage.{Free-change, Holds, get_free_node-Gets}
use smart_rabbit_server.Timers.Filled.{Filled}
use smart_rabbit_server.Timers.Walk.{
  insert_event, insert_event-nil, Represents, Ends, insert_loop-Ends,
}

module _ {A T : Type 0} where
  abbrev fill : Event A T → Node A T → Node A T
  fill e n = node_of e n.next n.prev

  -- The list with the node `at` filled, not yet linked.
  abbrev filled : TmList A T → ℕ → Event A T → TmList A T
  filled l at e = record l {
    node = change l.node at (fill e);
    handler = (l.handler + 1) % 2 ^ 32;
    num = l.num + 1;
  }

  filled-Filled :
      (l : TmList A T) (at : ℕ) (n : Node A T) (e : Event A T) (cs : List (ℕ × Event A T))
      (frees : List ℕ)
      → Holds 1 l cs frees
      → Misses at (indices cs)
      → Misses at frees
      → get_elem? l.node at ≡ some n
      → Filled at e (filled l at e) cs frees
  filled-Filled l at n e cs frees h m mf g = record {
    seg = Seg-change l.node none cs none at (fill e) m h.seg;
    first = h.first;
    chain = Free-change l.node l.free frees at (fill e) mf h.chain;
    listed = h.listed;
    unused = h.unused;
    apart = h.apart;
    counted = omega (arith, h.counted);
    sized = length-change l.node at (fill e) ∙ h.sized;
    all = h.all;
    nx = n.next;
    pv = n.prev;
    here = get-change_self l.node at n (fill e) g;
    misses = m;
    misses_free = mf;
  }

  -- The list once `tm_list_insert_ex` has linked its first node.
  abbrev alone : TmList A T → ℕ → TmList A T
  alone l at = record l { node = change l.node at (set_links none none); first_ex = some at }

  place-none :
      (clock : Clock T) (fuel : ℕ) (l : TmList A T) (at : ℕ) (param : ℤ) (argv : A) (tm : T)
      → l.first_ex ≡ none
      → place clock fuel param argv tm at l
        ≡ some (
            alone
              (filled l at (record { handler = l.handler; param = param; argv = argv; t = tm }))
              at)
  unfolding place
  place-none clock fuel l at param argv tm h = rw (h, place)

  place-some :
      (clock : Clock T) (fuel : ℕ) (l : TmList A T) (at p : ℕ) (param : ℤ) (argv : A) (tm : T)
      → l.first_ex ≡ some p
      → place clock fuel param argv tm at l
        ≡ insert_loop clock fuel
            (filled l at (record { handler = l.handler; param = param; argv = argv; t = tm }))
            tm
            at
            p
  unfolding place
  place-some clock fuel l at p param argv tm h = ground arith

  alone-Holds :
      (l : TmList A T) (at : ℕ) (e : Event A T) (frees : List ℕ)
      → Filled at e l [] frees
      → Holds 0 (alone l at) ((at, e) ∷ []) frees
  alone-Holds l at e frees h = record {
    seg = (get-change_self l.node at (node_of e h.nx h.pv) (set_links none none) h.here, tt);
    first = refl;
    chain = Free-change l.node l.free frees at (set_links none none) h.misses_free h.chain;
    listed = (tt, tt);
    unused = h.unused;
    apart = (h.misses_free, tt);
    counted = h.counted;
    sized = length-change l.node at (set_links none none) ∙ h.sized;
    all = omega (arith, h.all);
  }

  place-Ends :
      (clock : Clock T) (fuel : ℕ) (l : TmList A T) (at : ℕ) (n : Node A T) (param : ℤ) (argv : A)
      (tm : T) (cs : List (ℕ × Event A T)) (frees : List ℕ)
      → Holds 1 l cs frees
      → Misses at (indices cs)
      → Misses at frees
      → get_elem? l.node at ≡ some n
      → l.num ≤ fuel
      → Ends (place clock fuel param argv tm at l) ((l.handler + 1) % 2 ^ 32) (
          insert_event clock
            (record { handler = l.handler; param = param; argv = argv; t = tm })
            (events cs))
  unfolding Represents
  place-Ends clock fuel l at n param argv tm [] frees h m mf g lt =
      let e : Event A T = record { handler = l.handler; param = param; argv = argv; t = tm } in
      let k = filled-Filled l at n e [] frees h m mf g in
      (
        alone (filled l at e) at,
        place-none clock fuel l at param argv tm h.first,
        (
          (at, e) ∷ [],
          frees,
          alone-Holds (filled l at e) at e frees k,
          sym (insert_event-nil clock e),
        ),
        refl,
      )
  place-Ends clock fuel l at n param argv tm ((p, d) ∷ ys) frees h m mf g lt =
      let e : Event A T = record { handler = l.handler; param = param; argv = argv; t = tm } in
      let k = filled-Filled l at n e ((p, d) ∷ ys) frees h m mf g in
      let (l', q, r, s) =
        insert_loop-Ends clock fuel (filled l at e) at p d e [] ys frees k
          (omega (arith, h.counted)) in
      (l', place-some clock fuel l at p param argv tm h.first ∙ q, r, s)

  insert_ex-place :
      (clock : Clock T) (blank : Node A T) (fuel : ℕ) (param : ℤ) (argv : A) (tm : T)
      (l l' : TmList A T) (at : ℕ)
      → get_free_node blank l ≡ some (at, l')
      → insert_ex clock blank fuel param argv tm l ≡ place clock fuel param argv tm at l'
  unfolding insert_ex
  insert_ex-place clock blank fuel param argv tm l l' at h = rw (h, insert_ex)

  -- With fuel for as many steps as there are timers, `tm_list_insert_ex` returns, and the list then holds
  -- the new timer, with the next handler, before the first timer that is not earlier, and the rest as
  -- they were, whether or not the array had to grow.
  pub insert_ex-Represents :
      (clock : Clock T) (blank : Node A T) (fuel : ℕ) (param : ℤ) (argv : A) (tm : T)
      (l : TmList A T) (es : List (Event A T))
      → Represents l es
      → l.num ≤ fuel
      → (l' : TmList A T) × (insert_ex clock blank fuel param argv tm l ≡ some l')
        × Represents l' (
            insert_event clock
              (record { handler = l.handler; param = param; argv = argv; t = tm })
              es)
        × (l'.handler ≡ (l.handler + 1) % 2 ^ 32)
  unfolding Represents
  insert_ex-Represents clock blank fuel param argv tm l es (cs, frees, h, q) lt =
      let (at, l1, frees', n, e, k, m, mf, g, same) = get_free_node-Gets blank l cs frees h in
      let (l', p, r, s) =
        place-Ends clock fuel l1 at n param argv tm cs frees' k m mf g
          (omega (arith, h.counted, k.counted)) in
      let event : ℕ → Event A T = λ i. record { handler = i; param = param; argv = argv; t = tm } in
      (
        l',
        insert_ex-place clock blank fuel param argv tm l l1 at e ∙ p,
        subst (λ es. Represents l' (insert_event clock (event l.handler) es)) q
            (subst (λ i. Represents l' (insert_event clock (event i) (events cs))) same r),
        s ∙ ap (λ i. (i + 1) % 2 ^ 32) same,
      )
