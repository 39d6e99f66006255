-- ===== src/Timers/Walk.antt =====
-- The loop of `tm_list_insert_ex` of rbtlib/time_process_list.c finds the place of a new timer.
use smart_rabbit_server.Base.{
  ℕ, zero, suc, ◌<◌, ◌≡◌, refl, sym, ap, ◌∙◌, subst, inl, inr, true, false, Bool-cases, Option,
  none, some, List, [], ◌∷◌, ◌++◌, if◌then◌else◌, get_elem?, length, append_assoc, arith,
}
use smart_rabbit_server.Timers.{Clock, TmList, insert, append_node, insert_loop}
use smart_rabbit_server.Timers.Segment.{
  Event, node_of, events, first_or, last_or, Seg-split, events-append,
}
use smart_rabbit_server.Timers.Storage.{Holds}
use smart_rabbit_server.Timers.Filled.{Filled, insert-Holds, append_node-Holds}

module _ {A T : Type 0} where
  -- A new timer goes before the first one that is not earlier.
  unfoldable pub insert_event : Clock T → Event A T → List (Event A T) → List (Event A T)
  insert_event clock e [] = e ∷ []
  insert_event clock e (c ∷ cs) =
      let rest = insert_event clock e cs in if clock.ge c.t e.t then e ∷ c ∷ cs else c ∷ rest

  -- The list holds the timers `es`, each in a node of its own.
  unfoldable pub Represents : TmList A T → List (Event A T) → Type 0
  Represents l es =
      (cs : List (ℕ × Event A T)) × (frees : List ℕ) × Holds 0 l cs frees × (events cs ≡ es)

  -- A call returns, with a list that holds the timers `es`.
  abbrev pub Ends : Option (TmList A T) → ℕ → List (Event A T) → Type 0
  Ends o handler es = (l' : TmList A T) × (o ≡ some l') × Represents l' es × (l'.handler ≡ handler)

  pub insert_event-ge :
      (clock : Clock T) (e c : Event A T) (cs : List (Event A T))
      → clock.ge c.t e.t ≡ true
      → insert_event clock e (c ∷ cs) ≡ e ∷ c ∷ cs
  unfolding insert_event
  insert_event-ge clock e c cs h = rw h

  pub insert_event-lt :
      (clock : Clock T) (e c : Event A T) (cs : List (Event A T))
      → clock.ge c.t e.t ≡ false
      → insert_event clock e (c ∷ cs) ≡ c ∷ insert_event clock e cs
  unfolding insert_event
  insert_event-lt clock e c cs h = rw h

  pub insert_event-nil : (clock : Clock T) (e : Event A T) → insert_event clock e [] ≡ e ∷ []
  unfolding insert_event
  insert_event-nil clock e = refl

  insert_loop-ge :
      (clock : Clock T) (fuel : ℕ) (l : TmList A T) (tm : T) (at p : ℕ) (d : Event A T)
      (nx pre : Option ℕ)
      → get_elem? l.node p ≡ some (node_of d nx pre)
      → clock.ge d.t tm ≡ true
      → insert_loop clock (suc fuel) l tm at p ≡ insert l p at
  unfolding insert_loop
  insert_loop-ge clock fuel l tm at p d nx pre g h = rw (g, h, insert_loop)

  insert_loop-last :
      (clock : Clock T) (fuel : ℕ) (l : TmList A T) (tm : T) (at p : ℕ) (d : Event A T)
      (pre : Option ℕ)
      → get_elem? l.node p ≡ some (node_of d none pre)
      → clock.ge d.t tm ≡ false
      → insert_loop clock (suc fuel) l tm at p ≡ some (append_node l p at)
  unfolding insert_loop
  insert_loop-last clock fuel l tm at p d pre g h = rw (g, h, insert_loop)

  insert_loop-next :
      (clock : Clock T) (fuel : ℕ) (l : TmList A T) (tm : T) (at p q : ℕ) (d : Event A T)
      (pre : Option ℕ)
      → get_elem? l.node p ≡ some (node_of d (some q) pre)
      → clock.ge d.t tm ≡ false
      → insert_loop clock (suc fuel) l tm at p ≡ insert_loop clock fuel l tm at q
  unfolding insert_loop
  insert_loop-next clock fuel l tm at p q d pre g h = rw (g, h, insert_loop)

  insert-handler : (l l' : TmList A T) (p at : ℕ) → insert l p at ≡ some l' → l'.handler ≡ l.handler
  unfolding insert
  insert-handler l l' p at h = ground arith

  append_node-handler : (l : TmList A T) (p at : ℕ) → (append_node l p at).handler ≡ l.handler
  unfolding append_node
  append_node-handler l p at = refl

  insert_loop-here :
      (clock : Clock T) (fuel : ℕ) (l : TmList A T) (at p : ℕ) (d e : Event A T)
      (xs ys : List (ℕ × Event A T)) (frees : List ℕ)
      → Filled at e l (xs ++ ((p, d) ∷ ys)) frees
      → clock.ge d.t e.t ≡ true
      → Ends
          (insert_loop clock (suc fuel) l e.t at p)
          l.handler
          (events xs ++ insert_event clock e (d ∷ events ys))
  unfolding Represents
  insert_loop-here clock fuel l at p d e xs ys frees h t =
      let (l', q, k) = insert-Holds l p at d e xs ys frees h in
      let g = (Seg-split l.node none xs ((p, d) ∷ ys) none h.seg).1.0 in
      (
        l',
        insert_loop-ge clock fuel l e.t at p d (first_or ys none) (last_or none xs) g t ∙ q,
        (
          xs ++ ((at, e) ∷ (p, d) ∷ ys),
          frees,
          k,
          events-append xs ((at, e) ∷ (p, d) ∷ ys)
              ∙ ap (λ es. events xs ++ es) (sym (insert_event-ge clock e d (events ys) t)),
        ),
        insert-handler l l' p at q,
      )

  insert_loop-end :
      (clock : Clock T) (fuel : ℕ) (l : TmList A T) (at p : ℕ) (d e : Event A T)
      (xs : List (ℕ × Event A T)) (frees : List ℕ)
      → Filled at e l (xs ++ ((p, d) ∷ [])) frees
      → clock.ge d.t e.t ≡ false
      → Ends
          (insert_loop clock (suc fuel) l e.t at p)
          l.handler
          (events xs ++ insert_event clock e (d ∷ []))
  unfolding Represents
  insert_loop-end clock fuel l at p d e xs frees h f =
      let g = (Seg-split l.node none xs ((p, d) ∷ []) none h.seg).1.0 in
      let shift = append_assoc (events xs) (d ∷ []) (e ∷ []) in
      let two = insert_event-lt clock e d [] f ∙ ap (λ es. d ∷ es) (insert_event-nil clock e) in
      (
        append_node l p at,
        insert_loop-last clock fuel l e.t at p d (last_or none xs) g f,
        (
          (xs ++ ((p, d) ∷ [])) ++ ((at, e) ∷ []),
          frees,
          append_node-Holds l p at d e xs frees h,
          events-append (xs ++ ((p, d) ∷ [])) ((at, e) ∷ [])
              ∙ ap (λ es. es ++ (e ∷ [])) (events-append xs ((p, d) ∷ []))
              ∙ shift
              ∙ ap (λ es. events xs ++ es) (sym two),
        ),
        append_node-handler l p at,
      )

  -- The loop, from the node of the timer `d`, which comes after `xs`.
  pub insert_loop-Ends :
      (clock : Clock T) (fuel : ℕ) (l : TmList A T) (at p : ℕ) (d e : Event A T)
      (xs ys : List (ℕ × Event A T)) (frees : List ℕ)
      → Filled at e l (xs ++ ((p, d) ∷ ys)) frees
      → length ys < fuel
      → Ends
          (insert_loop clock fuel l e.t at p)
          l.handler
          (events xs ++ insert_event clock e (d ∷ events ys))
  insert_loop-Ends clock zero l at p d e xs ys frees h lt = absurd (omega arith)
  insert_loop-Ends clock (suc fuel) l at p d e xs [] frees h lt =
      elim (Bool-cases (clock.ge d.t e.t)) [
        | inl t ↦ insert_loop-here clock fuel l at p d e xs [] frees h t
        | inr f ↦ insert_loop-end clock fuel l at p d e xs frees h f
      ]
  insert_loop-Ends clock (suc fuel) l at p d e xs ((q, c) ∷ ys) frees h lt =
      elim (Bool-cases (clock.ge d.t e.t)) [
        | inl t ↦ insert_loop-here clock fuel l at p d e xs ((q, c) ∷ ys) frees h t
        | inr f ↦
            let g = (Seg-split l.node none xs ((p, d) ∷ (q, c) ∷ ys) none h.seg).1.0 in
            let xs' = xs ++ ((p, d) ∷ []) in
            let moved =
              subst (λ cs. Filled at e l cs frees)
                (sym (append_assoc xs ((p, d) ∷ []) ((q, c) ∷ ys))) h in
            let (l', r, k, n) =
              insert_loop-Ends clock fuel l at q c e xs' ys frees moved (omega arith) in
            let rest = insert_event clock e (c ∷ events ys) in
            let es =
              ap (λ fs. fs ++ rest) (events-append xs ((p, d) ∷ []))
              ∙ append_assoc (events xs) (d ∷ []) rest
              ∙ ap (λ fs. events xs ++ fs) (sym (insert_event-lt clock e d (c ∷ events ys) f)) in
            (
              l',
              insert_loop-next clock fuel l e.t at p q d (last_or none xs) g f ∙ r,
              subst (Represents l') es k,
              n,
            )
      ]
