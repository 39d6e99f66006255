-- ===== src/Timers/Remove.antt =====
-- `tm_list_next_ex` and `tm_list_remove` of rbtlib/time_process_list.c take a timer out of the list.
use smart_rabbit_server.Base.{
  ℕ, zero, suc, ◌≤◌, ◌≡◌, refl, sym, ap, ◌∙◌, subst, inl, inr, true, false, Bool-cases, Option,
  none, some, List, [], ◌∷◌, ◌++◌, ◌==◌, if◌then◌else◌, get_elem?, length, append_assoc, arith,
}
use smart_rabbit_server.Base.Int.{ℤ, negsuc}
use smart_rabbit_server.Timers.{Clock, TmList, next_ex, remove_at, remove_loop, remove}
use smart_rabbit_server.Timers.Segment.{
  Event, node_of, events, first_or, last_or, Seg-split, events-append,
}
use smart_rabbit_server.Timers.Storage.{Holds}
use smart_rabbit_server.Timers.Unlink.{taken, taken-Holds, remove_at-some}
use smart_rabbit_server.Timers.Walk.{Represents}

module _ {A T : Type 0} where
  -- The first timer with the handler goes.
  unfoldable pub remove_event : ℕ → List (Event A T) → List (Event A T)
  remove_event handler [] = []
  remove_event handler (e ∷ es) =
      let rest = remove_event handler es in if e.handler == handler then es else e ∷ rest

  -- What is handed out at the time `tm`, and the timers that stay.
  unfoldable pub due_event : Clock T → T → List (Event A T) → ℤ × Option A × List (Event A T)
  due_event clock tm [] = (negsuc 0, none, [])
  due_event clock tm (e ∷ es) =
      if clock.gt e.t tm then (negsuc 0, none, e ∷ es) else (e.param, some e.argv, es)

  remove_loop-here :
      (fuel : ℕ) (l : TmList A T) (handler at : ℕ) (e : Event A T) (next prev : Option ℕ)
      → get_elem? l.node at ≡ some (node_of e next prev)
      → (e.handler == handler) ≡ true
      → remove_loop (suc fuel) l handler (some at) ≡ remove_at l at
  unfolding remove_loop
  remove_loop-here fuel l handler at e next prev g h = rw (g, h, remove_loop)

  remove_loop-next :
      (fuel : ℕ) (l : TmList A T) (handler at : ℕ) (e : Event A T) (next prev : Option ℕ)
      → get_elem? l.node at ≡ some (node_of e next prev)
      → (e.handler == handler) ≡ false
      → remove_loop (suc fuel) l handler (some at) ≡ remove_loop fuel l handler next
  unfolding remove_loop
  remove_loop-next fuel l handler at e next prev g h = rw (g, h, remove_loop)

  remove_loop-none :
      (fuel : ℕ) (l : TmList A T) (handler : ℕ) → remove_loop fuel l handler none ≡ some l
  unfolding remove_loop
  remove_loop-none zero l handler = refl
  remove_loop-none (suc fuel) l handler = refl

  pub remove_event-here :
      (handler : ℕ) (e : Event A T) (es : List (Event A T))
      → (e.handler == handler) ≡ true
      → remove_event handler (e ∷ es) ≡ es
  unfolding remove_event
  remove_event-here handler e es h = rw h

  pub remove_event-next :
      (handler : ℕ) (e : Event A T) (es : List (Event A T))
      → (e.handler == handler) ≡ false
      → remove_event handler (e ∷ es) ≡ e ∷ remove_event handler es
  unfolding remove_event
  remove_event-next handler e es h = rw h

  pub remove_event-nil : (handler : ℕ) → remove_event handler [] ≡ []
  unfolding remove_event
  remove_event-nil handler = refl

  -- The loop, from the first timer of `ys`.
  remove_loop-Represents :
      (fuel : ℕ) (l : TmList A T) (handler : ℕ) (xs ys : List (ℕ × Event A T)) (frees : List ℕ)
      → Holds 0 l (xs ++ ys) frees
      → length ys ≤ fuel
      → (l' : TmList A T) × (remove_loop fuel l handler (first_or ys none) ≡ some l')
        × Represents l' (events xs ++ remove_event handler (events ys))
        × (l'.handler ≡ l.handler)
  unfolding Represents
  remove_loop-Represents fuel l handler xs [] frees h lt = (
    l,
    remove_loop-none fuel l handler,
    (
      xs ++ [],
      frees,
      h,
      events-append xs [] ∙ ap (λ es. events xs ++ es) (sym (remove_event-nil handler)),
    ),
    refl,
  )
  remove_loop-Represents zero l handler xs ((i, e) ∷ ys) frees h lt = absurd (omega arith)
  remove_loop-Represents (suc fuel) l handler xs ((i, e) ∷ ys) frees h lt =
      let g = (Seg-split l.node none xs ((i, e) ∷ ys) none h.seg).1.0 in
      let nx = first_or ys none in
      let pre = last_or none xs in
      elim (Bool-cases (e.handler == handler)) [
        | inl t ↦ (
          taken l i nx pre,
          remove_loop-here fuel l handler i e nx pre g t ∙ remove_at-some l i e nx pre g,
          (
            xs ++ ys,
            i ∷ frees,
            taken-Holds l i e xs ys frees h,
            events-append xs ys
                ∙ ap (λ es. events xs ++ es) (sym (remove_event-here handler e (events ys) t)),
          ),
          refl,
        )
        | inr f ↦
            let moved =
              subst (λ cs. Holds 0 l cs frees) (sym (append_assoc xs ((i, e) ∷ []) ys)) h in
            let (l', q, k, n) =
              remove_loop-Represents fuel l handler (xs ++ ((i, e) ∷ [])) ys frees moved
                (omega arith) in
            let rest = remove_event handler (events ys) in
            let es =
              ap (λ fs. fs ++ rest) (events-append xs ((i, e) ∷ []))
              ∙ append_assoc (events xs) (e ∷ []) rest
              ∙ ap (λ fs. events xs ++ fs) (sym (remove_event-next handler e (events ys) f)) in
            (l', remove_loop-next fuel l handler i e nx pre g f ∙ q, subst (Represents l') es k, n)
      ]

  remove-loop :
      (fuel : ℕ) (l : TmList A T) (handler : ℕ) (o : Option ℕ)
      → l.first_ex ≡ o
      → remove fuel handler l ≡ remove_loop fuel l handler o
  unfolding remove
  remove-loop fuel l handler o h = ap (remove_loop fuel l handler) h

  -- With fuel for as many steps as there are timers, `tm_list_remove` returns, and the first timer with
  -- the handler is gone, if there is one; the others stay as they were.
  pub remove-Represents :
      (fuel handler : ℕ) (l : TmList A T) (es : List (Event A T))
      → Represents l es
      → l.num ≤ fuel
      → (l' : TmList A T) × (remove fuel handler l ≡ some l')
        × Represents l' (remove_event handler es)
        × (l'.handler ≡ l.handler)
  unfolding Represents
  remove-Represents fuel handler l es (cs, frees, h, q) lt =
      let (l', r, k, n) =
        remove_loop-Represents fuel l handler [] cs frees h (omega (arith, h.counted)) in
      (
        l',
        remove-loop fuel l handler (first_or cs none) h.first ∙ r,
        subst (λ es. Represents l' (remove_event handler es)) q k,
        n,
      )

  next_ex-none :
      (clock : Clock T) (tm : T) (l : TmList A T)
      → l.first_ex ≡ none
      → next_ex clock tm l ≡ some (negsuc 0, none, l)
  unfolding next_ex
  next_ex-none clock tm l h = ground arith

  next_ex-gt :
      (clock : Clock T) (tm : T) (l : TmList A T) (i : ℕ) (e : Event A T) (next : Option ℕ)
      → l.first_ex ≡ some i
      → get_elem? l.node i ≡ some (node_of e next none)
      → clock.gt e.t tm ≡ true
      → next_ex clock tm l ≡ some (negsuc 0, none, l)
  unfolding next_ex
  next_ex-gt clock tm l i e next f g h = ground arith

  next_ex-due :
      (clock : Clock T) (tm : T) (l : TmList A T) (i : ℕ) (e : Event A T) (next : Option ℕ)
      → l.first_ex ≡ some i
      → get_elem? l.node i ≡ some (node_of e next none)
      → clock.gt e.t tm ≡ false
      → next_ex clock tm l ≡ some (e.param, some e.argv, taken l i next none)
  unfolding next_ex
  next_ex-due clock tm l i e next f g h = ground arith

  pub due_event-gt :
      (clock : Clock T) (tm : T) (e : Event A T) (es : List (Event A T))
      → clock.gt e.t tm ≡ true
      → due_event clock tm (e ∷ es) ≡ (negsuc 0, none, e ∷ es)
  unfolding due_event
  due_event-gt clock tm e es h = rw h

  pub due_event-due :
      (clock : Clock T) (tm : T) (e : Event A T) (es : List (Event A T))
      → clock.gt e.t tm ≡ false
      → due_event clock tm (e ∷ es) ≡ (e.param, some e.argv, es)
  unfolding due_event
  due_event-due clock tm e es h = rw h

  -- What a call of `tm_list_next_ex` gets: the answer and the timers that stay.
  abbrev Gives : Option (ℤ × Option A × TmList A T) → ℕ → ℤ × Option A × List (Event A T) → Type 0
  Gives o handler d =
      (l' : TmList A T) × (o ≡ some (d.0, d.1, l')) × Represents l' d.2 × (l'.handler ≡ handler)

  next_ex-cons :
      (clock : Clock T) (tm : T) (l : TmList A T) (i : ℕ) (e : Event A T)
      (cs : List (ℕ × Event A T)) (frees : List ℕ)
      → Holds 0 l ((i, e) ∷ cs) frees
      → Gives (next_ex clock tm l) l.handler (due_event clock tm (e ∷ events cs))
  unfolding Represents
  next_ex-cons clock tm l i e cs frees h =
      let g = h.seg.0 in
      let nx = first_or cs none in
      elim (Bool-cases (clock.gt e.t tm)) [
        | inl t ↦
            subst (Gives (next_ex clock tm l) l.handler)
              (sym (due_event-gt clock tm e (events cs) t))
              (l, next_ex-gt clock tm l i e nx h.first g t, ((i, e) ∷ cs, frees, h, refl), refl)
        | inr f ↦
            subst (Gives (next_ex clock tm l) l.handler)
              (sym (due_event-due clock tm e (events cs) f))
              (
                taken l i nx none,
                next_ex-due clock tm l i e nx h.first g f,
                (cs, i ∷ frees, taken-Holds l i e [] cs frees h, refl),
                refl,
              )
      ]

  pub due_event-nil : (clock : Clock T) (tm : T) → due_event clock tm [] ≡ (negsuc 0, none, [])
  unfolding due_event
  due_event-nil clock tm = refl

  -- `tm_list_next_ex` hands out the first timer and takes it off the list, unless its time is later than
  -- the time given or there is no timer: then it returns -1 and the list is as it was.
  pub next_ex-Represents :
      (clock : Clock T) (tm : T) (l : TmList A T) (es : List (Event A T))
      → Represents l es
      → Gives (next_ex clock tm l) l.handler (due_event clock tm es)
  unfolding Represents
  next_ex-Represents clock tm l es ([], frees, h, q) =
      subst (λ es. Gives (next_ex clock tm l) l.handler (due_event clock tm es)) q
        (subst (Gives (next_ex clock tm l) l.handler) (sym (due_event-nil clock tm))
          (l, next_ex-none clock tm l h.first, ([], frees, h, refl), refl))
  next_ex-Represents clock tm l es ((i, e) ∷ cs, frees, h, q) =
      subst (λ es. Gives (next_ex clock tm l) l.handler (due_event clock tm es)) q
        (next_ex-cons clock tm l i e cs frees h)
