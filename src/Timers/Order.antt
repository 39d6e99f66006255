-- ===== src/Timers/Order.antt =====
-- The order in which rbtlib/time_process_list.c hands out its timers.
use smart_rabbit_server.Base.{
  ℕ, zero, suc, ◌+◌, ◌%◌, ◌^◌, ◌≡◌, refl, sym, ap, ◌∙◌, subst, inl, inr, true, false, Bool-cases,
  Option, none, some, List, [], ◌∷◌, ◌==◌, length, map, arith,
}
use smart_rabbit_server.Base.Int.{ℤ}
use smart_rabbit_server.Timers.{Clock, Node, TmList, init, next_ex}
use smart_rabbit_server.Timers.Segment.{Event}
use smart_rabbit_server.Timers.Walk.{
  Represents, insert_event, insert_event-ge, insert_event-lt, insert_event-nil,
}
use smart_rabbit_server.Timers.Remove.{
  remove_event, remove_event-here, remove_event-next, remove_event-nil, due_event, due_event-nil,
  due_event-gt, due_event-due, next_ex-Represents,
}
use smart_rabbit_server.Timers.Runs.{Op, schedule, take_due, cancel, run, run_events, run-timers}

ge-flip : {T : Type 0} (clock : Clock T) (s t : T) → clock.ge s t ≡ false → clock.ge t s ≡ true
ge-flip clock s t h = elim (clock.ge_total s t) [ inl y ↦ absurd (ground arith) | inr y ↦ y ]

module _ {A T : Type 0} where
  -- No timer of the list is earlier than `t`.
  abbrev pub From : Clock T → T → List (Event A T) → Type 0
  From clock t [] = Unit
  From clock t (e ∷ es) = (clock.ge e.t t ≡ true) × From clock t es

  -- The timers are in the order of their times.
  abbrev pub Sorted : Clock T → List (Event A T) → Type 0
  Sorted clock [] = Unit
  Sorted clock (e ∷ es) = From clock e.t es × Sorted clock es

  From-trans :
      (clock : Clock T) (s t : T) (es : List (Event A T))
      → clock.ge s t ≡ true
      → From clock s es
      → From clock t es
  From-trans clock s t [] h f = tt
  From-trans clock s t (e ∷ es) h (g, f) = (clock.ge_trans e.t s t g h, From-trans clock s t es h f)

  From-insert :
      (clock : Clock T) (t : T) (e : Event A T) (es : List (Event A T))
      → clock.ge e.t t ≡ true
      → From clock t es
      → From clock t (insert_event clock e es)
  From-insert clock t e [] h f = subst (From clock t) (sym (insert_event-nil clock e)) (h, tt)
  From-insert clock t e (c ∷ cs) h (g, f) = elim (Bool-cases (clock.ge c.t e.t)) [
    | inl y ↦ subst (From clock t) (sym (insert_event-ge clock e c cs y)) (h, (g, f))
    | inr n ↦
        subst (From clock t) (sym (insert_event-lt clock e c cs n))
          (g, From-insert clock t e cs h f)
  ]

  insert_event-Sorted :
      (clock : Clock T) (e : Event A T) (es : List (Event A T))
      → Sorted clock es
      → Sorted clock (insert_event clock e es)
  insert_event-Sorted clock e [] s = subst (Sorted clock) (sym (insert_event-nil clock e)) (tt, tt)
  insert_event-Sorted clock e (c ∷ cs) (f, s) = elim (Bool-cases (clock.ge c.t e.t)) [
    | inl y ↦
        subst (Sorted clock) (sym (insert_event-ge clock e c cs y))
          ((y, From-trans clock c.t e.t cs y f), (f, s))
    | inr n ↦
        subst (Sorted clock) (sym (insert_event-lt clock e c cs n))
          (From-insert clock c.t e cs (ge-flip clock c.t e.t n) f, insert_event-Sorted clock e cs s)
  ]

  From-remove :
      (clock : Clock T) (t : T) (handler : ℕ) (es : List (Event A T))
      → From clock t es
      → From clock t (remove_event handler es)
  From-remove clock t handler [] f = subst (From clock t) (sym (remove_event-nil handler)) tt
  From-remove clock t handler (e ∷ es) (g, f) = elim (Bool-cases (e.handler == handler)) [
    | inl y ↦ subst (From clock t) (sym (remove_event-here handler e es y)) f
    | inr n ↦
        subst (From clock t) (sym (remove_event-next handler e es n))
          (g, From-remove clock t handler es f)
  ]

  remove_event-Sorted :
      (clock : Clock T) (handler : ℕ) (es : List (Event A T))
      → Sorted clock es
      → Sorted clock (remove_event handler es)
  remove_event-Sorted clock handler [] s = subst (Sorted clock) (sym (remove_event-nil handler)) tt
  remove_event-Sorted clock handler (e ∷ es) (f, s) = elim (Bool-cases (e.handler == handler)) [
    | inl y ↦ subst (Sorted clock) (sym (remove_event-here handler e es y)) s
    | inr n ↦
        subst (Sorted clock) (sym (remove_event-next handler e es n))
          (From-remove clock e.t handler es f, remove_event-Sorted clock handler es s)
  ]

  due_event-Sorted :
      (clock : Clock T) (tm : T) (es : List (Event A T))
      → Sorted clock es
      → Sorted clock (due_event clock tm es).2
  due_event-Sorted clock tm [] s = subst (λ d. Sorted clock d.2) (sym (due_event-nil clock tm)) tt
  due_event-Sorted clock tm (e ∷ es) s = elim (Bool-cases (clock.gt e.t tm)) [
    | inl y ↦ subst (λ d. Sorted clock d.2) (sym (due_event-gt clock tm e es y)) s
    | inr n ↦ subst (λ d. Sorted clock d.2) (sym (due_event-due clock tm e es n)) s.1
  ]

  run_events-Sorted :
      (clock : Clock T) (ops : List (Op A T)) (handler : ℕ) (es : List (Event A T))
      → Sorted clock es
      → Sorted clock (run_events clock ops handler es).1
  run_events-Sorted clock [] handler es s = s
  run_events-Sorted clock (schedule param argv tm ∷ ops) handler es s =
      let e : Event A T = record { handler = handler; param = param; argv = argv; t = tm } in
      run_events-Sorted clock ops ((handler + 1) % 2 ^ 32) (insert_event clock e es)
        (insert_event-Sorted clock e es s)
  run_events-Sorted clock (take_due tm ∷ ops) handler es s =
      run_events-Sorted clock ops handler (due_event clock tm es).2 (due_event-Sorted clock tm es s)
  run_events-Sorted clock (cancel gone ∷ ops) handler es s =
      run_events-Sorted clock ops handler (remove_event gone es)
        (remove_event-Sorted clock gone es s)

  -- Whatever `tm_list_insert_ex`, `tm_list_next_ex` and `tm_list_remove` were called on a new list, the
  -- list holds its timers in the order of their times, so the first one, which `tm_list_next_ex` hands
  -- out, is the earliest.
  pub run-Sorted :
      (clock : Clock T) (blank : Node A T) (ops : List (Op A T))
      → (outs : List (ℤ × Option A)) × (l : TmList A T) × (es : List (Event A T)) × (run clock blank
            ops
            (init blank)
          ≡ some (outs, l))
        × Represents l es
        × Sorted clock es
  run-Sorted clock blank ops =
      let (l, e, r) = run-timers clock blank ops in
      let d = run_events clock ops 0 [] in (d.0, l, d.1, e, r, run_events-Sorted clock ops 0 [] tt)

  -- No timer of the list is later than `tm`.
  abbrev pub UpTo : Clock T → T → List (Event A T) → Type 0
  UpTo clock tm [] = Unit
  UpTo clock tm (e ∷ es) = (clock.gt e.t tm ≡ false) × UpTo clock tm es

  -- As many calls of `tm_list_next_ex`.
  abbrev pub drain : Clock T → T → ℕ → TmList A T → Option (List (ℤ × Option A) × TmList A T)
  drain clock tm zero l = some ([], l)
  drain clock tm (suc n) l = elim (next_ex clock tm l) [
    | none ↦ none
    | some r ↦ elim (drain clock tm n r.2) [ none ↦ none | some s ↦ some ((r.0, r.1) ∷ s.0, s.1) ]
  ]

  abbrev pub answer : Event A T → ℤ × Option A
  answer e = (e.param, some e.argv)

  drain-suc :
      (clock : Clock T) (tm : T) (n : ℕ) (l l' l'' : TmList A T) (p : ℤ) (o : Option A)
      (outs : List (ℤ × Option A))
      → next_ex clock tm l ≡ some (p, o, l')
      → drain clock tm n l' ≡ some (outs, l'')
      → drain clock tm (suc n) l ≡ some ((p, o) ∷ outs, l'')
  drain-suc clock tm n l l' l'' p o outs e f = rw (e, drain, f)

  -- Once no timer of a list is later than the time, as many calls of `tm_list_next_ex` as there are
  -- timers hand out every one of them, each once and in the order of the list, and leave an empty list.
  pub drain-all :
      (clock : Clock T) (tm : T) (l : TmList A T) (es : List (Event A T))
      → Represents l es
      → UpTo clock tm es
      → (l' : TmList A T) × (drain clock tm (length es) l ≡ some (map answer es, l'))
        × Represents l' []
  drain-all clock tm l [] r u = (l, refl, r)
  drain-all clock tm l (e ∷ es) r (g, u) =
      let h = due_event-due clock tm e es g in
      let (l1, q, k, n) = next_ex-Represents clock tm l (e ∷ es) r in
      let (l2, f, z) = drain-all clock tm l1 es (subst (λ d. Represents l1 d.2) h k) u in
      (
        l2,
        drain-suc clock tm (length es) l l1 l2 e.param (some e.argv) (map answer es)
            (q ∙ ap (λ d. some (d.0, d.1, l1)) h) f,
        z,
      )
