-- ===== src/Timers/Runs.antt =====
-- Whole runs of rbtlib/time_process_list.c against a list of timers.
use smart_rabbit_server.Base.{
  ℕ, ◌+◌, ◌%◌, ◌^◌, ◌≡◌, refl, ◌∙◌, subst, Option, none, some, List, [], ◌∷◌, arith,
}
use smart_rabbit_server.Base.Int.{ℤ}
use smart_rabbit_server.Timers.{
  Clock, Node, TmList, init, node_init_num, insert_ex, next_ex, remove,
}
use smart_rabbit_server.Base.Distinct.{run_of}
use smart_rabbit_server.Timers.Segment.{Event}
use smart_rabbit_server.Timers.Storage.{init-Holds}
use smart_rabbit_server.Timers.Walk.{Represents, insert_event}
use smart_rabbit_server.Timers.Insert.{insert_ex-Represents}
use smart_rabbit_server.Timers.Remove.{
  remove_event, due_event, remove-Represents, next_ex-Represents,
}

-- The calls of a client.
pub data Op (A T : Type 0) : Type 0 where
  schedule : ℤ → A → T → Op A T
  take_due : T → Op A T
  cancel : ℕ → Op A T

module _ {A T : Type 0} where
  -- The answers of `tm_list_next_ex` and the list. The loops get the number of timers as fuel.
  abbrev pub run :
      Clock T → Node A T → List (Op A T) → TmList A T → Option (List (ℤ × Option A) × TmList A T)
  run clock blank [] l = some ([], l)
  run clock blank (schedule param argv tm ∷ ops) l =
      elim (insert_ex clock blank l.num param argv tm l) [
        | none ↦ none
        | some l' ↦ run clock blank ops l'
      ]
  run clock blank (take_due tm ∷ ops) l = elim (next_ex clock tm l) [
    | none ↦ none
    | some r ↦ elim (run clock blank ops r.2) [
      | none ↦ none
      | some s ↦ some ((r.0, r.1) ∷ s.0, s.1)
    ]
  ]
  run clock blank (cancel handler ∷ ops) l = elim (remove l.num handler l) [
    | none ↦ none
    | some l' ↦ run clock blank ops l'
  ]

  -- The same on a list of timers, with the next handler.
  abbrev pub run_events :
      Clock T → List (Op A T) → ℕ → List (Event A T) → List (ℤ × Option A) × List (Event A T)
  run_events clock [] handler es = ([], es)
  run_events clock (schedule param argv tm ∷ ops) handler es =
      run_events clock ops ((handler + 1) % 2 ^ 32)
        (insert_event clock (record { handler = handler; param = param; argv = argv; t = tm }) es)
  run_events clock (take_due tm ∷ ops) handler es =
      let d = due_event clock tm es in
      let rest = run_events clock ops handler d.2 in ((d.0, d.1) ∷ rest.0, rest.1)
  run_events clock (cancel gone ∷ ops) handler es =
      run_events clock ops handler (remove_event gone es)

  -- A run returns what the run on a list of timers returns.
  abbrev Follows :
      Option (List (ℤ × Option A) × TmList A T) → List (ℤ × Option A) × List (Event A T) → Type 0
  Follows o r = (l' : TmList A T) × (o ≡ some (r.0, l')) × Represents l' r.1

  run-schedule :
      (clock : Clock T) (blank : Node A T) (param : ℤ) (argv : A) (tm : T) (ops : List (Op A T))
      (l l' : TmList A T)
      → insert_ex clock blank l.num param argv tm l ≡ some l'
      → run clock blank (schedule param argv tm ∷ ops) l ≡ run clock blank ops l'
  run-schedule clock blank param argv tm ops l l' e = rw (e, run)

  run-cancel :
      (clock : Clock T) (blank : Node A T) (handler : ℕ) (ops : List (Op A T)) (l l' : TmList A T)
      → remove l.num handler l ≡ some l'
      → run clock blank (cancel handler ∷ ops) l ≡ run clock blank ops l'
  run-cancel clock blank handler ops l l' e = rw (e, run)

  run-take_due :
      (clock : Clock T) (blank : Node A T) (tm : T) (ops : List (Op A T)) (l l' l'' : TmList A T)
      (n : ℤ) (o : Option A) (outs : List (ℤ × Option A))
      → next_ex clock tm l ≡ some (n, o, l')
      → run clock blank ops l' ≡ some (outs, l'')
      → run clock blank (take_due tm ∷ ops) l ≡ some ((n, o) ∷ outs, l'')
  run-take_due clock blank tm ops l l' l'' n o outs e f = rw (e, run, f)

  run-Follows :
      (clock : Clock T) (blank : Node A T) (ops : List (Op A T)) (l : TmList A T)
      (es : List (Event A T))
      → Represents l es
      → Follows (run clock blank ops l) (run_events clock ops l.handler es)
  run-Follows clock blank [] l es h = (l, refl, h)
  run-Follows clock blank (schedule param argv tm ∷ ops) l es h =
      let (l1, e, k, n) =
        insert_ex-Represents clock blank l.num param argv tm l es h (omega arith) in
      let es1 =
        insert_event clock (record { handler = l.handler; param = param; argv = argv; t = tm })
          es in
      let (l', f, r) =
        subst (λ i. Follows (run clock blank ops l1) (run_events clock ops i es1)) n
          (run-Follows clock blank ops l1 es1 k) in
      (l', run-schedule clock blank param argv tm ops l l1 e ∙ f, r)
  run-Follows clock blank (take_due tm ∷ ops) l es h =
      let (l1, e, k, n) = next_ex-Represents clock tm l es h in
      let d = due_event clock tm es in
      let (l', f, r) =
        subst (λ i. Follows (run clock blank ops l1) (run_events clock ops i d.2)) n
          (run-Follows clock blank ops l1 d.2 k) in
      (
        l',
        run-take_due clock blank tm ops l l1 l' d.0 d.1 (run_events clock ops l.handler d.2).0 e f,
        r,
      )
  run-Follows clock blank (cancel handler ∷ ops) l es h =
      let (l1, e, k, n) = remove-Represents l.num handler l es h (omega arith) in
      let es1 = remove_event handler es in
      let (l', f, r) =
        subst (λ i. Follows (run clock blank ops l1) (run_events clock ops i es1)) n
          (run-Follows clock blank ops l1 es1 k) in
      (l', run-cancel clock blank handler ops l l1 e ∙ f, r)

  pub init-Represents : (blank : Node A T) → Represents (init blank) []
  unfolding Represents
  init-Represents blank = ([], run_of 0 node_init_num, init-Holds blank, refl)

  init-handler : (blank : Node A T) → (init blank).handler ≡ 0
  unfolding init
  init-handler blank = refl

  -- From a new list, every sequence of `tm_list_insert_ex`, `tm_list_next_ex` and `tm_list_remove`
  -- returns, gives the answers that the same sequence gives on a list of timers kept by insertion before
  -- the first timer that is not earlier, and ends with a list that holds the same timers.
  pub run-timers :
      (clock : Clock T) (blank : Node A T) (ops : List (Op A T))
      → (l : TmList A T) × (run clock blank ops (init blank)
          ≡ some ((run_events clock ops 0 []).0, l))
        × Represents l (run_events clock ops 0 []).1
  run-timers clock blank ops =
      subst (λ i. Follows (run clock blank ops (init blank)) (run_events clock ops i []))
        (init-handler blank) (run-Follows clock blank ops (init blank) [] (init-Represents blank))
