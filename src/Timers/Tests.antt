-- ===== src/Timers/Tests.antt =====
-- rbtlib/time_process_list.c with times that are numbers.
use smart_rabbit_server.Base.{
  ℕ, ◌≡◌, refl, ◌⊎◌, inl, inr, true, not, Bool-cases, Option, none, some, List, [], ◌∷◌, ltb, leb,
  arith,
}
use smart_rabbit_server.Base.Int.{ℤ, pos, negsuc}
use smart_rabbit_server.Timers.{Clock, Node, TmList, init}
use smart_rabbit_server.Timers.Segment.{Event}
use smart_rabbit_server.Timers.Walk.{Represents, insert_event}
use smart_rabbit_server.Timers.Remove.{due_event, remove_event}
use smart_rabbit_server.Timers.Runs.{Op, schedule, take_due, cancel, run, run_events, run-timers}
use smart_rabbit_server.Timers.Order.{Sorted, drain, run-Sorted, drain-all}

not-leb : (s t : ℕ) → ltb t s ≡ not (leb s t)
not-leb s t = ground arith

leb_total : (s t : ℕ) → (leb t s ≡ true) ⊎ (leb s t ≡ true)
leb_total s t = elim (Bool-cases (leb t s)) [ inl y ↦ inl y | inr n ↦ inr (ground arith) ]

leb_trans : (s t u : ℕ) → leb t s ≡ true → leb u t ≡ true → leb u s ≡ true
leb_trans s t u g h = ground arith

abbrev number_clock : Clock ℕ
number_clock = record {
  ge = λ s t. leb t s;
  gt = λ s t. ltb t s;
  gt_lem = not-leb;
  ge_total = leb_total;
  ge_trans = leb_trans;
}

-- A fresh node; the array of arguments holds numbers.
abbrev blank : Node ℕ ℕ
blank = record { handler = 0; param = pos 0; argv = 0; t = 0; next = none; prev = none }

-- Three timers out of order, one of them cancelled, and one that is due.
abbrev calls : List (Op ℕ ℕ)
calls =
    schedule (pos 7) 70 30
    ∷ schedule (pos 8) 80 10
    ∷ schedule (pos 9) 90 20
    ∷ cancel 2
    ∷ take_due 5
    ∷ take_due 10
    ∷ []

calls-outs : (run_events number_clock calls 0 []).0 ≡ (negsuc 0, none) ∷ (pos 8, some 80) ∷ []
unfolding insert_event remove_event due_event
calls-outs = refl

abbrev left : List (Event ℕ ℕ)
left = record { handler = 0; param = pos 7; argv = 70; t = 30 } ∷ []

calls-left : (run_events number_clock calls 0 []).1 ≡ left
unfolding insert_event remove_event due_event
calls-left = refl

run-timers_example :
    (l : TmList ℕ ℕ) × (run number_clock blank calls (init blank)
      ≡ some ((run_events number_clock calls 0 []).0, l))
    × Represents l (run_events number_clock calls 0 []).1
run-timers_example = run-timers number_clock blank calls

run-Sorted_example :
    (outs : List (ℤ × Option ℕ)) × (l : TmList ℕ ℕ) × (es : List (Event ℕ ℕ)) × (run number_clock
        blank calls
        (init blank)
      ≡ some (outs, l))
    × Represents l es
    × Sorted number_clock es
run-Sorted_example = run-Sorted number_clock blank calls

-- The list with two timers, at 10 and at 30.
abbrev two_calls : List (Op ℕ ℕ)
two_calls = schedule (pos 7) 70 30 ∷ schedule (pos 8) 80 10 ∷ []

abbrev two_events : List (Event ℕ ℕ)
two_events =
    record { handler = 1; param = pos 8; argv = 80; t = 10 }
    ∷ record { handler = 0; param = pos 7; argv = 70; t = 30 }
    ∷ []

two_calls-events : (run_events number_clock two_calls 0 []).1 ≡ two_events
unfolding insert_event
two_calls-events = refl

abbrev two_timers : TmList ℕ ℕ
two_timers = (run-timers number_clock blank two_calls).0

two_timers-Represents : Represents two_timers two_events
unfolding insert_event
two_timers-Represents = (run-timers number_clock blank two_calls).2

drain-all_example :
    (l' : TmList ℕ ℕ) × (drain number_clock 30 2 two_timers
      ≡ some ((pos 8, some 80) ∷ (pos 7, some 70) ∷ [], l'))
    × Represents l' []
drain-all_example =
    drain-all number_clock 30 two_timers two_events two_timers-Represents (refl, (refl, tt))
