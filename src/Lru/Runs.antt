-- ===== src/Lru/Runs.antt =====
-- Whole runs of rbtlib/least_recently_used.c: pushes and visits in any order.
use smart_rabbit_server.Base.{ℕ, suc, ◌*◌, ◌≡◌, Option, none, some, List, [], ◌∷◌}
use smart_rabbit_server.Base.Int.{ℤ}
use smart_rabbit_server.Lru.{Lru, push, visit}
use smart_rabbit_server.Lru.Clock.{IsValid}

-- A call of `rbtLru_push`, or of `rbtLru_visit` with a pointer into the pool or outside it.
pub data Call : Type 0 where
  pushes : Call
  visits : ℤ → Call

abbrev dropped : Option (ℕ × Lru) → Option Lru
dropped none = none
dropped (some r) = some r.1

abbrev pub perform : Call → Lru → Option Lru
perform pushes l = dropped (push (suc (2 * l.size)) l)
perform (visits p) l = some (visit l p)

-- The calls in turn; `none` where a push hands out no slot.
abbrev pub run_calls : List Call → Option Lru → Option Lru
run_calls calls none = none
run_calls [] (some l) = some l
run_calls (call ∷ calls) (some l) = run_calls calls (perform call l)

abbrev Ends : Option Lru → Type 0
Ends r = (l : Lru) × (r ≡ some l) × IsValid l
