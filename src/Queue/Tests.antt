-- ===== src/Queue/Tests.antt =====
-- rbtlib/queue.c at concrete queues.
use smart_rabbit_server.Base.{ℕ, ◌≡◌, refl, none, some, [], ◌∷◌, length, get_or, ◌==◌, true, arith}
use smart_rabbit_server.Queue.{
  Queue, init, empty, count, clear, take_slot, fill_slot, push_at, push, peek, pop, copy_loop,
  resize,
}
use smart_rabbit_server.Queue.Runs.{enqueue, dequeue, run, run_list, run-refines}
use smart_rabbit_server.Queue.Window.{IsValid, contents}
use smart_rabbit_server.Queue.Fifo.{push-contents, pop-contents, empty-count}

-- Three slots, two of them in use, going round: the next push grows the array.
abbrev wrapped : Queue ℕ
wrapped = record { list = some 11 ∷ none ∷ some 10 ∷ []; used = 2; size = 3; first = 2; last = 1 }

wrapped-IsValid : IsValid wrapped
wrapped-IsValid = record {
  sized = refl;
  first_in = omega arith;
  spare = omega arith;
  last_at = refl;
}

wrapped-contents : contents wrapped ≡ some 10 ∷ some 11 ∷ []
wrapped-contents = refl

push-contents_example :
    (slot : ℕ) × (q' : Queue ℕ) × (push wrapped ≡ some (slot, q'))
    × IsValid (fill_slot q' slot (some 12))
    × (contents (fill_slot q' slot (some 12)) ≡ some 10 ∷ some 11 ∷ some 12 ∷ [])
push-contents_example = push-contents wrapped (some 12) wrapped-IsValid

pop-contents_example : IsValid (pop wrapped) × (elim (peek wrapped) as (λ _. Type 0) [
  | none ↦ (contents wrapped ≡ []) × (pop wrapped ≡ wrapped)
  | some i ↦ contents wrapped ≡ get_or wrapped.list i none ∷ contents (pop wrapped)
])
pop-contents_example = pop-contents wrapped wrapped-IsValid

empty-count_example :
    (empty wrapped ≡ (count wrapped == 0)) × (count wrapped ≡ length (contents wrapped))
empty-count_example = empty-count wrapped wrapped-IsValid

-- The third push of three finds the array full and moves it.
push_run :
    push (fill_slot wrapped 1 (some 12))
    ≡ some (
      2,
      record {
        list = some 10 ∷ some 11 ∷ none ∷ none ∷ none ∷ none ∷ none ∷ [];
        used = 3;
        size = 7;
        first = 0;
        last = 3;
      },
    )
unfolding push push_at resize copy_loop take_slot fill_slot
push_run = refl

drain_run :
    (peek wrapped ≡ some 2)
    × (pop (pop wrapped) ≡ record wrapped { first = 1; used = 0 })
    × (peek (clear wrapped) ≡ none)
unfolding peek pop empty clear
drain_run = (refl, refl, refl)

count_run : (count wrapped ≡ 2) × (empty (init {A = ℕ} 5) ≡ true)
unfolding count empty init
count_run = (refl, refl)

run-refines_example :
    (q : Queue ℕ) × (run (enqueue 1 ∷ enqueue 2 ∷ dequeue ∷ []) (init 0) ≡ some q)
    × IsValid q
    × (contents q ≡ run_list (enqueue 1 ∷ enqueue 2 ∷ dequeue ∷ []) [])
run-refines_example = run-refines (enqueue 1 ∷ enqueue 2 ∷ dequeue ∷ []) 0
