-- ===== src/Queue/Runs.antt =====
-- Whole runs of rbtlib/queue.c against a list.
use smart_rabbit_server.Base.{ℕ, ◌≡◌, refl, ap, ◌∙◌, Option, none, some, List, [], ◌∷◌, ◌++◌}
use smart_rabbit_server.Queue.{Queue, init, fill_slot, push, pop}
use smart_rabbit_server.Queue.Window.{IsValid, contents}
use smart_rabbit_server.Queue.Fifo.{push-contents, pop-IsValid, pop-tail, tail, init-contents}

-- What a client does: it pushes an element and fills its slot, or it pops.
pub data Op {ℓ} (A : Type ℓ) : Type ℓ where
  enqueue : A → Op A
  dequeue : Op A

module _ {ℓ} {A : Type ℓ} where
  abbrev pub run : List (Op A) → Queue A → Option (Queue A)
  run [] q = some q
  run (enqueue x ∷ ops) q = elim (push q) [
    | none ↦ none
    | some r ↦ run ops (fill_slot r.1 r.0 (some x))
  ]
  run (dequeue ∷ ops) q = run ops (pop q)

  -- The same on a list.
  abbrev pub run_list : List (Op A) → List (Option A) → List (Option A)
  run_list [] xs = xs
  run_list (enqueue x ∷ ops) xs = run_list ops (xs ++ (some x ∷ []))
  run_list (dequeue ∷ ops) xs = run_list ops (tail xs)

  run-enqueue :
      (x : A) (ops : List (Op A)) (q q' : Queue A) (slot : ℕ)
      → push q ≡ some (slot, q')
      → run (enqueue x ∷ ops) q ≡ run ops (fill_slot q' slot (some x))
  run-enqueue x ops q q' slot e = rw (e, run) refl

  run-IsValid :
      (ops : List (Op A)) (q : Queue A)
      → IsValid q
      → (q' : Queue A) × (run ops q ≡ some q')
        × IsValid q'
        × (contents q' ≡ run_list ops (contents q))
  run-IsValid [] q v = (q, refl, v, refl)
  run-IsValid (enqueue x ∷ ops) q v =
      let (slot, q1, e, v1, c1) = push-contents q (some x) v in
      let (q', r, v', c') = run-IsValid ops (fill_slot q1 slot (some x)) v1 in
      (q', run-enqueue x ops q q1 slot e ∙ r, v', c' ∙ ap (run_list ops) c1)
  run-IsValid (dequeue ∷ ops) q v =
      let (q', r, v', c') = run-IsValid ops (pop q) (pop-IsValid q v) in
      (q', r, v', c' ∙ ap (run_list ops) (pop-tail q v))

  -- From a new queue of any capacity, every sequence of pushes and pops succeeds, and leaves a valid
  -- queue with the elements that the same sequence leaves in a list, where a push appends an element
  -- and a pop removes the first one if there is one.
  pub run-refines :
      (ops : List (Op A)) (nelem : ℕ)
      → (q : Queue A) × (run ops (init nelem) ≡ some q) × IsValid q × (contents q ≡ run_list ops [])
  run-refines ops nelem =
      let (v, c) = init-contents {A = A} nelem in
      let (q, r, v', c') = run-IsValid ops (init nelem) v in (q, r, v', c' ∙ ap (run_list ops) c)
