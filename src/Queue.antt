-- ===== src/Queue.antt =====
-- rbtlib/queue.c: a growing FIFO in a circular array. `rbtQ_push` hands out the address of a slot,
-- here its index, and its caller fills the slot; `none` is a slot that nobody has filled.
pub mod Window
pub mod Fifo
pub mod Runs
mod Tests
use smart_rabbit_server.Base.{
  ℕ, zero, suc, ◌+◌, ◌-◌, ◌*◌, Bool, true, false, Option, none, some, List, [], ◌∷◌, ltb, leb, ◌==◌,
  if◌then◌else◌, get_or, set, replicate, max,
}

-- `struct Queue`, less the allocator and the size of an element.
pub record Queue {ℓ} (A : Type ℓ) : Type ℓ where
  pub list : List (Option A)
  pub used : ℕ
  pub size : ℕ
  pub first : ℕ
  pub last : ℕ

-- `i++; if(i >= size) i = 0;`
abbrev pub next : ℕ → ℕ → ℕ
next size i = if leb size (i + 1) then 0 else i + 1

module _ {ℓ} {A : Type ℓ} where
  -- `rbtQ_init`, for `nelem` elements and never fewer than 32.
  pub init : ℕ → Queue A
  init nelem = record {
    list = replicate (max nelem 32) none;
    used = 0;
    size = max nelem 32;
    first = 0;
    last = 0;
  }

  -- `rbtQ_empty`
  pub empty : Queue A → Bool
  empty q = q.first == q.last

  -- `rbtQ_push` behind its test of the size.
  pub take_slot : Queue A → ℕ × Queue A
  take_slot q = (q.last, record q { last = next q.size q.last; used = q.used + 1 })

  -- The caller's `memcpy` or assignment to the slot.
  pub fill_slot : Queue A → ℕ → Option A → Queue A
  fill_slot q slot x = record q { list = set q.list slot x }

  -- The `while` loop of `resize`, over the old array from `first` to `last`.
  pub copy_loop :
      (Queue A → Option (ℕ × Queue A))
      → ℕ
      → List (Option A)
      → ℕ
      → ℕ
      → ℕ
      → Queue A
      → Option (Queue A)
  copy_loop push zero old size first last q = none
  copy_loop push (suc fuel) old size first last q =
      let more : ℕ × Queue A → Option (Queue A) = λ (slot, q').
        copy_loop push fuel old size (next size first) last
          (fill_slot q' slot (get_or old first none)) in
      if first == last then some q else elim (push q) [ none ↦ none | some r ↦ more r ]

  -- `resize`: a new array of twice the size and one more.
  pub resize : (Queue A → Option (ℕ × Queue A)) → Queue A → Option (Queue A)
  resize push q =
      let size = q.size * 2 + 1 in
      copy_loop push q.size q.list q.size q.first q.last
        (record { list = replicate size none; used = 0; size = size; first = 0; last = 0 })

  -- `rbtQ_push`. It calls `resize`, which calls it again: `depth` bounds that recursion.
  pub push_at : ℕ → Queue A → Option (ℕ × Queue A)
  push_at zero q = none
  push_at (suc depth) q =
      let grown = resize (push_at depth) q in
      if leb (q.size - 1) q.used
      then elim grown [ none ↦ none | some q' ↦ some (take_slot q') ]
      else some (take_slot q)

  pub push : Queue A → Option (ℕ × Queue A)
  push q = push_at 2 q

  -- `rbtQ_peek`: the slot of the oldest element, NULL for an empty queue.
  pub peek : Queue A → Option ℕ
  peek q = if empty q then none else some q.first

  -- `rbtQ_pop`
  pub pop : Queue A → Queue A
  pop q =
      if q.first == q.last then q else record q { first = next q.size q.first; used = q.used - 1 }

  -- `rbtQ_clear`
  pub clear : Queue A → Queue A
  clear q = record q { first = 0; last = 0; used = 0 }

  -- `rbtQ_count`
  pub count : Queue A → ℕ
  count q = q.used
