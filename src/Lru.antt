-- ===== src/Lru.antt =====
-- rbtlib/least_recently_used.c: a fixed pool of slots that are reused in the order of a clock hand.
pub mod Hand
pub mod Clock
pub mod Runs
mod Tests
use smart_rabbit_server.Base.{
  ℕ, zero, suc, ◌+◌, ◌-◌, ◌*◌, ◌/◌, ◌%◌, Bool, Option, none, some, List, [], ◌∷◌, ltb,
  if◌then◌else◌, get_elem?, set, replicate,
}
use smart_rabbit_server.Base.Int.{ℤ, pos, negsuc}

-- `LRU_EMPTY`, `LRU_IDLE`, `LRU_NOT_BUSY` and `LRU_BUSY`
pub data State : Type 0 where
  empty idle not_busy busy : State

-- `struct Lru`, less the collector's part and what the elements hold; `none` is the hand at -1.
pub record Lru : Type 0 where
  pub elem_size : ℕ
  pub size : ℕ
  pub last_pos : Option ℕ
  pub state : List State

-- `rbtLru_init`; `none` is NULL.
unfoldable pub init : ℕ → ℕ → Option Lru
init elem_size size =
    let n = if ltb size 1 then 256 else size in
    if ltb elem_size 1
    then none
    else some
        (record { elem_size = elem_size; size = n; last_pos = none; state = replicate n empty })

-- The `while(1)` loop of `rbtLru_push`: the slot where the hand stops, and the states by then. A hand
-- outside the pool and the end of the fuel are `none`.
unfoldable pub sweep : ℕ → ℕ → ℕ → List State → Option (ℕ × List State)
sweep zero size last_pos state = none
sweep (suc fuel) size last_pos state =
    let at = (last_pos + 1) % size in
    let after_idle = sweep fuel size at (set state at idle) in
    let after_not_busy = sweep fuel size at (set state at not_busy) in
    elim (get_elem? state at) [
      | none ↦ none
      | some empty ↦ some (at, state)
      | some idle ↦ some (at, state)
      | some not_busy ↦ after_idle
      | some busy ↦ after_not_busy
    ]

-- The slot that is handed out becomes `LRU_NOT_BUSY`.
abbrev pub take_slot : Lru → ℕ → List State → ℕ × Lru
take_slot l at state = (at, record l { last_pos = some at; state = set state at not_busy })

-- `rbtLru_push`: the slot whose element it points to.
unfoldable pub push : ℕ → Lru → Option (ℕ × Lru)
push fuel l = elim l.last_pos [
  | none ↦ some (take_slot l 0 l.state)
  | some last_pos ↦ elim (sweep fuel l.size last_pos l.state) [
    | none ↦ none
    | some r ↦ some (take_slot l r.0 r.1)
  ]
]

-- `rbtLru_visit` of the pointer `p` bytes behind `pool`. The test is against the byte `size - 1`.
abbrev visited : State → State
visited empty = empty
visited idle = not_busy
visited not_busy = busy
visited busy = busy

abbrev visit_at : Lru → ℕ → Lru
visit_at l at = elim (get_elem? l.state at) [
  | none ↦ l
  | some s ↦ record l { state = set l.state at (visited s) }
]

unfoldable pub visit : Lru → ℤ → Lru
visit l (negsuc n) = l
visit l (pos p) = if ltb (l.size - 1) p then l else visit_at l (p / l.elem_size)
