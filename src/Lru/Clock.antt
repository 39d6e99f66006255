-- ===== src/Lru/Clock.antt =====
-- `rbtLru_init` and `rbtLru_push` of rbtlib/least_recently_used.c keep the pool valid, and a push hands
-- out the slot where the clock hand stops.
use smart_rabbit_server.Base.{
  ℕ, zero, suc, ◌+◌, ◌%◌, ◌<◌, ◌≡◌, refl, ◌==◌, Option, none, some, List, ltb, if◌then◌else◌,
  get_elem?, length, get_or, replicate, length-replicate, arith,
}
use smart_rabbit_server.Lru.{State, empty, not_busy, Lru, init}
use smart_rabbit_server.Lru.Hand.{rank_at, ahead, passes}

-- Before the first push the hand is at -1 and every slot is LRU_EMPTY; later it is on a slot.
abbrev pub HandAt : Option ℕ → ℕ → List State → Type 0
HandAt none size ss = (k : ℕ) → get_or ss k empty ≡ empty
HandAt (some p) size ss = p < size

-- The invariant of `struct Lru`.
pub record IsValid (l : Lru) : Type 0 where
  pub some_slots : 0 < l.size
  pub sized : length l.state ≡ l.size
  pub some_bytes : 0 < l.elem_size
  pub hand_at : HandAt l.last_pos l.size l.state

-- The slot that the hand comes to first.
abbrev pub next_slot : Lru → ℕ
next_slot l = elim l.last_pos [ none ↦ 0 | some p ↦ (p + 1) % l.size ]

-- What a push promises, with the slot that it hands out.
abbrev pub Reuses : Lru → ℕ → Lru → Type 0
Reuses l at l' =
    IsValid l'
    × (at < l'.size)
    × (get_elem? l'.state at ≡ some not_busy)
    × (l'.last_pos ≡ some at)
    × (n : ℕ) × (at ≡ ahead l.size (next_slot l) n)
    × ((k : ℕ)
        → rank_at l.state k
          ≡ passes l.size (next_slot l) n k + (if k == at then 0 else rank_at l'.state k))

get_or-replicate : (n k : ℕ) → get_or (replicate n empty) k empty ≡ empty
get_or-replicate zero k = refl
get_or-replicate (suc n) zero = refl
get_or-replicate (suc n) (suc k) = get_or-replicate n k

-- `rbtLru_init` for elements of some size makes a valid pool, for any number of slots asked for.
pub init_lru-IsValid :
    (elem_size size : ℕ) → 0 < elem_size → (l : Lru) × (init elem_size size ≡ some l) × IsValid l
unfolding init
init_lru-IsValid elem_size size h =
    let n = if ltb size 1 then 256 else size in
    let r = length-replicate {A = State} n empty in
    (
      record { elem_size = elem_size; size = n; last_pos = none; state = replicate n empty },
      ground arith,
      record { some_slots = ground arith; sized = r; some_bytes = h; hand_at = get_or-replicate n },
    )
