-- ===== src/Pool/Tests.antt =====
-- rbtlib/pool.c at concrete pools.
use smart_rabbit_server.Base.{
  ℕ, ◌≡◌, refl, true, false, none, some, [], ◌∷◌, if◌then◌else◌, ◌==◌, arith,
}
use smart_rabbit_server.Base.Int.{pos, negsuc}
use smart_rabbit_server.Pool.{Pool, init, resize, take_slot, push, at, free_at, free, count}
use smart_rabbit_server.Pool.Slots.{IsValid, busy, Takes, init-IsValid, push-Takes, free-frees}

-- Two slots, both in use.
abbrev full : Pool
full = record {
  pool = record { next = none; busy = true } ∷ record { next = some 0; busy = true } ∷ [];
  size = 2;
  init_size = 2;
  last_free = none;
  nfree = 0;
}

full-IsValid : IsValid full
full-IsValid = (
  [],
  record {
    chain = refl;
    distinct = tt;
    counted = refl;
    sized = refl;
    all_slots = refl;
    grows = omega arith;
  },
)

-- The pool grows, and hands out its new slots from the last one down.
push_run :
    push full
    ≡ some (
      3,
      record full {
        pool =
            record { next = none; busy = true }
            ∷ record { next = some 0; busy = true }
            ∷ record { next = none; busy = false }
            ∷ record { next = some 2; busy = true }
            ∷ [];
        size = 4;
        last_free = some 2;
        nfree = 1;
      },
    )
unfolding push take_slot resize
push_run = refl

free_run :
    (count (free full (pos 1)) ≡ 1) × (free full (pos 7) ≡ full) × (free full (negsuc 0) ≡ full)
unfolding free free_at count
free_run = (refl, refl, refl)

at_run : (at full (pos 1) ≡ some 1) × (at full (pos 2) ≡ none) × (at full (negsuc 0) ≡ none)
unfolding at
at_run = (refl, refl, refl)

push-Takes_example : (i : ℕ) × (p' : Pool) × (push full ≡ some (i, p')) × Takes full i p'
push-Takes_example = push-Takes full full-IsValid

free-frees_example :
    IsValid (free full (pos 1))
    × ((j : ℕ) → busy (free full (pos 1)) j ≡ (if 1 == j then false else busy full j))
free-frees_example = free-frees full 1 full-IsValid

init-IsValid_example : IsValid (init (negsuc 0)) × (count (init (negsuc 0)) ≡ 0)
init-IsValid_example = init-IsValid (negsuc 0)
