-- ===== src/Lru/Tests.antt =====
-- rbtlib/least_recently_used.c at concrete pools.
use smart_rabbit_server.Base.{◌≡◌, refl, some, [], ◌∷◌}
use smart_rabbit_server.Base.Int.{pos, negsuc}
use smart_rabbit_server.Lru.{idle, not_busy, busy, Lru, sweep, push, visit}

-- Two slots of eight bytes, both in use, one of them busy.
abbrev in_use : Lru
in_use = record { elem_size = 8; size = 2; last_pos = some 1; state = busy ∷ not_busy ∷ [] }

-- The hand passes both slots, then the first again, and stops at the second.
push_run : push 5 in_use ≡ some (1, record in_use { state = idle ∷ not_busy ∷ [] })
unfolding push sweep
push_run = refl

visit_run :
    (visit in_use (pos 1) ≡ in_use)
    × (visit in_use (negsuc 0) ≡ in_use)
    × (visit (record in_use { state = idle ∷ not_busy ∷ [] }) (pos 0)
        ≡ record in_use { state = not_busy ∷ not_busy ∷ [] })
unfolding visit
visit_run = (refl, refl, refl)
