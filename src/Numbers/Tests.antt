-- ===== src/Numbers/Tests.antt =====
-- rbtlib/math.c at concrete numbers.
use smart_rabbit_server.Base.{◌≡◌, refl, [], ◌∷◌, length, arith}
use smart_rabbit_server.Base.Int.{pos, negsuc}
use smart_rabbit_server.Numbers.{scan, skip, s2u, stoi, swap_loop, reverse, digits, u2s, utos, itos}
use smart_rabbit_server.Numbers.Swap.{backwards, reverse-backwards}
use smart_rabbit_server.Numbers.RoundTrip.{stou-utos, stoi-itos}

-- "-120", and "12a"
texts_run :
    (itos (negsuc 119) ≡ 45 ∷ 49 ∷ 50 ∷ 48 ∷ [])
    × (stoi (49 ∷ 50 ∷ 97 ∷ []) ≡ (pos 12, 2))
    × (stoi [] ≡ (pos 0, 0))
unfolding itos u2s reverse swap_loop digits stoi s2u scan skip
texts_run = (refl, refl, refl)

-- Eleven digits: the last one is counted and ignored.
long_run :
    s2u (49 ∷ 48 ∷ 48 ∷ 48 ∷ 48 ∷ 48 ∷ 48 ∷ 48 ∷ 48 ∷ 48 ∷ 49 ∷ []) ≡ (pos 1000000000, 11, 10)
unfolding s2u scan skip
long_run = refl

reverse-backwards_example : reverse (1 ∷ 2 ∷ 3 ∷ []) ≡ backwards (1 ∷ 2 ∷ 3 ∷ [])
reverse-backwards_example = reverse-backwards (1 ∷ 2 ∷ 3 ∷ [])

stou-utos_example :
    s2u (utos (pos 2026)) ≡ (pos 2026, length (utos (pos 2026)), length (utos (pos 2026)))
stou-utos_example = stou-utos 2026 (omega arith)

stoi-itos_example : stoi (itos (negsuc 119)) ≡ (negsuc 119, length (itos (negsuc 119)))
stoi-itos_example = stoi-itos (negsuc 119) (omega arith) (omega arith)
