-- ===== src/Pool/Chain.antt =====
-- The free list of a pool: a chain of distinct free slots.
use smart_rabbit_server.Base.{
  ℕ, zero, suc, ◌≡◌, ◌≢◌, refl, sym, ap, ◌∙◌, Bool, true, false, Option, none, some, List, [], ◌∷◌,
  if◌then◌else◌, get_elem?, set, get_elem?-set_ne, arith,
}
use smart_rabbit_server.Base.Distinct.{Misses}
use smart_rabbit_server.Pool.{Link}

-- The slots of the list, in order, are free and linked from `head` on.
abbrev pub Chain : List Link → Option ℕ → List ℕ → Type 0
Chain pool head [] = head ≡ none
Chain pool head (i ∷ is) =
    (head ≡ some i)
    × ((n : Option ℕ) × (get_elem? pool i ≡ some (record { next = n; busy = false }))
        × Chain pool n is)

abbrev pub busy_in : List Link → ℕ → Bool
busy_in pool i = elim (get_elem? pool i) [ none ↦ false | some link ↦ link.busy ]

-- How many slots are in use.
abbrev pub busy_count : List Link → ℕ
busy_count [] = 0
busy_count (l ∷ ls) = if l.busy then suc (busy_count ls) else busy_count ls

pub Chain-set :
    (pool : List Link) (head : Option ℕ) (is : List ℕ) (j : ℕ) (l : Link)
    → Misses j is
    → Chain pool head is
    → Chain (set pool j l) head is
Chain-set pool head [] j l m c = c
Chain-set pool head (i ∷ is) j l (ne, m) (e, (n, g, c)) =
    (e, (n, get_elem?-set_ne pool l (λ e'. ne (sym e')) ∙ g, Chain-set pool n is j l m c))

free-ne : (pool : List Link) (i j : ℕ) → busy_in pool i ≡ false → busy_in pool j ≡ true → i ≢ j
free-ne pool i j f t e =
    let h : true ≡ false = sym t ∙ ap (busy_in pool) (sym e) ∙ f in ground arith

-- A slot in use is not on the free list.
pub busy-Misses :
    (pool : List Link) (head : Option ℕ) (is : List ℕ) (j : ℕ)
    → busy_in pool j ≡ true
    → Chain pool head is
    → Misses j is
busy-Misses pool head [] j b c = tt
busy-Misses pool head (i ∷ is) j b (e, (n, g, c)) =
    (free-ne pool i j (rw (g, busy_in) refl) b, busy-Misses pool n is j b c)

pub busy_count-take :
    (pool : List Link) (i : ℕ) (l l' : Link)
    → get_elem? pool i ≡ some l
    → l.busy ≡ false
    → l'.busy ≡ true
    → busy_count (set pool i l') ≡ suc (busy_count pool)
busy_count-take [] i l l' g f t = ground arith
busy_count-take (x ∷ xs) zero l l' g f t = ground arith
busy_count-take (x ∷ xs) (suc i) l l' g f t = ground (arith, busy_count-take xs i l l' g f t)

pub busy_count-free :
    (pool : List Link) (i : ℕ) (l l' : Link)
    → get_elem? pool i ≡ some l
    → l.busy ≡ true
    → l'.busy ≡ false
    → suc (busy_count (set pool i l')) ≡ busy_count pool
busy_count-free [] i l l' g f t = ground arith
busy_count-free (x ∷ xs) zero l l' g f t = ground arith
busy_count-free (x ∷ xs) (suc i) l l' g f t = ground (arith, busy_count-free xs i l l' g f t)
