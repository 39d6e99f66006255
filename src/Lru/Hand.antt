-- ===== src/Lru/Hand.antt =====
-- The `while(1)` loop of `rbtLru_push` in rbtlib/least_recently_used.c: where the hand stops, and what
-- it does to the slots that it passes.
use smart_rabbit_server.Base.{
  ℕ, zero, suc, ◌+◌, ◌*◌, ◌%◌, ◌≤◌, ◌<◌, ◌≡◌, refl, ap, ◌==◌, ◌∙◌, some, List, [], ◌∷◌,
  if◌then◌else◌, get_elem?, set, length, length-set, get_or, arith,
}
use native.Mathlib.Nat.{mod-lt}
use smart_rabbit_server.Lru.{State, empty, idle, not_busy, busy, sweep}

-- How often the hand passes a slot before it stops there.
abbrev pub rank : State → ℕ
rank empty = 0
rank idle = 0
rank not_busy = 1
rank busy = 2

abbrev pub total : List State → ℕ
total [] = 0
total (s ∷ ss) = rank s + total ss

pub total-le : (ss : List State) → total ss ≤ 2 * length ss
total-le [] = omega arith
total-le (empty ∷ ss) = omega (arith, total-le ss)
total-le (idle ∷ ss) = omega (arith, total-le ss)
total-le (not_busy ∷ ss) = omega (arith, total-le ss)
total-le (busy ∷ ss) = omega (arith, total-le ss)

some_inj : {s s' : State} → some s ≡ some s' → s ≡ s'
some_inj e = ground arith

total-set :
    (ss : List State) (i : ℕ) (s s' : State)
    → get_elem? ss i ≡ some s
    → total (set ss i s') + rank s ≡ total ss + rank s'
total-set [] i s s' e = ground arith
total-set (x ∷ ss) zero s s' e = rw (some_inj e) (omega arith)
total-set (x ∷ ss) (suc i) s s' e = omega (arith, total-set ss i s s' e)

-- The rank of slot `k`, 0 outside the pool.
abbrev pub rank_at : List State → ℕ → ℕ
rank_at ss k = rank (get_or ss k empty)

-- A slot that goes down by one, and the others that do not.
lowered :
    (ss : List State) (i k : ℕ) (s s' : State)
    → get_elem? ss i ≡ some s
    → rank s ≡ suc (rank s')
    → rank_at ss k ≡ (if i == k then 1 else 0) + rank_at (set ss i s') k
lowered [] i k s s' e h = ground arith
lowered (x ∷ ss) zero zero s s' e h = rw (some_inj e) (omega arith)
lowered (x ∷ ss) zero (suc k) s s' e h = ground arith
lowered (x ∷ ss) (suc i) zero s s' e h = ground arith
lowered (x ∷ ss) (suc i) (suc k) s s' e h = ground (arith, lowered ss i k s s' e h)

rank-some : (ss : List State) (i : ℕ) (s : State) → get_elem? ss i ≡ some s → rank_at ss i ≡ rank s
rank-some [] i s e = ground arith
rank-some (x ∷ ss) zero s e = ap rank (some_inj e)
rank-some (x ∷ ss) (suc i) s e = rank-some ss i s e

mod_lt : (n size : ℕ) → 0 < size → n % size < size
mod_lt n size h = mod-lt n h

-- Taking a slot of rank 0 changes no other slot.
pub taken-rank :
    (ss : List State) (at k : ℕ)
    → rank_at ss at ≡ 0
    → rank_at ss k ≡ (if k == at then 0 else rank_at (set ss at not_busy) k)
taken-rank [] at k z = ground arith
taken-rank (x ∷ ss) zero zero z = ground arith
taken-rank (x ∷ ss) zero (suc k) z = ground arith
taken-rank (x ∷ ss) (suc at) zero z = ground arith
taken-rank (x ∷ ss) (suc at) (suc k) z = ground (arith, taken-rank ss at k z)

some-at : (ss : List State) (i : ℕ) → i < length ss → (s : State) × (get_elem? ss i ≡ some s)
some-at [] i h = absurd (omega arith)
some-at (x ∷ ss) zero h = (x, refl)
some-at (x ∷ ss) (suc i) h = some-at ss i (omega arith)

-- The slot that the hand comes to after `n` slots from `from` on, going round, and how often it has
-- then passed slot `k`.
abbrev pub ahead : ℕ → ℕ → ℕ → ℕ
ahead size from zero = from
ahead size from (suc n) = ahead size ((from + 1) % size) n

abbrev pub passes : ℕ → ℕ → ℕ → ℕ → ℕ
passes size from zero k = 0
passes size from (suc n) k = (if from == k then 1 else 0) + passes size ((from + 1) % size) n k

-- What the hand leaves: it stands on a slot that may be reused, behind the slots that it passed, and
-- each of them has gone down as often as it was passed.
abbrev pub Stops : List State → ℕ → ℕ → ℕ → List State → Type 0
Stops ss size from at ss' =
    (at < size)
    × (length ss' ≡ size)
    × (rank_at ss' at ≡ 0)
    × (n : ℕ) × (at ≡ ahead size from n)
    × ((k : ℕ) → rank_at ss k ≡ passes size from n k + rank_at ss' k)

abbrev pub Ends : ℕ → ℕ → ℕ → List State → Type 0
Ends fuel size last_pos ss =
    (at : ℕ) × (ss' : List State) × (sweep fuel size last_pos ss ≡ some (at, ss'))
    × Stops ss size ((last_pos + 1) % size) at ss'

-- One round of the loop that does not stop: the slot under the hand goes down from `s` to `s'`.
abbrev Lowers : ℕ → ℕ → ℕ → List State → State → Type 0
Lowers fuel size last_pos ss s' =
    sweep (suc fuel) size last_pos ss
    ≡ sweep fuel size ((last_pos + 1) % size) (set ss ((last_pos + 1) % size) s')

stops-here :
    (fuel size last_pos : ℕ) (ss : List State) (s : State)
    → 0 < size
    → length ss ≡ size
    → get_elem? ss ((last_pos + 1) % size) ≡ some s
    → rank s ≡ 0
    → sweep (suc fuel) size last_pos ss ≡ some ((last_pos + 1) % size, ss)
    → Ends (suc fuel) size last_pos ss
stops-here fuel size last_pos ss s h l e r w = (
  (last_pos + 1) % size,
  ss,
  w,
  (
    mod_lt (last_pos + 1) size h,
    l,
    rank-some ss ((last_pos + 1) % size) s e ∙ r,
    0,
    refl,
    λ k. omega arith,
  ),
)

goes-on :
    (fuel size last_pos : ℕ) (ss : List State) (s s' : State)
    → get_elem? ss ((last_pos + 1) % size) ≡ some s
    → rank s ≡ suc (rank s')
    → length ss ≡ size
    → total ss < suc fuel
    → Lowers fuel size last_pos ss s'
    → ((last : ℕ) (ss' : List State)
        → length ss' ≡ size
        → total ss' < fuel
        → Ends fuel size last ss')
    → Ends (suc fuel) size last_pos ss
goes-on fuel size last_pos ss s s' e r l f w rec =
    let at = (last_pos + 1) % size in
    let t = total-set ss at s s' e in
    let (x, ss', q, (b, l', z, n, p, down)) =
      rec at (set ss at s') (length-set ss at s' ∙ l) (omega arith) in
    (x, ss', w ∙ q, (b, l', z, suc n, p, λ k. omega (arith, down k, lowered ss at k s s' e r)))

round :
    (fuel size last_pos : ℕ) (ss : List State) (s : State)
    → 0 < size
    → length ss ≡ size
    → total ss < suc fuel
    → get_elem? ss ((last_pos + 1) % size) ≡ some s
    → ((last : ℕ) (ss' : List State)
        → length ss' ≡ size
        → total ss' < fuel
        → Ends fuel size last ss')
    → Ends (suc fuel) size last_pos ss
unfolding sweep
round fuel size last_pos ss empty h l f e rec =
    stops-here fuel size last_pos ss empty h l e refl (rw (e, sweep) refl)
round fuel size last_pos ss idle h l f e rec =
    stops-here fuel size last_pos ss idle h l e refl (rw (e, sweep) refl)
round fuel size last_pos ss not_busy h l f e rec =
    goes-on fuel size last_pos ss not_busy idle e refl l f (rw (e, sweep) refl) rec
round fuel size last_pos ss busy h l f e rec =
    goes-on fuel size last_pos ss busy not_busy e refl l f (rw (e, sweep) refl) rec

pub sweep-Ends :
    (fuel size last_pos : ℕ) (ss : List State)
    → 0 < size
    → length ss ≡ size
    → total ss < fuel
    → Ends fuel size last_pos ss
sweep-Ends zero size last_pos ss h l f = absurd (omega arith)
sweep-Ends (suc fuel) size last_pos ss h l f =
    let at = (last_pos + 1) % size in
    let (s, e) = some-at ss at (omega (arith, mod_lt (last_pos + 1) size h)) in
    round fuel size last_pos ss s h l f e (λ last ss' l' f'. sweep-Ends fuel size last ss' h l' f')
