-- ===== src/Pool/Slots.antt =====
-- rbtlib/pool.c hands out each slot to one user at a time.
use smart_rabbit_server.Base.{
  ℕ, zero, suc, ◌+◌, ◌-◌, ◌≤◌, ◌<◌, ◌≡◌, ◌≢◌, refl, sym, ap, ◌∙◌, subst, ◌⊎◌, inl, inr, Bool-cases,
  Bool, true, false, Option, none, some, List, [], ◌∷◌, ◌++◌, if◌then◌else◌, ◌==◌, get_elem?, set,
  length, length-append, length-set, get_elem?-set_self, get_elem?-lt, arith,
}
use smart_rabbit_server.Base.Int.{ℤ, pos, pos_part, ltb_ℤ}
use smart_rabbit_server.Pool.{
  Link, Pool, links, init, resize, take_slot, push, free_at, free, count,
}
use smart_rabbit_server.Base.Distinct.{Misses, Distinct}
use smart_rabbit_server.Pool.Chain.{
  Chain, busy_in, busy_count, Chain-set, busy-Misses, busy_count-take, busy_count-free,
}

-- The invariant of `struct Pool`: its free list is made of distinct free slots, and of all of them.
pub record IsFreeList (p : Pool) (frees : List ℕ) : Type 0 where
  pub chain : Chain p.pool p.last_free frees
  pub distinct : Distinct frees
  pub counted : length frees ≡ p.nfree
  pub sized : length p.pool ≡ p.size
  pub all_slots : busy_count p.pool + p.nfree ≡ p.size
  pub grows : 0 < p.init_size

abbrev pub IsValid : Pool → Type 0
IsValid p = (frees : List ℕ) × IsFreeList p frees

-- Whether slot `id` is in use.
abbrev pub busy : Pool → ℕ → Bool
busy p id = busy_in p.pool id

busy_in-set :
    (pool : List Link) (i j : ℕ) (l : Link)
    → i < length pool
    → busy_in (set pool i l) j ≡ (if i == j then l.busy else busy_in pool j)
busy_in-set [] i j l h = absurd (omega arith)
busy_in-set (x ∷ xs) zero zero l h = refl
busy_in-set (x ∷ xs) zero (suc j) l h = ground arith
busy_in-set (x ∷ xs) (suc i) zero l h = ground arith
busy_in-set (x ∷ xs) (suc i) (suc j) l h = ground (arith, busy_in-set xs i j l (omega arith))

-- The pool after its slot `i` was taken.
abbrev taken : Pool → ℕ → Option ℕ → Pool
taken p i n = record p {
  pool = set p.pool i (record { next = n; busy = true });
  last_free = n;
  nfree = p.nfree - 1;
}

take_slot-taken :
    (p : Pool) (i : ℕ) (n : Option ℕ)
    → p.last_free ≡ some i
    → get_elem? p.pool i ≡ some (record { next = n; busy = false })
    → take_slot p ≡ some (i, taken p i n)
unfolding take_slot
take_slot-taken p i n e g = rw (e, take_slot) (rw g refl)

taken-IsFreeList :
    (p : Pool) (i : ℕ) (n : Option ℕ) (is : List ℕ)
    → IsFreeList p (i ∷ is)
    → get_elem? p.pool i ≡ some (record { next = n; busy = false })
    → Chain p.pool n is
    → IsFreeList (taken p i n) is
taken-IsFreeList p i n is v g c =
    let (m, d) = v.distinct in
    let t =
      busy_count-take p.pool i (record { next = n; busy = false })
        (record { next = n; busy = true }) g refl refl in
    record {
      chain = Chain-set p.pool n is i (record { next = n; busy = true }) m c;
      distinct = d;
      counted = omega (arith, v.counted);
      sized = length-set p.pool i (record { next = n; busy = true }) ∙ v.sized;
      all_slots = omega (arith, v.counted, v.all_slots, t);
      grows = v.grows;
    }

-- What a push promises of the slot it hands out.
abbrev pub Takes : Pool → ℕ → Pool → Type 0
Takes p i p' =
    IsValid p'
    × (busy p i ≡ false)
    × (i < p'.size)
    × ((j : ℕ) → busy p' j ≡ (if i == j then true else busy p j))

take-Takes :
    (p : Pool) (i : ℕ) (is : List ℕ)
    → IsFreeList p (i ∷ is)
    → (p' : Pool) × (take_slot p ≡ some (i, p')) × Takes p i p' × (p'.size ≡ p.size)
take-Takes p i is v =
    let (e, (n, g, c)) = v.chain in
    let l = get_elem?-lt p.pool i (record { next = n; busy = false }) g in
    (
      taken p i n,
      take_slot-taken p i n e g,
      (
        (is, taken-IsFreeList p i n is v g c),
        rw (g, busy_in) refl,
        omega (arith, v.sized, l),
        (λ j. busy_in-set p.pool i j (record { next = n; busy = true }) l),
      ),
      refl,
    )

add_swap : (m k : ℕ) → suc m + k ≡ suc (m + k)
add_swap m k = omega arith

-- The free list of `n` fresh slots from `i` on, the last slot first.
abbrev fresh : ℕ → ℕ → List ℕ
fresh i zero = []
fresh i (suc n) = (i + n) ∷ fresh i n

length-fresh : (i n : ℕ) → length (fresh i n) ≡ n
length-fresh i zero = refl
length-fresh i (suc n) = ap suc (length-fresh i n)

fresh-Misses : (i n j : ℕ) → i + n ≤ j → Misses j (fresh i n)
fresh-Misses i zero j h = tt
fresh-Misses i (suc n) j h = ((λ e. absurd (omega arith)), fresh-Misses i n j (omega arith))

fresh-Distinct : (i n : ℕ) → Distinct (fresh i n)
fresh-Distinct i zero = tt
fresh-Distinct i (suc n) = (fresh-Misses i n (i + n) (omega arith), fresh-Distinct i n)

length-links : (i : ℕ) (h : Option ℕ) (n : ℕ) → length (links i h n) ≡ n
length-links i h zero = refl
length-links i h (suc n) = ap suc (length-links (suc i) (some i) n)

busy_count-links :
    (pool : List Link) (i : ℕ) (h : Option ℕ) (n : ℕ)
    → busy_count (pool ++ links i h n) ≡ busy_count pool
busy_count-links [] i h zero = refl
busy_count-links [] i h (suc n) = busy_count-links [] (suc i) (some i) n
busy_count-links (l ∷ ls) i h n = ground (arith, busy_count-links ls i h n)

-- The link of a fresh slot: the slot before it.
abbrev before : ℕ → Option ℕ → ℕ → Option ℕ
before i h zero = h
before i h (suc k) = some (i + k)

before-suc : (i : ℕ) (h : Option ℕ) (k : ℕ) → before (suc i) (some i) k ≡ before i h (suc k)
before-suc i h zero = ap some (omega arith)
before-suc i h (suc k) = ap some (omega arith)

links-before :
    (i : ℕ) (h : Option ℕ) (n k : ℕ)
    → k < n
    → get_elem? (links i h n) k ≡ some (record { next = before i h k; busy = false })
links-before i h zero k p = absurd (omega arith)
links-before i h (suc n) zero p = refl
links-before i h (suc n) (suc k) p =
    links-before (suc i) (some i) n k (omega arith)
    ∙ ap (λ o. some (record { next = o; busy = false })) (before-suc i h k)

get_elem?-right :
    (xs ys : List Link) (k : ℕ) → get_elem? (xs ++ ys) (length xs + k) ≡ get_elem? ys k
get_elem?-right [] ys k = ap (get_elem? ys) (omega arith)
get_elem?-right (x ∷ xs) ys k =
    ap (get_elem? (x ∷ (xs ++ ys))) (add_swap (length xs) k) ∙ get_elem?-right xs ys k

get_elem?-links :
    (pool : List Link) (i : ℕ) (h : Option ℕ) (n k : ℕ)
    → length pool ≡ i
    → k < n
    → get_elem? (pool ++ links i h n) (i + k) ≡ some (record { next = before i h k; busy = false })
get_elem?-links pool i h n k l p =
    ap (λ a. get_elem? (pool ++ links i h n) (a + k)) (sym l)
    ∙ get_elem?-right pool (links i h n) k
    ∙ links-before i h n k p

fresh-Chain :
    (pool : List Link) (i : ℕ) (h : Option ℕ) (n m : ℕ)
    → length pool ≡ i
    → suc m ≤ n
    → Chain (pool ++ links i none n) (some (i + m)) (fresh i (suc m))
fresh-Chain pool i h n zero l p = (refl, (none, get_elem?-links pool i none n 0 l p, refl))
fresh-Chain pool i h n (suc m) l p = (
  refl,
  (
    some (i + m),
    get_elem?-links pool i none n (suc m) l p,
    fresh-Chain pool i h n m l (omega arith),
  ),
)

-- A pool whose last `n` slots are fresh, and whose other slots are all in use.
grown-IsFreeList :
    (pool : List Link) (i n grow : ℕ)
    → length pool ≡ i
    → busy_count pool ≡ i
    → 0 < n
    → 0 < grow
    → IsFreeList
        (record {
          pool = pool ++ links i none n;
          size = i + n;
          init_size = grow;
          last_free = some (i + n - 1);
          nfree = n;
        })
        (fresh i n)
grown-IsFreeList pool i zero grow l b p g = absurd (omega arith)
grown-IsFreeList pool i (suc m) grow l b p g = record {
  chain =
      subst (λ k. Chain (pool ++ links i none (suc m)) (some k) (fresh i (suc m))) (omega arith)
        (fresh-Chain pool i none (suc m) m l (omega arith));
  distinct = fresh-Distinct i (suc m);
  counted = length-fresh i (suc m);
  sized = length-append pool (links i none (suc m)) ∙ omega (arith, l, length-links i none (suc m));
  all_slots = omega (arith, b, busy_count-links pool i none (suc m));
  grows = g;
}

resize-IsFreeList : (p : Pool) → IsFreeList p [] → IsFreeList (resize p) (fresh p.size p.init_size)
unfolding resize
resize-IsFreeList p v =
    grown-IsFreeList p.pool p.size p.init_size p.init_size v.sized
      (omega (arith, v.counted, v.all_slots)) v.grows v.grows

busy_in-links :
    (pool : List Link) (i : ℕ) (h : Option ℕ) (n j : ℕ)
    → busy_in (pool ++ links i h n) j ≡ busy_in pool j
busy_in-links [] i h zero j = refl
busy_in-links [] i h (suc n) zero = refl
busy_in-links [] i h (suc n) (suc j) = busy_in-links [] (suc i) (some i) n j
busy_in-links (l ∷ ls) i h n zero = refl
busy_in-links (l ∷ ls) i h n (suc j) = busy_in-links ls i h n j

busy-resize : (p : Pool) (j : ℕ) → busy (resize p) j ≡ busy p j
unfolding resize
busy-resize p j = busy_in-links p.pool p.size none p.init_size j

-- The pool that `rbtPool_init` makes of `n` slots.
abbrev new_pool : ℕ → ℕ → Pool
new_pool n size = record {
  pool = links 0 none n;
  size = size;
  init_size = n;
  last_free = some (size - 1);
  nfree = n;
}

new_pool-IsValid : (n : ℕ) → 0 < n → IsValid (new_pool n n)
new_pool-IsValid n h = (
  fresh 0 n,
  subst (λ s. IsFreeList (new_pool n s) (fresh 0 n)) (omega arith)
      (grown-IsFreeList [] 0 n n refl refl h h),
)

-- `rbtPool_init` makes a valid pool, whatever size was asked for, and `rbtPool_count` of it is
-- 0.
pub init-IsValid : (init_size : ℤ) → IsValid (init init_size) × (count (init init_size) ≡ 0)
unfolding init count
init-IsValid z =
    (new_pool-IsValid (if ltb_ℤ (pos 0) z then pos_part z else 16) (ground arith), omega arith)

push-free : (p : Pool) (i : ℕ) → p.last_free ≡ some i → push p ≡ take_slot p
unfolding push
push-free p i e = ground arith

push-full : (p : Pool) → p.last_free ≡ none → push p ≡ take_slot (resize p)
unfolding push
push-full p e = ground arith

fresh-cons : (i n : ℕ) → 0 < n → (j : ℕ) × (is : List ℕ) × (fresh i n ≡ j ∷ is)
fresh-cons i zero h = absurd (omega arith)
fresh-cons i (suc n) h = (i + n, fresh i n, refl)

resized : (p : Pool) → IsFreeList p [] → (i : ℕ) × (is : List ℕ) × IsFreeList (resize p) (i ∷ is)
resized p v =
    let (i, is, e) = fresh-cons p.size p.init_size v.grows in
    (i, is, subst (IsFreeList (resize p)) e (resize-IsFreeList p v))

-- For a valid pool `rbtPool_push` always succeeds: it hands out a slot of the new pool that was
-- not in use, which is then in use, no other slot changes, and the new pool is valid.
pub push-Takes :
    (p : Pool) → IsValid p → (i : ℕ) × (p' : Pool) × (push p ≡ some (i, p')) × Takes p i p'
push-Takes p (i ∷ is, v) =
    let (p', e, t, _) = take-Takes p i is v in (i, p', push-free p i v.chain.0 ∙ e, t)
push-Takes p ([], v) =
    let (i, is, r) = resized p v in
    let (p', e', (v', b, l, all), _) = take-Takes (resize p) i is r in
    (
      i,
      p',
      push-full p v.chain ∙ e',
      (
        v',
        sym (busy-resize p i) ∙ b,
        l,
        λ j. all j ∙ ap (λ b'. if i == j then true else b') (busy-resize p j),
      ),
    )

-- The pool after slot `id` was freed.
abbrev freed : Pool → ℕ → Pool
freed p id = record p {
  pool = set p.pool id (record { next = p.last_free; busy = false });
  last_free = some id;
  nfree = p.nfree + 1;
}

busy-link :
    (pool : List Link) (id : ℕ)
    → busy_in pool id ≡ true
    → (l : Link) × (get_elem? pool id ≡ some l) × (l.busy ≡ true)
busy-link [] id b = ground arith
busy-link (x ∷ xs) zero b = (x, refl, b)
busy-link (x ∷ xs) (suc id) b = busy-link xs id b

free_at-freed : (p : Pool) (id : ℕ) → busy p id ≡ true → free_at p id ≡ freed p id
unfolding free_at
free_at-freed p id b = let (l, g, t) = busy-link p.pool id b in rw (g, free_at) (rw t refl)

free_at-idle : (p : Pool) (id : ℕ) → busy p id ≡ false → free_at p id ≡ p
unfolding free_at
free_at-idle p id b = ground arith

freed-IsFreeList :
    (p : Pool) (id : ℕ) (is : List ℕ)
    → IsFreeList p is
    → busy p id ≡ true
    → IsFreeList (freed p id) (id ∷ is)
freed-IsFreeList p id is v b =
    let (l, g, t) = busy-link p.pool id b in
    let h = get_elem?-lt p.pool id l g in
    let x : Link = record { next = p.last_free; busy = false } in
    let m = busy-Misses p.pool p.last_free is id b v.chain in
    let c = busy_count-free p.pool id l x g t refl in
    record {
      chain = (
        refl,
        (
          p.last_free,
          get_elem?-set_self p.pool id x h,
          Chain-set p.pool p.last_free is id x m v.chain,
        ),
      );
      distinct = (m, v.distinct);
      counted = omega (arith, v.counted);
      sized = length-set p.pool id x ∙ v.sized;
      all_slots = omega (arith, v.all_slots, c);
      grows = v.grows;
    }

free-busy :
    (p : Pool) (id : ℕ) (is : List ℕ)
    → IsFreeList p is
    → busy p id ≡ true
    → free p (pos id) ≡ freed p id
unfolding free
free-busy p id is v b =
    let (l, g, t) = busy-link p.pool id b in
    let h = get_elem?-lt p.pool id l g in let e = free_at-freed p id b in ground (arith, v.sized)

free-idle : (p : Pool) (id : ℕ) → busy p id ≡ false → free p (pos id) ≡ p
unfolding free
free-idle p id b = let e = free_at-idle p id b in ground arith

busy-freed :
    (p : Pool) (id : ℕ) (is : List ℕ)
    → IsFreeList p is
    → busy p id ≡ true
    → (j : ℕ) → busy (freed p id) j ≡ (if id == j then false else busy p j)
busy-freed p id is v b j =
    let (l, g, t) = busy-link p.pool id b in
    busy_in-set p.pool id j (record { next = p.last_free; busy = false })
      (get_elem?-lt p.pool id l g)

eq_cases : (a b : ℕ) → (a ≡ b) ⊎ (a ≢ b)
eq_cases a b = ground arith

idle-same :
    (p : Pool) (id j : ℕ) → busy p id ≡ false → busy p j ≡ (if id == j then false else busy p j)
idle-same p id j b = elim (eq_cases id j) [
  | inl e ↦ let f : busy p j ≡ false = ap (busy p) (sym e) ∙ b in ground arith
  | inr ne ↦ ground arith
]

-- `rbtPool_free` on a valid pool leaves it valid: slot `id` is then not in use, whether it was or not
-- and whether the pool has such a slot, and the other slots are as before.
pub free-frees :
    (p : Pool) (id : ℕ)
    → IsValid p
    → IsValid (free p (pos id))
      × ((j : ℕ) → busy (free p (pos id)) j ≡ (if id == j then false else busy p j))
free-frees p id (is, v) = elim (Bool-cases (busy p id)) [
  | inl b ↦ (
    subst IsValid (sym (free-busy p id is v b)) (id ∷ is, freed-IsFreeList p id is v b),
    (λ j. ap (λ q. busy q j) (free-busy p id is v b) ∙ busy-freed p id is v b j),
  )
  | inr b ↦ (
    subst IsValid (sym (free-idle p id b)) (is, v),
    (λ j. ap (λ q. busy q j) (free-idle p id b) ∙ idle-same p id j b),
  )
]

-- For a valid pool `rbtPool_count` is the number of slots in use.
pub count-busy : (p : Pool) → IsValid p → count p ≡ busy_count p.pool
unfolding count
count-busy p (is, v) = omega (arith, v.all_slots)
