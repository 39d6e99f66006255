-- ===== src/Pool.antt =====
-- rbtlib/pool.c: a pool of slots that grows, with a free list threaded through the slots.
pub mod Chain
pub mod Slots
mod Tests
use smart_rabbit_server.Base.{
  ℕ, zero, suc, ◌+◌, ◌-◌, Bool, true, false, ◌&&◌, Option, none, some, List, [], ◌∷◌, ◌++◌, ltb,
  if◌then◌else◌, get_elem?, set,
}
use smart_rabbit_server.Base.Int.{ℤ, pos, negsuc, pos_part, ltb_ℤ}

-- `struct PoolLink`, the header of a slot: `POOL_LINK_NULL` is `none`.
pub record Link : Type 0 where
  pub next : Option ℕ
  pub busy : Bool

-- `struct Pool`, less the allocator, the size of an element and what the elements hold.
pub record Pool : Type 0 where
  pub pool : List Link
  pub size : ℕ
  pub init_size : ℕ
  pub last_free : Option ℕ
  pub nfree : ℕ

-- The loops of `rbtPool_init` and `resize`: `n` free slots from slot `i` on, each linked to the one
-- before it.
abbrev pub links : ℕ → Option ℕ → ℕ → List Link
links i next zero = []
links i next (suc n) = record { next = next; busy = false } ∷ links (suc i) (some i) n

-- `rbtPool_init`
unfoldable pub init : ℤ → Pool
init init_size =
    let n = if ltb_ℤ (pos 0) init_size then pos_part init_size else 16 in
    record { pool = links 0 none n; size = n; init_size = n; last_free = some (n - 1); nfree = n }

-- `resize`
unfoldable pub resize : Pool → Pool
resize p =
    let size = p.size + p.init_size in
    record p {
      pool = p.pool ++ links p.size none p.init_size;
      size = size;
      last_free = some (size - 1);
      nfree = p.init_size;
    }

-- `get_next_slot` behind its test: `none` is a slot outside the pool.
unfoldable pub take_slot : Pool → Option (ℕ × Pool)
take_slot p = elim p.last_free [
  | none ↦ none
  | some free ↦ elim (get_elem? p.pool free) [
    | none ↦ none
    | some link ↦ some (
      free,
      record p {
        pool = set p.pool free (record link { busy = true });
        last_free = link.next;
        nfree = p.nfree - 1;
      },
    )
  ]
]

-- `get_next_slot`, which is `rbtPool_push`
unfoldable pub push : Pool → Option (ℕ × Pool)
push p =
    let grown = take_slot (resize p) in
    let here = take_slot p in elim p.last_free [ none ↦ grown | some free ↦ here ]

-- `rbtPool_at`: the slot whose element it points to.
unfoldable pub at : Pool → ℤ → Option ℕ
at p (pos id) = if ltb id p.size then some id else none
at p (negsuc n) = none

-- `rbtPool_free`, which ignores a slot that is not in use.
unfoldable pub free_at : Pool → ℕ → Pool
free_at p id = elim (get_elem? p.pool id) [
  | none ↦ p
  | some link ↦
      if link.busy
      then record p {
        pool = set p.pool id (record { next = p.last_free; busy = false });
        last_free = some id;
        nfree = p.nfree + 1;
      }
      else p
]

unfoldable pub free : Pool → ℤ → Pool
free p (pos id) = if ltb id p.size then free_at p id else p
free p (negsuc n) = p

-- `rbtPool_count`
unfoldable pub count : Pool → ℕ
count p = p.size - p.nfree
