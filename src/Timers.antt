-- ===== src/Timers.antt =====
-- rbtlib/time_process_list.c: timers in a doubly linked list, the earliest first, in an array of
-- nodes whose unused ones form a free list.
pub mod Segment
pub mod Storage
pub mod Links
pub mod Filled
pub mod Walk
pub mod Insert
pub mod Unlink
pub mod Remove
pub mod Runs
pub mod Order
mod Tests
use smart_rabbit_server.Base.{
  ℕ, zero, suc, ◌+◌, ◌-◌, ◌%◌, ◌^◌, ◌≡◌, ◌⊎◌, Bool, true, false, not, Option, none, some, List, [],
  ◌∷◌, ◌++◌, ◌==◌, if◌then◌else◌, get_elem?, set,
}
use smart_rabbit_server.Base.Int.{ℤ, negsuc}

-- `struct timeval` and the comparisons of `timercmp`, which sys/time.h provides, as a total order.
pub record Clock (T : Type 0) : Type 0 where
  pub ge : T → T → Bool
  pub gt : T → T → Bool
  pub gt_lem : (s t : T) → gt s t ≡ not (ge t s)
  pub ge_total : (s t : T) → (ge s t ≡ true) ⊎ (ge t s ≡ true)
  pub ge_trans : (s t u : T) → ge s t ≡ true → ge t u ≡ true → ge s u ≡ true

-- `struct node`; `LINK_NULL` is `none`. `A` is what `argv` points to.
pub record Node (A T : Type 0) : Type 0 where
  pub handler : ℕ
  pub param : ℤ
  pub argv : A
  pub t : T
  pub next : Option ℕ
  pub prev : Option ℕ

-- `struct tm_list`, less the collector's part.
pub record TmList (A T : Type 0) : Type 0 where
  pub num : ℕ
  pub node : List (Node A T)
  pub size : ℕ
  pub free : Option ℕ
  pub first_ex : Option ℕ
  pub handler : ℕ

abbrev pub node_init_num : ℕ
node_init_num = 32

module _ {A T : Type 0} where
  -- `n` nodes of fresh memory from index `i` on, linked one to the next. `blank` is what fresh
  -- memory holds.
  abbrev pub free_nodes : Node A T → ℕ → ℕ → List (Node A T)
  free_nodes blank i zero = []
  free_nodes blank i (suc zero) = record blank { next = none } ∷ []
  free_nodes blank i (suc (suc n)) =
      record blank { next = some (i + 1) } ∷ free_nodes blank (i + 1) (suc n)

  -- `tm_list_init`
  unfoldable pub init : Node A T → TmList A T
  init blank = record {
    num = 0;
    node = free_nodes blank 0 node_init_num;
    size = node_init_num;
    free = some 0;
    first_ex = none;
    handler = 0;
  }

  -- `resize`
  unfoldable pub resize : Node A T → TmList A T → TmList A T
  resize blank l = record l {
    node = l.node ++ free_nodes blank l.size node_init_num;
    free = some l.size;
    size = l.size + node_init_num;
  }

  -- `get_free_node` where `free` is not `LINK_NULL`; `none` is an index outside the array.
  unfoldable pub take_node : TmList A T → Option (ℕ × TmList A T)
  take_node l = elim l.free [
    | none ↦ none
    | some at ↦ elim (get_elem? l.node at) [
      | none ↦ none
      | some n ↦ some (at, record l { free = n.next })
    ]
  ]

  -- `get_free_node`
  unfoldable pub get_free_node : Node A T → TmList A T → Option (ℕ × TmList A T)
  get_free_node blank l =
      let grown = take_node (resize blank l) in
      let here = take_node l in elim l.free [ none ↦ grown | some at ↦ here ]

  -- A write to fields of the node at an index. The theorems have each index inside the array.
  abbrev pub change : List (Node A T) → ℕ → (Node A T → Node A T) → List (Node A T)
  change ns i f = elim (get_elem? ns i) [ none ↦ ns | some n ↦ set ns i (f n) ]

  abbrev pub change? : List (Node A T) → Option ℕ → (Node A T → Node A T) → List (Node A T)
  change? ns none f = ns
  change? ns (some i) f = change ns i f

  abbrev pub set_next : Option ℕ → Node A T → Node A T
  set_next i n = record n { next = i }

  abbrev pub set_prev : Option ℕ → Node A T → Node A T
  set_prev i n = record n { prev = i }

  abbrev pub set_links : Option ℕ → Option ℕ → Node A T → Node A T
  set_links i j n = record n { next = i; prev = j }

  -- `insert`: the node at `at` goes before the one at `after`.
  unfoldable pub insert : TmList A T → ℕ → ℕ → Option (TmList A T)
  insert l after at = elim (get_elem? l.node after) [
    | none ↦ none
    | some aft ↦
        let linked =
          change (change l.node at (set_links (some after) aft.prev)) after (set_prev (some at)) in
        some (record l {
          node = change? linked aft.prev (set_next (some at));
          first_ex = elim aft.prev [ none ↦ some at | some pre ↦ l.first_ex ];
        })
  ]

  -- What `tm_list_insert_ex` does once its loop has passed the last node.
  unfoldable pub append_node : TmList A T → ℕ → ℕ → TmList A T
  append_node l last at = record l {
    node = change (change l.node last (set_next (some at))) at (set_links none (some last));
  }

  -- The loop of `tm_list_insert_ex` from a node that is there.
  unfoldable pub insert_loop : Clock T → ℕ → TmList A T → T → ℕ → ℕ → Option (TmList A T)
  insert_loop clock zero l tm at p = none
  insert_loop clock (suc fuel) l tm at p =
      let here = insert l p at in
      elim (get_elem? l.node p) [
        | none ↦ none
        | some n ↦
            let on : Option ℕ → Option (TmList A T) = λ next. elim next [
              | none ↦ some (append_node l p at)
              | some q ↦ insert_loop clock fuel l tm at q
            ] in
            if clock.ge n.t tm then here else on n.next
      ]

  -- `tm_list_insert_ex` once it has a node.
  unfoldable pub place : Clock T → ℕ → ℤ → A → T → ℕ → TmList A T → Option (TmList A T)
  place clock fuel param argv tm at l =
      let fill : Node A T → Node A T =
        λ n. record n { handler = l.handler; param = param; argv = argv; t = tm } in
      let filled = record l {
        node = change l.node at fill;
        handler = (l.handler + 1) % 2 ^ 32;
        num = l.num + 1;
      } in
      elim l.first_ex [
        | none ↦ some (record filled {
          node = change filled.node at (set_links none none);
          first_ex = some at;
        })
        | some first ↦ insert_loop clock fuel filled tm at first
      ]

  -- `tm_list_insert_ex`, which returns 0.
  unfoldable pub insert_ex : Clock T → Node A T → ℕ → ℤ → A → T → TmList A T → Option (TmList A T)
  insert_ex clock blank fuel param argv tm l = elim (get_free_node blank l) [
    | none ↦ none
    | some r ↦ place clock fuel param argv tm r.0 r.1
  ]

  -- `tm_list_next_ex`: the return value and `*argv`, and the list.
  unfoldable pub next_ex : Clock T → T → TmList A T → Option (ℤ × Option A × TmList A T)
  next_ex clock tm l = elim l.first_ex [
    | none ↦ some (negsuc 0, none, l)
    | some at ↦ elim (get_elem? l.node at) [
      | none ↦ none
      | some n ↦
          let rest = change? l.node n.next (set_prev none) in
          let out = record l {
            num = l.num - 1;
            first_ex = n.next;
            node = change rest at (set_next l.free);
            free = some at;
          } in
          if clock.gt n.t tm then some (negsuc 0, none, l) else some (n.param, some n.argv, out)
    ]
  ]

  -- `remove_at`
  unfoldable pub remove_at : TmList A T → ℕ → Option (TmList A T)
  remove_at l at = elim (get_elem? l.node at) [
    | none ↦ none
    | some n ↦
        let linked = change? (change? l.node n.next (set_prev n.prev)) n.prev (set_next n.next) in
        some (record l {
          node = change linked at (set_next l.free);
          first_ex = elim n.prev [ none ↦ n.next | some pre ↦ l.first_ex ];
          free = some at;
          num = l.num - 1;
        })
  ]

  -- The loop of `tm_list_remove`, which returns 0.
  unfoldable pub remove_loop : ℕ → TmList A T → ℕ → Option ℕ → Option (TmList A T)
  remove_loop fuel l handler none = some l
  remove_loop zero l handler (some at) = none
  remove_loop (suc fuel) l handler (some at) =
      let here = remove_at l at in
      elim (get_elem? l.node at) [
        | none ↦ none
        | some n ↦
            let on = remove_loop fuel l handler n.next in if n.handler == handler then here else on
      ]

  unfoldable pub remove : ℕ → ℕ → TmList A T → Option (TmList A T)
  remove fuel handler l = remove_loop fuel l handler l.first_ex
