-- ===== src/Timers/Segment.antt =====
-- Doubly linked segments in the node array of rbtlib/time_process_list.c.
use smart_rabbit_server.Base.{
  ℕ, ◌≡◌, ◌≢◌, refl, sym, ap, ◌∙◌, Option, some, List, [], ◌∷◌, ◌++◌, get_elem?, length,
  get_elem?-set_self, get_elem?-set_ne, get_elem?-lt, length-set, Option-cases, inl, inr,
}
use smart_rabbit_server.Base.Int.{ℤ}
use smart_rabbit_server.Base.Distinct.{Misses}
use smart_rabbit_server.Timers.{Node, change, set_next, set_prev}

-- A timer, without its place in the list.
pub record Event (A T : Type 0) : Type 0 where
  pub handler : ℕ
  pub param : ℤ
  pub argv : A
  pub t : T

module _ {A T : Type 0} where
  abbrev pub node_of : Event A T → Option ℕ → Option ℕ → Node A T
  node_of e next prev = record {
    handler = e.handler;
    param = e.param;
    argv = e.argv;
    t = e.t;
    next = next;
    prev = prev;
  }

  abbrev pub indices : List (ℕ × Event A T) → List ℕ
  indices [] = []
  indices ((i, e) ∷ cs) = i ∷ indices cs

  abbrev pub events : List (ℕ × Event A T) → List (Event A T)
  events [] = []
  events ((i, e) ∷ cs) = e ∷ events cs

  -- The first index of a segment that is followed by `next`, and the last of one that follows `prev`.
  abbrev pub first_or : List (ℕ × Event A T) → Option ℕ → Option ℕ
  first_or [] next = next
  first_or ((i, e) ∷ cs) next = some i

  abbrev pub last_or : Option ℕ → List (ℕ × Event A T) → Option ℕ
  last_or prev [] = prev
  last_or prev ((i, e) ∷ cs) = last_or (some i) cs

  -- The nodes of the segment hold its timers and are linked both ways, from `prev` to `next`.
  abbrev pub Seg : List (Node A T) → Option ℕ → List (ℕ × Event A T) → Option ℕ → Type 0
  Seg ns prev [] next = Unit
  Seg ns prev ((i, e) ∷ cs) next =
      (get_elem? ns i ≡ some (node_of e (first_or cs next) prev)) × Seg ns (some i) cs next

  pub get-change_self :
      (ns : List (Node A T)) (i : ℕ) (n : Node A T) (f : Node A T → Node A T)
      → get_elem? ns i ≡ some n
      → get_elem? (change ns i f) i ≡ some (f n)
  get-change_self ns i n f e =
      rw (e, change) (get_elem?-set_self ns i (f n) (get_elem?-lt ns i n e))

  pub get-change_ne :
      (ns : List (Node A T)) (i j : ℕ) (f : Node A T → Node A T)
      → i ≢ j
      → get_elem? (change ns i f) j ≡ get_elem? ns j
  get-change_ne ns i j f ne = elim (Option-cases (get_elem? ns i)) [
    | inl e ↦ rw (e, change)
    | inr (n, e) ↦ rw (e, change) (get_elem?-set_ne ns (f n) ne)
  ]

  pub length-change :
      (ns : List (Node A T)) (i : ℕ) (f : Node A T → Node A T) → length (change ns i f) ≡ length ns
  length-change ns i f = elim (Option-cases (get_elem? ns i)) [
    | inl e ↦ rw (e, change)
    | inr (n, e) ↦ rw (e, change) (length-set ns i (f n))
  ]

  pub Seg-change :
      (ns : List (Node A T)) (prev : Option ℕ) (cs : List (ℕ × Event A T)) (next : Option ℕ) (i : ℕ)
      (f : Node A T → Node A T)
      → Misses i (indices cs)
      → Seg ns prev cs next
      → Seg (change ns i f) prev cs next
  Seg-change ns prev [] next i f m s = tt
  Seg-change ns prev ((j, e) ∷ cs) next i f (ne, m) (g, s) =
      (get-change_ne ns i j f (λ q. ne (sym q)) ∙ g, Seg-change ns (some j) cs next i f m s)

  pub Seg-set_prev :
      (ns : List (Node A T)) (prev prev' : Option ℕ) (i : ℕ) (e : Event A T)
      (cs : List (ℕ × Event A T)) (next : Option ℕ)
      → Misses i (indices cs)
      → Seg ns prev ((i, e) ∷ cs) next
      → Seg (change ns i (set_prev prev')) prev' ((i, e) ∷ cs) next
  Seg-set_prev ns prev prev' i e cs next m (g, s) = (
    get-change_self ns i (node_of e (first_or cs next) prev) (set_prev prev') g,
    Seg-change ns (some i) cs next i (set_prev prev') m s,
  )

  first_or-snoc :
      (cs : List (ℕ × Event A T)) (c : ℕ × Event A T) (next next' : Option ℕ)
      → first_or (cs ++ (c ∷ [])) next ≡ first_or (cs ++ (c ∷ [])) next'
  first_or-snoc [] c next next' = refl
  first_or-snoc (d ∷ cs) c next next' = refl

  pub Seg-set_next :
      (ns : List (Node A T)) (prev : Option ℕ) (cs : List (ℕ × Event A T)) (q : ℕ) (e : Event A T)
      (next next' : Option ℕ)
      → Misses q (indices cs)
      → Seg ns prev (cs ++ ((q, e) ∷ [])) next
      → Seg (change ns q (set_next next')) prev (cs ++ ((q, e) ∷ [])) next'
  Seg-set_next ns prev [] q e next next' m (g, s) =
      (get-change_self ns q (node_of e next prev) (set_next next') g, tt)
  Seg-set_next ns prev ((i, d) ∷ cs) q e next next' (ne, m) (g, s) = (
    get-change_ne ns q i (set_next next') (λ x. ne (sym x))
        ∙ g
        ∙ ap (λ o. some (node_of d o prev)) (first_or-snoc cs (q, e) next next'),
    Seg-set_next ns (some i) cs q e next next' m s,
  )

  first_or-append :
      (xs ys : List (ℕ × Event A T)) (next : Option ℕ)
      → first_or (xs ++ ys) next ≡ first_or xs (first_or ys next)
  first_or-append [] ys next = refl
  first_or-append (x ∷ xs) ys next = refl

  pub Seg-append :
      (ns : List (Node A T)) (prev : Option ℕ) (xs ys : List (ℕ × Event A T)) (next : Option ℕ)
      → Seg ns prev xs (first_or ys next)
      → Seg ns (last_or prev xs) ys next
      → Seg ns prev (xs ++ ys) next
  Seg-append ns prev [] ys next s t = t
  Seg-append ns prev ((i, e) ∷ xs) ys next (g, s) t = (
    g ∙ ap (λ o. some (node_of e o prev)) (sym (first_or-append xs ys next)),
    Seg-append ns (some i) xs ys next s t,
  )

  pub Seg-split :
      (ns : List (Node A T)) (prev : Option ℕ) (xs ys : List (ℕ × Event A T)) (next : Option ℕ)
      → Seg ns prev (xs ++ ys) next
      → Seg ns prev xs (first_or ys next) × Seg ns (last_or prev xs) ys next
  Seg-split ns prev [] ys next s = (tt, s)
  Seg-split ns prev ((i, e) ∷ xs) ys next (g, s) =
      let (a, b) = Seg-split ns (some i) xs ys next s in
      ((g ∙ ap (λ o. some (node_of e o prev)) (first_or-append xs ys next), a), b)

  pub indices-append :
      (xs ys : List (ℕ × Event A T)) → indices (xs ++ ys) ≡ indices xs ++ indices ys
  indices-append [] ys = refl
  indices-append ((i, e) ∷ xs) ys = ap (λ t. i ∷ t) (indices-append xs ys)

  pub events-append : (xs ys : List (ℕ × Event A T)) → events (xs ++ ys) ≡ events xs ++ events ys
  events-append [] ys = refl
  events-append ((i, e) ∷ xs) ys = ap (λ t. e ∷ t) (events-append xs ys)

  pub last_or-snoc :
      (prev : Option ℕ) (xs : List (ℕ × Event A T)) (i : ℕ) (e : Event A T)
      → last_or prev (xs ++ ((i, e) ∷ [])) ≡ some i
  last_or-snoc prev [] i e = refl
  last_or-snoc prev ((j, d) ∷ xs) i e = last_or-snoc (some j) xs i e
