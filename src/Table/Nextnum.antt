-- ===== src/Table/Nextnum.antt =====
-- `rbtH_setnextnum` of rbtlib/table.c may hide a value.
use smart_rabbit_server.Base.{
  ℕ, zero, suc, ◌+◌, ◌<◌, ◌≤◌, ◌≡◌, refl, ap, Option, none, some, List, [], ◌∷◌, ◌++◌, lt→ltb,
  if◌then◌else◌, length, length-append, get_or, arith,
}
use smart_rabbit_server.Table.{Keys, Table, in_vector}
use smart_rabbit_server.Table.Ops.{get_node, get, read, lookup}
use smart_rabbit_server.Table.Scan.{
  first_nil, is_some, count_some, vals_of, count, rmnum, setnextnum,
}

get_or-nils :
    {A : Type 0} (xs : List (Option A)) (i : ℕ)
    → length xs ≤ i
    → get_or (xs ++ (none ∷ none ∷ [])) i none ≡ none
get_or-nils [] zero h = refl
get_or-nils [] (suc zero) h = refl
get_or-nils [] (suc (suc i)) h = refl
get_or-nils (x ∷ xs) zero h = absurd (omega arith)
get_or-nils (x ∷ xs) (suc i) h = get_or-nils xs i (omega arith)

count_some-nils :
    {A : Type 0} (xs : List (Option A)) → count_some (xs ++ (none ∷ none ∷ [])) ≡ count_some xs
count_some-nils [] = refl
count_some-nils (x ∷ xs) = ap (λ n. if is_some x then suc n else n) (count_some-nils xs)

module _ {K V : Type 0} where
  get-index :
      (keys : Keys K) (t : Table K V) (i : ℕ)
      → i < length t.vector
      → get keys t (keys.of_index i) ≡ some (some (in_vector i))
  unfolding get
  get-index keys t i h =
      rw (keys.index_of_index i, get)
        (ap (λ b. if b then some (some (in_vector i)) else get_node keys t (keys.of_index i))
          (lt→ltb i (length t.vector) h))

  read-nil : (t : Table K V) (i : ℕ) → get_or t.vector i none ≡ none → read t (in_vector i) ≡ none
  unfolding read
  read-nil t i h = h

  rmnum-nil :
      (keys : Keys K) (t : Table K V) (i : ℕ)
      → i < length t.vector
      → get_or t.vector i none ≡ none
      → rmnum keys t i ≡ some t
  unfolding rmnum
  rmnum-nil keys t i h q = rw (get-index keys t i h, rmnum, read-nil t i q)

  lookup-nil :
      (keys : Keys K) (t : Table K V) (i : ℕ)
      → i < length t.vector
      → get_or t.vector i none ≡ none
      → lookup keys t (keys.of_index i) ≡ some none
  unfolding lookup
  lookup-nil keys t i h q = rw (get-index keys t i h, lookup, read-nil t i q)

  setnextnum-grow :
      (keys : Keys K) (t t' : Table K V)
      → first_nil 0 t.vector ≡ none
      → rmnum keys (record t { vector = t.vector ++ (none ∷ none ∷ []) }) (length t.vector)
        ≡ some t'
      → setnextnum keys t ≡ some (length t.vector, t')
  unfolding setnextnum
  setnextnum-grow keys t t' n q = rw (n, setnextnum, q)

  -- When the array part has no nil, `rbtH_setnextnum` makes two new slots and removes nothing from the hash
  -- part, for it asks `rbtH_getnum` after the array has grown. Both new indices then read as nil, also
  -- where the hash part has a value under the second one, and the number of values stays the same.
  pub setnextnum-hides :
      (keys : Keys K) (t : Table K V)
      → first_nil 0 t.vector ≡ none
      → (t' : Table K V) × (setnextnum keys t ≡ some (length t.vector, t'))
        × (t'.node ≡ t.node)
        × (count t' ≡ count t)
        × (lookup keys t' (keys.of_index (length t.vector)) ≡ some none)
        × (lookup keys t' (keys.of_index (length t.vector + 1)) ≡ some none)
  unfolding count
  setnextnum-hides keys t n =
      let two : List (Option V) = none ∷ none ∷ [] in
      let t' : Table K V = record t { vector = t.vector ++ two } in
      let a : length t.vector < length t'.vector = omega (arith, length-append t.vector two) in
      let b : length t.vector + 1 < length t'.vector = omega (arith, length-append t.vector two) in
      let p = get_or-nils t.vector (length t.vector) (omega arith) in
      let q = get_or-nils t.vector (length t.vector + 1) (omega arith) in
      (
        t',
        setnextnum-grow keys t t' n (rmnum-nil keys t' (length t.vector) a p),
        refl,
        ap (λ m. m + count_some (vals_of t.node)) (count_some-nils t.vector),
        lookup-nil keys t' (length t.vector) a p,
        lookup-nil keys t' (length t.vector + 1) b q,
      )
