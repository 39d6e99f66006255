-- ===== src/Table/Before.antt =====
-- `newkey` of rbtlib/table.c finds the node before one that it moves.
use smart_rabbit_server.Base.{
  ℕ, zero, suc, ◌<◌, ◌≡◌, ◌≢◌, ◌⊎◌, inl, inr, refl, sym, ap, ◌∙◌, subst, true, Bool-cases, Option,
  none, some, List, [], ◌∷◌, ◌++◌, ◌==◌, ==_iff, if◌then◌else◌, get_elem?, length, length-append,
  append_assoc, arith,
}
use smart_rabbit_server.Base.Distinct.{Misses}
use smart_rabbit_server.Table.{Keys, Node, main_position, find_before}
use smart_rabbit_server.Table.Frames.{Misses-indices, Linked-split}
use smart_rabbit_server.Table.Chains.{Entry, In, indices, link_of, node_of, Linked, Placed}

module _ {K V : Type 0} where
  -- The chain goes on with every one of the entries.
  abbrev AllMore : List (Entry K V) → Type 0
  AllMore [] = Unit
  AllMore (e ∷ es) = (e.more ≡ true) × AllMore es

  -- The part of the chain before the entry that follows.
  abbrev seen_at : List ℕ → List (Entry K V) → List ℕ
  seen_at seen [] = seen
  seen_at seen (x ∷ xs) = seen_at (if x.more then x.at ∷ seen else []) xs

  Placed-In :
      (keys : Keys K) (size : ℕ) (seen : List ℕ) (xs : List (Entry K V)) (e : Entry K V)
      (ys : List (Entry K V))
      → Placed keys size seen (xs ++ (e ∷ ys))
      → In (main_position keys size e.key) (e.at ∷ seen_at seen xs)
  Placed-In keys size seen [] e ys pl = pl.0
  Placed-In keys size seen (x ∷ xs) e ys (n, pl) =
      Placed-In keys size (if x.more then x.at ∷ seen else []) xs e ys pl

  -- A node earlier in the chain is that of an entry from which the chain goes on.
  chain_from :
      (p : ℕ) (seen : List ℕ) (xs : List (Entry K V))
      → In p (seen_at seen xs)
      → (In p seen × AllMore xs)
        ⊎ ((us : List (Entry K V)) × (d : Entry K V) × (ws : List (Entry K V)) × (xs
              ≡ us ++ (d ∷ ws))
            × (d.at ≡ p)
            × AllMore (d ∷ ws))
  chain_from p seen [] i = inl (i, tt)
  chain_from p seen (x ∷ xs) i = elim (chain_from p (if x.more then x.at ∷ seen else []) xs i) [
    | inr (us, d, ws, q, a, m) ↦ inr (x ∷ us, d, ws, ap (λ t. x ∷ t) q, a, m)
    | inl (j, m) ↦ elim (Bool-cases x.more) [
      | inr f ↦ absurd (subst (λ b. In p (if b then x.at ∷ seen else [])) f j)
      | inl t ↦ elim (subst (λ b. In p (if b then x.at ∷ seen else [])) t j) [
        | inl q ↦ inr ([], x, xs, refl, sym q, (t, m))
        | inr k ↦ inl (k, (t, m))
      ]
    ]
  ]

  find_before-here :
      (fuel : ℕ) (ns : List (Node K V)) (d : Entry K V) (next : Option ℕ) (mp : ℕ)
      → get_elem? ns d.at ≡ some (node_of d next)
      → next ≡ some mp
      → find_before (suc fuel) ns d.at mp ≡ some d.at
  unfolding find_before
  find_before-here fuel ns d next mp g q =
      rw (g, find_before, q)
        (ap (λ b. if b then some d.at else find_before fuel ns mp mp) ((==_iff mp mp).1 refl))

  find_before-next :
      (fuel : ℕ) (ns : List (Node K V)) (d : Entry K V) (next : Option ℕ) (j mp : ℕ)
      → get_elem? ns d.at ≡ some (node_of d next)
      → next ≡ some j
      → j ≢ mp
      → find_before (suc fuel) ns d.at mp ≡ find_before fuel ns j mp
  unfolding find_before
  find_before-next fuel ns d next j mp g q ne = elim (Bool-cases (j == mp)) [
    | inl y ↦ absurd (ne ((==_iff j mp).0 y))
    | inr n ↦ rw (g, find_before, q, n)
  ]

  -- The loop stops at the last entry before the node `mp`.
  before-last :
      (fuel : ℕ) (ns : List (Node K V)) (d : Entry K V) (ws : List (Entry K V)) (mp : ℕ)
      → Linked ns (d ∷ ws) (some mp)
      → AllMore (d ∷ ws)
      → Misses mp (indices ws)
      → length ws < fuel
      → (zs : List (Entry K V)) × (l : Entry K V) × (d ∷ ws ≡ zs ++ (l ∷ []))
        × (l.more ≡ true)
        × (find_before fuel ns d.at mp ≡ some l.at)
  before-last zero ns d ws mp l a m h = absurd (omega arith)
  before-last (suc fuel) ns d [] mp (g, l) (a, _) m h = (
    [],
    d,
    refl,
    a,
    find_before-here fuel ns d (link_of d (some mp)) mp g (ap (λ b. if b then some mp else none) a),
  )
  before-last (suc fuel) ns d (w ∷ ws) mp (g, l) (a, bs) (ne, m) h =
      let (zs, c, q, t, f) = before-last fuel ns w ws mp l bs m (omega arith) in
      (
        d ∷ zs,
        c,
        ap (λ t. d ∷ t) q,
        t,
        find_before-next fuel ns d (link_of d (some w.at)) w.at mp g
              (ap (λ b. if b then some w.at else none) a) ne
            ∙ f,
      )

  -- A key that is not in its main position has a node before it in its chain, and the loop from its main
  -- position finds that node.
  pub find_before-last :
      (keys : Keys K) (size fuel : ℕ) (ns : List (Node K V)) (xs : List (Entry K V)) (e : Entry K V)
      (ys : List (Entry K V))
      → Linked ns (xs ++ (e ∷ ys)) none
      → Placed keys size [] (xs ++ (e ∷ ys))
      → main_position keys size e.key ≢ e.at
      → Misses e.at (indices xs)
      → length xs < fuel
      → (zs : List (Entry K V)) × (l : Entry K V) × (xs ≡ zs ++ (l ∷ []))
        × (l.more ≡ true)
        × (find_before fuel ns (main_position keys size e.key) e.at ≡ some l.at)
  find_before-last keys size fuel ns xs e ys lk pl ne m h =
      let p = main_position keys size e.key in
      let i : In p (seen_at [] xs) = elim (Placed-In keys size [] xs e ys pl) [
        | inl q ↦ absurd (ne q)
        | inr i ↦ i
      ] in
      elim (chain_from p [] xs i) [
        | inl (j, _) ↦ absurd j
        | inr (us, d, ws, q, a, ms) ↦
            let m' =
              (Misses-indices e.at us (d ∷ ws) (subst (λ t. Misses e.at (indices t)) q m)).1 in
            let l1 = (Linked-split ns xs (e ∷ ys) none lk).0 in
            let l2 =
              (Linked-split ns us (d ∷ ws) (some e.at)
                (subst (λ t. Linked ns t (some e.at)) q l1)).1 in
            let (zs, l, r, t, f) =
              before-last fuel ns d ws e.at l2 ms m'.1
                (omega (arith, ap length q, length-append us (d ∷ ws))) in
            (
              us ++ zs,
              l,
              q ∙ ap (λ t. us ++ t) r ∙ sym (append_assoc us zs (l ∷ [])),
              t,
              subst (λ i. find_before fuel ns i e.at ≡ some l.at) a f,
            )
      ]
