-- ===== src/Table/Frames.antt =====
-- What a change in the middle of the chains of rbtlib/table.c leaves alone.
use smart_rabbit_server.Base.{
  ℕ, ◌≡◌, ◌≢◌, ◌⊎◌, inl, inr, refl, sym, ap, ◌∙◌, subst, Bool, true, false, Bool-cases, Option,
  some, List, [], ◌∷◌, ◌++◌, ◌==◌, ==_iff, if◌then◌else◌, get_elem?-update_ne, update,
}
use smart_rabbit_server.Base.Distinct.{Misses, Misses-split, Distinct, Distinct-remove}
use smart_rabbit_server.Table.{Keys, Node, main_position}
use smart_rabbit_server.Table.Chains.{
  Entry, In, In-Misses, indices, keys_of, head_or, link_of, node_of, Linked, Placed, NoMain, Owned,
}
use smart_rabbit_server.Table.Find.{eq-false}

module _ {K V : Type 0} where
  pub indices-append : (xs ys : List (Entry K V)) → indices (xs ++ ys) ≡ indices xs ++ indices ys
  indices-append [] ys = refl
  indices-append (e ∷ xs) ys = ap (λ t. e.at ∷ t) (indices-append xs ys)

  pub keys_of-append : (xs ys : List (Entry K V)) → keys_of (xs ++ ys) ≡ keys_of xs ++ keys_of ys
  keys_of-append [] ys = refl
  keys_of-append (e ∷ xs) ys = ap (λ t. e.key ∷ t) (keys_of-append xs ys)

  -- The entry of an index.
  pub locate :
      (p : ℕ) (es : List (Entry K V))
      → Misses p (indices es)
        ⊎ ((xs : List (Entry K V)) × (e : Entry K V) × (ys : List (Entry K V)) × (es
              ≡ xs ++ (e ∷ ys))
            × (e.at ≡ p))
  locate p [] = inl tt
  locate p (d ∷ es) = elim (Bool-cases (d.at == p)) [
    | inl y ↦ inr ([], d, es, refl, (==_iff d.at p).0 y)
    | inr n ↦ elim (locate p es) [
      | inl m ↦ inl (eq-false d.at p n, m)
      | inr (xs, e, ys, q, a) ↦ inr (d ∷ xs, e, ys, ap (λ t. d ∷ t) q, a)
    ]
  ]

  pub Distinct-middle :
      (xs : List (Entry K V)) (e : Entry K V) (ys : List (Entry K V))
      → Distinct (indices (xs ++ (e ∷ ys)))
      → Distinct (indices xs ++ indices ys) × Misses e.at (indices xs) × Misses e.at (indices ys)
  Distinct-middle xs e ys d =
      let (d', m) =
        Distinct-remove e.at (indices xs) (indices ys)
          (subst Distinct (indices-append xs (e ∷ ys)) d) in
      let (a, b) = Misses-split e.at (indices xs) (indices ys) m in (d', a, b)

  pub Misses-indices :
      (p : ℕ) (xs : List (Entry K V)) (ys : List (Entry K V))
      → Misses p (indices (xs ++ ys))
      → Misses p (indices xs) × Misses p (indices ys)
  Misses-indices p xs ys m =
      Misses-split p (indices xs) (indices ys) (subst (Misses p) (indices-append xs ys) m)

  head_or-append :
      (xs ys : List (Entry K V)) (after : Option ℕ)
      → head_or (xs ++ ys) after ≡ head_or xs (head_or ys after)
  head_or-append [] ys after = refl
  head_or-append (x ∷ xs) ys after = refl

  pub Linked-append :
      (ns : List (Node K V)) (xs ys : List (Entry K V)) (after : Option ℕ)
      → Linked ns xs (head_or ys after)
      → Linked ns ys after
      → Linked ns (xs ++ ys) after
  Linked-append ns [] ys after l k = k
  Linked-append ns (e ∷ xs) ys after (g, l) k = (
    g ∙ ap (λ o. some (node_of e (link_of e o))) (sym (head_or-append xs ys after)),
    Linked-append ns xs ys after l k,
  )

  pub Linked-split :
      (ns : List (Node K V)) (xs ys : List (Entry K V)) (after : Option ℕ)
      → Linked ns (xs ++ ys) after
      → Linked ns xs (head_or ys after) × Linked ns ys after
  Linked-split ns [] ys after l = (tt, l)
  Linked-split ns (e ∷ xs) ys after (g, l) =
      let (a, b) = Linked-split ns xs ys after l in
      ((g ∙ ap (λ o. some (node_of e (link_of e o))) (head_or-append xs ys after), a), b)

  pub Linked-update :
      (ns : List (Node K V)) (es : List (Entry K V)) (after : Option ℕ) (i : ℕ)
      (f : Node K V → Node K V)
      → Misses i (indices es)
      → Linked ns es after
      → Linked (update ns i f) es after
  Linked-update ns [] after i f m l = tt
  Linked-update ns (e ∷ es) after i f (ne, m) (g, l) =
      (get_elem?-update_ne ns f (λ q. ne (sym q)) ∙ g, Linked-update ns es after i f m l)

  -- The entries before the change keep their places.
  pub Placed-front :
      (keys : Keys K) (size : ℕ) (seen : List ℕ) (xs zs zs' : List (Entry K V))
      → ((s : List ℕ) → Placed keys size s zs → Placed keys size s zs')
      → Placed keys size seen (xs ++ zs)
      → Placed keys size seen (xs ++ zs')
  Placed-front keys size seen [] zs zs' f pl = f seen pl
  Placed-front keys size seen (x ∷ xs) zs zs' f (n, pl) =
      (n, Placed-front keys size (if x.more then x.at ∷ seen else []) xs zs zs' f pl)

  -- Those behind it keep theirs where the chain before them still has all that is a main position.
  pub Placed-tail :
      (keys : Keys K) (size p : ℕ) (s s' : List ℕ) (es : List (Entry K V))
      → NoMain keys size p es
      → ((q : ℕ) → q ≢ p → In q s → In q s')
      → Placed keys size s es
      → Placed keys size s' es
  Placed-tail keys size p s s' [] nm f pl = tt
  Placed-tail keys size p s s' (e ∷ es) (ne, nm) f (n, pl) = (
    elim n [ inl y ↦ inl y | inr y ↦ inr (f (main_position keys size e.key) ne y) ],
    elim (Bool-cases e.more) [
      | inl m ↦
          subst (λ b. Placed keys size (if b then e.at ∷ s' else []) es) (sym m)
            (Placed-tail keys size p (e.at ∷ s) (e.at ∷ s') es nm
              (λ q h. λ i. elim i [ inl y ↦ inl y | inr y ↦ inr (f q h y) ])
              (subst (λ b. Placed keys size (if b then e.at ∷ s else []) es) m pl))
      | inr m ↦
          subst (λ b. Placed keys size (if b then e.at ∷ s' else []) es) (sym m)
            (subst (λ b. Placed keys size (if b then e.at ∷ s else []) es) m pl)
    ],
  )

  pub Placed-if :
      (keys : Keys K) (size p : ℕ) (s s' : List ℕ) (es : List (Entry K V)) (b : Bool)
      → NoMain keys size p es
      → ((q : ℕ) → q ≢ p → In q s → In q s')
      → Placed keys size (if b then s else []) es
      → Placed keys size (if b then s' else []) es
  Placed-if keys size p s s' es true nm f pl = Placed-tail keys size p s s' es nm f pl
  Placed-if keys size p s s' es false nm f pl = pl

  -- No key has its main position at a node that is not in use.
  pub NoMain-unused :
      (keys : Keys K) (size p : ℕ) (seen : List ℕ) (es : List (Entry K V))
      → Placed keys size seen es
      → Misses p seen
      → Misses p (indices es)
      → NoMain keys size p es
  NoMain-unused keys size p seen [] pl ms me = tt
  NoMain-unused keys size p seen (e ∷ es) (n, pl) ms (ne, me) = (
    (λ q. In-Misses p (e.at ∷ seen) (subst (λ i. In i (e.at ∷ seen)) q n) (ne, ms)),
    elim (Bool-cases e.more) [
      | inl m ↦
          NoMain-unused keys size p (e.at ∷ seen) es
            (subst (λ b. Placed keys size (if b then e.at ∷ seen else []) es) m pl) (ne, ms) me
      | inr m ↦
          NoMain-unused keys size p [] es
            (subst (λ b. Placed keys size (if b then e.at ∷ seen else []) es) m pl) tt me
    ],
  )

  pub NoMain-front :
      (keys : Keys K) (size p : ℕ) (xs zs zs' : List (Entry K V))
      → (NoMain keys size p zs → NoMain keys size p zs')
      → NoMain keys size p (xs ++ zs)
      → NoMain keys size p (xs ++ zs')
  NoMain-front keys size p [] zs zs' f nm = f nm
  NoMain-front keys size p (x ∷ xs) zs zs' f (ne, nm) =
      (ne, NoMain-front keys size p xs zs zs' f nm)

  pub NoMain-back :
      (keys : Keys K) (size p : ℕ) (xs ys : List (Entry K V))
      → NoMain keys size p (xs ++ ys)
      → NoMain keys size p ys
  NoMain-back keys size p [] ys nm = nm
  NoMain-back keys size p (x ∷ xs) ys (ne, nm) = NoMain-back keys size p xs ys nm

  pub Owned-append :
      (keys : Keys K) (size : ℕ) (all xs ys : List (Entry K V))
      → Owned keys size all xs
      → Owned keys size all ys
      → Owned keys size all (xs ++ ys)
  Owned-append keys size all [] ys o u = u
  Owned-append keys size all (x ∷ xs) ys (c, o) u = (c, Owned-append keys size all xs ys o u)

  pub Owned-split :
      (keys : Keys K) (size : ℕ) (all xs ys : List (Entry K V))
      → Owned keys size all (xs ++ ys)
      → Owned keys size all xs × Owned keys size all ys
  Owned-split keys size all [] ys o = (tt, o)
  Owned-split keys size all (x ∷ xs) ys (c, o) =
      let (a, b) = Owned-split keys size all xs ys o in ((c, a), b)

  -- The other nodes when a key comes whose main position is `p`.
  pub Owned-all :
      (keys : Keys K) (size p : ℕ) (all all' es : List (Entry K V))
      → Misses p (indices es)
      → ((i : ℕ) → p ≢ i → NoMain keys size i all → NoMain keys size i all')
      → Owned keys size all es
      → Owned keys size all' es
  Owned-all keys size p all all' [] m f o = tt
  Owned-all keys size p all all' (e ∷ es) (ne, m) f (c, o) = (
    elim c [ inl y ↦ inl y | inr y ↦ inr (f e.at (λ q. ne (sym q)) y) ],
    Owned-all keys size p all all' es m f o,
  )
