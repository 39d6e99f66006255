-- ===== src/Table/Link.antt =====
-- `newkey` of rbtlib/table.c links a free node behind a key, or moves a key that is in the way.
use smart_rabbit_server.Base.{
  ℕ, ◌<◌, ◌≡◌, ◌≢◌, inl, inr, sym, ◌∙◌, subst, true, Option, none, some, List, [], ◌∷◌, ◌++◌,
  get_elem?, get_elem?-update_self, get_elem?-update_ne, update, length, length-update,
}
use smart_rabbit_server.Base.Distinct.{Misses, Misses-append, Distinct, Distinct-next}
use smart_rabbit_server.Table.{Keys, Node, empty_node, set_next, set_key, main_position}
use smart_rabbit_server.Table.Chains.{
  Entry, indices, keys_of, head_or, link_of, node_of, Linked, NoMain, Holds,
}
use smart_rabbit_server.Table.Frames.{
  indices-append, keys_of-append, Distinct-middle, Misses-indices, Linked-append, Linked-split,
  Linked-update, Placed-front, Placed-if, NoMain-unused, NoMain-front, NoMain-back, Owned-append,
  Owned-split, Owned-all,
}
use smart_rabbit_server.Table.Grow.{make-Holds, fresh}

module _ {K V : Type 0} where
  -- What `newkey` makes of the nodes when the key in the way is in its main position.
  abbrev pub near : List (Node K V) → ℕ → ℕ → Option ℕ → K → List (Node K V)
  near ns fn mp next k =
      update (update (update ns fn (set_next next)) mp (set_next (some fn))) fn (set_key k)

  pub near-Holds :
      (keys : Keys K) (ns : List (Node K V)) (fn : ℕ) (xs : List (Entry K V)) (e : Entry K V)
      (ys : List (Entry K V)) (k : K)
      → Holds keys ns (xs ++ (e ∷ ys))
      → Misses k (keys_of (xs ++ (e ∷ ys)))
      → e.at ≡ main_position keys (length ns) k
      → main_position keys (length ns) e.key ≡ e.at
      → fn < length ns
      → Misses fn (indices (xs ++ (e ∷ ys)))
      → Holds keys
          (near ns fn e.at (link_of e (head_or ys none)) k)
          (xs ++ (record e { more = true } ∷ fresh fn k e.more ∷ ys))
  near-Holds keys ns fn xs e ys k h f q at_main lt mf =
      let size = length ns in
      let e' : Entry K V = record e { more = true } in
      let new : Entry K V = fresh fn k e.more in
      let nx = link_of e (head_or ys none) in
      let ns1 = update ns fn (set_next nx) in
      let ns2 = update ns1 e.at (set_next (some fn)) in
      let ns3 = update ns2 fn (set_key k) in
      let (lx, (g, ly)) = Linked-split ns xs (e ∷ ys) none h.linked in
      let (d, mx, my) = Distinct-middle xs e ys h.listed in
      let (fx, (ef, fy)) = Misses-indices fn xs (e ∷ ys) mf in
      let (ox, (oe, oy)) = Owned-split keys size (xs ++ (e ∷ ys)) xs (e ∷ ys) h.owned in
      let free = NoMain-unused keys size fn [] (xs ++ (e ∷ ys)) h.placed tt mf in
      let more : (i : ℕ)
          → e.at ≢ i
          → NoMain keys size i (xs ++ (e ∷ ys))
          → NoMain keys size i (xs ++ (e' ∷ new ∷ ys)) =
        λ i ne.
          NoMain-front keys size i xs (e ∷ ys) (e' ∷ new ∷ ys)
            (λ nm. (nm.0, ((λ z. ne (q ∙ z)), nm.1))) in
      let keep : (es : List (Entry K V)) (after : Option ℕ)
          → Misses fn (indices es)
          → Misses e.at (indices es)
          → Linked ns es after
          → Linked ns3 es after =
        λ es after mn me l. Linked-update ns2 es after fn (set_key k) mn (
          Linked-update ns1 es after e.at (set_next (some fn)) me
            (Linked-update ns es after fn (set_next nx) mn l)) in
      let ne : fn ≢ e.at = λ z. ef (sym z) in
      let ge =
        get_elem?-update_ne ns2 (set_key k) ne
        ∙ get_elem?-update_self ns1 e.at (set_next (some fn)) (node_of e nx)
            (get_elem?-update_ne ns (set_next nx) ne ∙ g) in
      let g1 = get_elem?-update_self ns fn (set_next nx) empty_node (h.unused fn lt mf) in
      let gf =
        get_elem?-update_self ns2 fn (set_key k) (record { key = none; val = none; next = nx })
          (get_elem?-update_ne ns1 (set_next (some fn)) ef ∙ g1) in
      let nb = (NoMain-back keys size fn xs (e ∷ ys) free).1 in
      make-Holds keys size ns3 (xs ++ (e' ∷ new ∷ ys))
        (length-update ns2 fn (set_key k)
          ∙ length-update ns1 e.at (set_next (some fn))
          ∙ length-update ns fn (set_next nx))
        (Linked-append ns3 xs (e' ∷ new ∷ ys) none (keep xs (some e.at) fx mx lx)
          (ge, (gf, keep ys none fy my ly)))
        (subst Distinct (sym (indices-append xs (e' ∷ new ∷ ys))) (
          Distinct-next fn e.at (indices xs) (indices ys)
            (subst (Misses fn) (indices-append xs (e ∷ ys)) mf)
            (subst Distinct (indices-append xs (e ∷ ys)) h.listed)))
        (subst Distinct (sym (keys_of-append xs (e' ∷ new ∷ ys))) (
          Distinct-next k e.key (keys_of xs) (keys_of ys)
            (subst (Misses k) (keys_of-append xs (e ∷ ys)) f)
            (subst Distinct (keys_of-append xs (e ∷ ys)) h.keyed)))
        (λ i li mi.
          let (ix, (ie, (if', iy))) = Misses-indices i xs (e' ∷ new ∷ ys) mi in
          get_elem?-update_ne ns2 (set_key k) if'
          ∙ get_elem?-update_ne ns1 (set_next (some fn)) ie
          ∙ get_elem?-update_ne ns (set_next nx) if'
          ∙ h.unused i li (
              subst (Misses i) (sym (indices-append xs (e ∷ ys)))
                (Misses-append i (indices xs) (e.at ∷ indices ys) ix (ie, iy))))
        (Placed-front keys size [] xs (e ∷ ys) (e' ∷ new ∷ ys)
          (λ s pl. (
            pl.0,
            (
              inr (inl (sym q)),
              Placed-if keys size fn (e.at ∷ s) (fn ∷ e.at ∷ s) ys e.more nb (λ r z i. inr i) pl.1,
            ),
          ))
          h.placed)
        (Owned-append keys size (xs ++ (e' ∷ new ∷ ys)) xs (e' ∷ new ∷ ys)
          (Owned-all keys size e.at (xs ++ (e ∷ ys)) (xs ++ (e' ∷ new ∷ ys)) xs mx more ox)
          (
            inl at_main,
            (
              inr (more fn ef free),
              Owned-all keys size e.at (xs ++ (e ∷ ys)) (xs ++ (e' ∷ new ∷ ys)) ys my more oy,
            ),
          ))
        h.some_node

  -- What it makes of them when the key in the way moves, where `p` comes before it in its chain.
  abbrev pub far : List (Node K V) → ℕ → ℕ → ℕ → Node K V → K → List (Node K V)
  far ns fn mp p n k =
      update (update (update (update ns fn (λ _. n)) p (set_next (some fn))) mp (set_next none)) mp
        (set_key k)

  -- The nodes other than the three that are written.
  pub far-ne :
      (ns : List (Node K V)) (fn mp p : ℕ) (n : Node K V) (k : K) (i : ℕ)
      → fn ≢ i
      → mp ≢ i
      → p ≢ i
      → get_elem? (far ns fn mp p n k) i ≡ get_elem? ns i
  far-ne ns fn mp p n k i a b c =
      let ns1 = update ns fn (λ _. n) in
      let ns2 = update ns1 p (set_next (some fn)) in
      get_elem?-update_ne (update ns2 mp (set_next none)) (set_key k) b
      ∙ get_elem?-update_ne ns2 (set_next none) b
      ∙ get_elem?-update_ne ns1 (set_next (some fn)) c
      ∙ get_elem?-update_ne ns (λ _. n) a

  pub length-far :
      (ns : List (Node K V)) (fn mp p : ℕ) (n : Node K V) (k : K)
      → length (far ns fn mp p n k) ≡ length ns
  length-far ns fn mp p n k =
      let ns1 = update ns fn (λ _. n) in
      let ns2 = update ns1 p (set_next (some fn)) in
      length-update (update ns2 mp (set_next none)) mp (set_key k)
      ∙ length-update ns2 mp (set_next none)
      ∙ length-update ns1 p (set_next (some fn))
      ∙ length-update ns fn (λ _. n)

  pub far-mp :
      (ns : List (Node K V)) (fn mp p : ℕ) (e : Entry K V) (next : Option ℕ) (k : K)
      → fn ≢ mp
      → p ≢ mp
      → get_elem? ns mp ≡ some (node_of e next)
      → get_elem? (far ns fn mp p (node_of e next) k) mp
        ≡ some (record { key = some k; val = none; next = none })
  far-mp ns fn mp p e next k a c g =
      let ns1 = update ns fn (λ _. node_of e next) in
      let ns2 = update ns1 p (set_next (some fn)) in
      let g2 =
        get_elem?-update_ne ns1 (set_next (some fn)) c
        ∙ get_elem?-update_ne ns (λ _. node_of e next) a
        ∙ g in
      let g3 = get_elem?-update_self ns2 mp (set_next none) (node_of e next) g2 in
      get_elem?-update_self (update ns2 mp (set_next none)) mp (set_key k) (node_of e none) g3

  pub far-fn :
      (ns : List (Node K V)) (fn mp p : ℕ) (n m : Node K V) (k : K)
      → fn ≢ mp
      → fn ≢ p
      → get_elem? ns fn ≡ some m
      → get_elem? (far ns fn mp p n k) fn ≡ some n
  far-fn ns fn mp p n m k a c g =
      let ns1 = update ns fn (λ _. n) in
      let ns2 = update ns1 p (set_next (some fn)) in
      get_elem?-update_ne (update ns2 mp (set_next none)) (set_key k) (λ z. a (sym z))
      ∙ get_elem?-update_ne ns2 (set_next none) (λ z. a (sym z))
      ∙ get_elem?-update_ne ns1 (set_next (some fn)) (λ z. c (sym z))
      ∙ get_elem?-update_self ns fn (λ _. n) m g

  pub far-p :
      (ns : List (Node K V)) (fn mp p : ℕ) (n m : Node K V) (k : K)
      → fn ≢ p
      → mp ≢ p
      → get_elem? ns p ≡ some m
      → get_elem? (far ns fn mp p n k) p ≡ some (set_next (some fn) m)
  far-p ns fn mp p n m k a b g =
      let ns1 = update ns fn (λ _. n) in
      let ns2 = update ns1 p (set_next (some fn)) in
      get_elem?-update_ne (update ns2 mp (set_next none)) (set_key k) b
      ∙ get_elem?-update_ne ns2 (set_next none) b
      ∙ get_elem?-update_self ns1 p (set_next (some fn)) m (get_elem?-update_ne ns (λ _. n) a ∙ g)

  pub far-keep :
      (ns : List (Node K V)) (fn mp p : ℕ) (n : Node K V) (k : K) (es : List (Entry K V))
      (after : Option ℕ)
      → Misses fn (indices es)
      → Misses mp (indices es)
      → Misses p (indices es)
      → Linked ns es after
      → Linked (far ns fn mp p n k) es after
  far-keep ns fn mp p n k es after mn mm mp' l =
      let ns1 = update ns fn (λ _. n) in
      let ns2 = update ns1 p (set_next (some fn)) in
      Linked-update (update ns2 mp (set_next none)) es after mp (set_key k) mm (
        Linked-update ns2 es after mp (set_next none) mm (
          Linked-update ns1 es after p (set_next (some fn)) mp'
            (Linked-update ns es after fn (λ _. n) mn l)))
