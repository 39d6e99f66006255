-- ===== src/Table/Move.antt =====
-- `newkey` of rbtlib/table.c moves a key that is in the way and gives its place to the new one.
use smart_rabbit_server.Base.{
  ℕ, ◌<◌, ◌≡◌, ◌≢◌, inl, inr, sym, ap, ◌∙◌, subst, true, false, none, some, List, [], ◌∷◌, ◌++◌,
  if◌then◌else◌, get_elem?, length, append_assoc,
}
use smart_rabbit_server.Base.Distinct.{
  Misses, Misses-append, Misses-insert, Distinct, Distinct-insert,
}
use smart_rabbit_server.Table.{Keys, Node, empty_node, main_position}
use smart_rabbit_server.Table.Chains.{
  Entry, In, indices, keys_of, head_or, link_of, node_of, Linked, NoMain, Holds,
}
use smart_rabbit_server.Table.Frames.{
  indices-append, keys_of-append, Distinct-middle, Misses-indices, Linked-append, Linked-split,
  Placed-front, Placed-if, NoMain-unused, NoMain-front, NoMain-back, Owned-append, Owned-split,
  Owned-all,
}
use smart_rabbit_server.Table.Grow.{make-Holds, fresh}
use smart_rabbit_server.Table.Link.{far, far-ne, length-far, far-mp, far-fn, far-p, far-keep}

module _ {K V : Type 0} where
  -- The links after the move.
  far-Linked :
      (ns : List (Node K V)) (fn : ℕ) (zs : List (Entry K V)) (l e : Entry K V)
      (ys : List (Entry K V)) (k : K)
      → Linked ns ((zs ++ (l ∷ [])) ++ (e ∷ ys)) none
      → Distinct (indices ((zs ++ (l ∷ [])) ++ (e ∷ ys)))
      → l.more ≡ true
      → Misses fn (indices ((zs ++ (l ∷ [])) ++ (e ∷ ys)))
      → get_elem? ns fn ≡ some empty_node
      → Linked
          (far ns fn e.at l.at (node_of e (link_of e (head_or ys none))) k)
          (fresh e.at k false ∷ (zs ++ (l ∷ [])) ++ (record e { at = fn } ∷ ys))
          none
  far-Linked ns fn zs l e ys k lk d t mf gf =
      let n = node_of e (link_of e (head_or ys none)) in
      let e' : Entry K V = record e { at = fn } in
      let ns' = far ns fn e.at l.at n k in
      let (lx, (g, ly)) = Linked-split ns (zs ++ (l ∷ [])) (e ∷ ys) none lk in
      let (lz, (gl, _)) = Linked-split ns zs (l ∷ []) (some e.at) lx in
      let (d1, mx, my) = Distinct-middle (zs ++ (l ∷ [])) e ys d in
      let (mz, ml) = Misses-indices e.at zs (l ∷ []) mx in
      let (d2, lz', ly') =
        Distinct-middle zs l (e ∷ ys)
          (subst (λ es. Distinct (indices es)) (append_assoc zs (l ∷ []) (e ∷ ys)) d) in
      let (fx, (ef, fy)) = Misses-indices fn (zs ++ (l ∷ [])) (e ∷ ys) mf in
      let (fz, fl) = Misses-indices fn zs (l ∷ []) fx in
      let ne : fn ≢ e.at = λ z. ef (sym z) in
      let nl : fn ≢ l.at = λ z. fl.0 (sym z) in
      let pl =
        far-p ns fn e.at l.at n (node_of l (link_of l (some e.at))) k nl (λ z. ml.0 (sym z)) gl
        ∙ ap (λ b. some (node_of l (if b then some fn else none))) (sym t) in
      (
        far-mp ns fn e.at l.at e (link_of e (head_or ys none)) k ne ml.0 g,
        Linked-append ns' (zs ++ (l ∷ [])) (e' ∷ ys) none
            (Linked-append ns' zs (l ∷ []) (some fn)
              (far-keep ns fn e.at l.at n k zs (some l.at) fz mz lz' lz) (pl, tt))
            (
              far-fn ns fn e.at l.at n empty_node k ne nl gf,
              far-keep ns fn e.at l.at n k ys none fy my ly'.1 ly,
            ),
      )

  pub far-Holds :
      (keys : Keys K) (ns : List (Node K V)) (fn : ℕ) (zs : List (Entry K V)) (l e : Entry K V)
      (ys : List (Entry K V)) (k : K)
      → Holds keys ns ((zs ++ (l ∷ [])) ++ (e ∷ ys))
      → Misses k (keys_of ((zs ++ (l ∷ [])) ++ (e ∷ ys)))
      → e.at ≡ main_position keys (length ns) k
      → main_position keys (length ns) e.key ≢ e.at
      → l.more ≡ true
      → fn < length ns
      → Misses fn (indices ((zs ++ (l ∷ [])) ++ (e ∷ ys)))
      → Holds keys
          (far ns fn e.at l.at (node_of e (link_of e (head_or ys none))) k)
          (fresh e.at k false ∷ (zs ++ (l ∷ [])) ++ (record e { at = fn } ∷ ys))
  far-Holds keys ns fn zs l e ys k h f q away t lt mf =
      let size = length ns in
      let xs = zs ++ (l ∷ []) in
      let n = node_of e (link_of e (head_or ys none)) in
      let e' : Entry K V = record e { at = fn } in
      let es' = fresh e.at k false ∷ xs ++ (e' ∷ ys) in
      let (d1, mx, my) = Distinct-middle xs e ys h.listed in
      let (fx, (ef, fy)) = Misses-indices fn xs (e ∷ ys) mf in
      let ne : fn ≢ e.at = λ z. ef (sym z) in
      let (ox, (oe, oy)) = Owned-split keys size (xs ++ (e ∷ ys)) xs (e ∷ ys) h.owned in
      let free = NoMain-unused keys size fn [] (xs ++ (e ∷ ys)) h.placed tt mf in
      let nm : NoMain keys size e.at (xs ++ (e ∷ ys)) = elim oe [
        | inl z ↦ absurd (away z)
        | inr nm ↦ nm
      ] in
      let nb = (NoMain-back keys size e.at xs (e ∷ ys) nm).1 in
      let more : (i : ℕ) → e.at ≢ i → NoMain keys size i (xs ++ (e ∷ ys)) → NoMain keys size i es' =
        λ i z m. ((λ y. z (q ∙ y)), NoMain-front keys size i xs (e ∷ ys) (e' ∷ ys) (λ m. m) m) in
      let shift : (s : List ℕ) (r : ℕ) → r ≢ e.at → In r (e.at ∷ s) → In r (fn ∷ s) =
        λ s r z i. elim i [ inl y ↦ absurd (z y) | inr y ↦ inr y ] in
      make-Holds keys size (far ns fn e.at l.at n k) es' (length-far ns fn e.at l.at n k)
        (far-Linked ns fn zs l e ys k h.linked h.listed t mf (h.unused fn lt mf))
        (
          subst (Misses e.at) (sym (indices-append xs (e' ∷ ys))) (
              Misses-insert e.at fn (indices xs) (indices ys) ne
                (Misses-append e.at (indices xs) (indices ys) mx my)),
          subst Distinct (sym (indices-append xs (e' ∷ ys))) (
              Distinct-insert fn (indices xs) (indices ys)
                (Misses-append fn (indices xs) (indices ys) fx fy) d1),
        )
        (subst (λ ks. Distinct (k ∷ ks))
          (keys_of-append xs (e ∷ ys) ∙ sym (keys_of-append xs (e' ∷ ys))) (f, h.keyed))
        (λ i li. λ (ie, mi).
          let (ix, (if', iy)) = Misses-indices i xs (e' ∷ ys) mi in
          far-ne ns fn e.at l.at n k i if' ie (Misses-indices i zs (l ∷ []) ix).1.0
          ∙ h.unused i li (
              subst (Misses i) (sym (indices-append xs (e ∷ ys)))
                (Misses-append i (indices xs) (e.at ∷ indices ys) ix (ie, iy))))
        (
          inl (sym q),
          Placed-front keys size [] xs (e ∷ ys) (e' ∷ ys)
              (λ s pl. (
                elim pl.0 [ inl z ↦ absurd (away z) | inr z ↦ inr z ],
                Placed-if keys size e.at (e.at ∷ s) (fn ∷ s) ys e.more nb (shift s) pl.1,
              ))
              h.placed,
        )
        (
          inl (sym q),
          Owned-append keys size es' xs (e' ∷ ys)
              (Owned-all keys size e.at (xs ++ (e ∷ ys)) es' xs mx more ox)
              (inr (more fn ef free), Owned-all keys size e.at (xs ++ (e ∷ ys)) es' ys my more oy),
        )
        h.some_node
