-- ===== src/Table/Grow.antt =====
-- `newkey` of rbtlib/table.c keeps the chains and all that they hold.
use smart_rabbit_server.Base.{
  ℕ, ◌<◌, ◌≡◌, ◌≢◌, inl, refl, sym, ◌∙◌, subst, Bool, true, false, none, some, List, [], ◌∷◌, ◌++◌,
  ◌==◌, get_elem?, get_elem?-update_self, get_elem?-update_ne, update, length, length-update, arith,
}
use smart_rabbit_server.Base.Distinct.{
  Misses, Misses-remove, Distinct, Distinct-insert, Distinct-remove,
}
use smart_rabbit_server.Table.{
  Keys, Node, empty_node, set_next, set_key, main_position, main_of, displace, newkey_at,
  find_before,
}
use smart_rabbit_server.Table.Chains.{
  Entry, indices, keys_of, head_or, link_of, node_of, Linked, Placed, NoMain, Owned, Holds,
}
use smart_rabbit_server.Table.Find.{main-lt}
use smart_rabbit_server.Table.Frames.{
  indices-append, keys_of-append, Distinct-middle, Misses-indices, Linked-append, Linked-split,
  Linked-update, Placed-front, NoMain-front, Owned-append, Owned-split, Owned-all,
}

module _ {K V : Type 0} where
  -- The hash part in terms of its size.
  pub make-Holds :
      (keys : Keys K) (size : ℕ) (ns : List (Node K V)) (es : List (Entry K V))
      → length ns ≡ size
      → Linked ns es none
      → Distinct (indices es)
      → Distinct (keys_of es)
      → ((i : ℕ) → i < size → Misses i (indices es) → get_elem? ns i ≡ some empty_node)
      → Placed keys size [] es
      → Owned keys size es es
      → 0 < size
      → Holds keys ns es
  make-Holds keys size ns es q l d k u p o z = record {
    linked = l;
    listed = d;
    keyed = k;
    unused =
        subst (λ n. (i : ℕ) → i < n → Misses i (indices es) → get_elem? ns i ≡ some empty_node)
          (sym q) u;
    placed = subst (λ n. Placed keys n [] es) (sym q) p;
    owned = subst (λ n. Owned keys n es es) (sym q) o;
    some_node = omega (arith, q);
  }

  -- An entry for a new key.
  abbrev pub fresh : ℕ → K → Bool → Entry K V
  fresh at k more = record { at = at; key = k; val = none; more = more }

  pub newkey_at-unused :
      (keys : Keys K) (fuel : ℕ) (ns : List (Node K V)) (fn : ℕ) (k : K) (n : Node K V)
      → get_elem? ns (main_position keys (length ns) k) ≡ some n
      → n.val ≡ none
      → newkey_at keys fuel ns fn k
        ≡ some (
          main_position keys (length ns) k,
          update ns (main_position keys (length ns) k) (set_key k),
        )
  unfolding newkey_at
  newkey_at-unused keys fuel ns fn k n g h = rw (g, newkey_at, h)

  pub newkey_at-near :
      (keys : Keys K) (fuel : ℕ) (ns : List (Node K V)) (fn : ℕ) (k : K) (n : Node K V) (v : V)
      → get_elem? ns (main_position keys (length ns) k) ≡ some n
      → n.val ≡ some v
      → (main_of keys (length ns) n.key == main_position keys (length ns) k) ≡ true
      → newkey_at keys fuel ns fn k
        ≡ some (
          fn,
          update
              (update
                (update ns fn (set_next n.next))
                (main_position keys (length ns) k)
                (set_next (some fn)))
              fn
              (set_key k),
        )
  unfolding newkey_at
  newkey_at-near keys fuel ns fn k n v g h t = rw (g, newkey_at, h, t)

  pub newkey_at-far :
      (keys : Keys K) (fuel : ℕ) (ns : List (Node K V)) (fn : ℕ) (k : K) (n : Node K V) (v : V)
      → get_elem? ns (main_position keys (length ns) k) ≡ some n
      → n.val ≡ some v
      → (main_of keys (length ns) n.key == main_position keys (length ns) k) ≡ false
      → newkey_at keys fuel ns fn k
        ≡ displace fuel ns fn
            (main_position keys (length ns) k)
            (main_of keys (length ns) n.key)
            n
            k
  unfolding newkey_at
  newkey_at-far keys fuel ns fn k n v g h t = simp (g, newkey_at, h, t)

  pub displace-some :
      (fuel : ℕ) (ns : List (Node K V)) (fn mp other p : ℕ) (n : Node K V) (k : K)
      → find_before fuel (update ns fn (λ _. n)) other mp ≡ some p
      → displace fuel ns fn mp other n k
        ≡ some (
          mp,
          update
              (update (update (update ns fn (λ _. n)) p (set_next (some fn))) mp (set_next none))
              mp
              (set_key k),
        )
  unfolding displace
  displace-some fuel ns fn mp other p n k h = rw (h, displace)

  -- The main position of a new key is not in use: its entry is a chain of its own.
  pub unused-Holds :
      (keys : Keys K) (ns : List (Node K V)) (es : List (Entry K V)) (k : K)
      → Holds keys ns es
      → Misses k (keys_of es)
      → Misses (main_position keys (length ns) k) (indices es)
      → Holds keys
          (update ns (main_position keys (length ns) k) (set_key k))
          (fresh (main_position keys (length ns) k) k false ∷ es)
  unused-Holds keys ns es k h f m =
      let size = length ns in
      let mp = main_position keys size k in
      let g = h.unused mp (main-lt keys size k h.some_node) m in
      make-Holds keys size (update ns mp (set_key k)) (fresh mp k false ∷ es)
        (length-update ns mp (set_key k))
        (
          get_elem?-update_self ns mp (set_key k) empty_node g,
          Linked-update ns es none mp (set_key k) m h.linked,
        )
        (m, h.listed) (f, h.keyed)
        (λ i lt. λ (ne, mi). get_elem?-update_ne ns (set_key k) ne ∙ h.unused i lt mi)
        (inl refl, h.placed)
        (
          inl refl,
          Owned-all keys size mp es (fresh mp k false ∷ es) es m (λ i ne nm. (ne, nm)) h.owned,
        )
        h.some_node

  -- The value in the main position is nil: its entry gives way to the new key.
  pub reuse-Holds :
      (keys : Keys K) (ns : List (Node K V)) (xs : List (Entry K V)) (e : Entry K V)
      (ys : List (Entry K V)) (k : K)
      → Holds keys ns (xs ++ (e ∷ ys))
      → Misses k (keys_of (xs ++ (e ∷ ys)))
      → e.at ≡ main_position keys (length ns) k
      → Holds keys (update ns e.at (set_key k)) (xs ++ (record e { key = k; val = none } ∷ ys))
  reuse-Holds keys ns xs e ys k h f q =
      let size = length ns in
      let e' : Entry K V = record e { key = k; val = none } in
      let (lx, (g, ly)) = Linked-split ns xs (e ∷ ys) none h.linked in
      let (d, mx, my) = Distinct-middle xs e ys h.listed in
      let (ox, (oe, oy)) = Owned-split keys size (xs ++ (e ∷ ys)) xs (e ∷ ys) h.owned in
      let same = indices-append xs (e ∷ ys) ∙ sym (indices-append xs (e' ∷ ys)) in
      let more : (i : ℕ)
          → e.at ≢ i
          → NoMain keys size i (xs ++ (e ∷ ys))
          → NoMain keys size i (xs ++ (e' ∷ ys)) =
        λ i ne. NoMain-front keys size i xs (e ∷ ys) (e' ∷ ys) (λ nm. (λ z. ne (q ∙ z), nm.1)) in
      let fk = subst (Misses k) (keys_of-append xs (e ∷ ys)) f in
      let kk =
        (Distinct-remove e.key (keys_of xs) (keys_of ys)
          (subst Distinct (keys_of-append xs (e ∷ ys)) h.keyed)).0 in
      make-Holds keys size (update ns e.at (set_key k)) (xs ++ (e' ∷ ys))
        (length-update ns e.at (set_key k))
        (Linked-append (update ns e.at (set_key k)) xs (e' ∷ ys) none
          (Linked-update ns xs (some e.at) e.at (set_key k) mx lx)
          (
            get_elem?-update_self ns e.at (set_key k) (node_of e (link_of e (head_or ys none))) g,
            Linked-update ns ys none e.at (set_key k) my ly,
          ))
        (subst Distinct same h.listed)
        (subst Distinct (sym (keys_of-append xs (e' ∷ ys))) (
          Distinct-insert k (keys_of xs) (keys_of ys)
            (Misses-remove k e.key (keys_of xs) (keys_of ys) fk) kk))
        (λ i lt mi.
          get_elem?-update_ne ns (set_key k) (Misses-indices i xs (e' ∷ ys) mi).1.0
          ∙ h.unused i lt (subst (Misses i) (sym same) mi))
        (Placed-front keys size [] xs (e ∷ ys) (e' ∷ ys) (λ s pl. (inl (sym q), pl.1)) h.placed)
        (Owned-append keys size (xs ++ (e' ∷ ys)) xs (e' ∷ ys)
          (Owned-all keys size e.at (xs ++ (e ∷ ys)) (xs ++ (e' ∷ ys)) xs mx more ox)
          (inl (sym q), Owned-all keys size e.at (xs ++ (e ∷ ys)) (xs ++ (e' ∷ ys)) ys my more oy))
        h.some_node
