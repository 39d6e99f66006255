-- ===== src/Table/Find.antt =====
-- The walk of `getstr`, `getnum` and `get` of rbtlib/table.c along a chain.
use smart_rabbit_server.Base.{
  ℕ, zero, suc, ◌<◌, ◌≤◌, ◌≡◌, ◌≢◌, inl, inr, refl, sym, ap, ◌∙◌, subst, Bool, true, false,
  Bool-cases, Option, none, some, List, [], ◌∷◌, ◌==◌, ==_iff, if◌then◌else◌, get_elem?, length,
  arith,
}
use smart_rabbit_server.Base.Distinct.{Misses, Distinct}
use smart_rabbit_server.Table.{Keys, Node, empty_node, main_position, find}
use smart_rabbit_server.Table.Chains.{
  Entry, In, In-Misses, indices, head_or, link_of, node_of, Linked, Placed, Holds, index_of,
}

pub eq-false : (i p : ℕ) → (i == p) ≡ false → i ≢ p
eq-false i p h = ground arith

pub ne-false : (i p : ℕ) → i ≢ p → (i == p) ≡ false
ne-false i p h = ground arith

pub main-lt :
    {K : Type 0} (keys : Keys K) (size : ℕ) (k : K) → 0 < size → main_position keys size k < size
main-lt keys size k h = omega arith

module _ {K V : Type 0} where
  find-hit :
      (keys : Keys K) (fuel : ℕ) (ns : List (Node K V)) (e : Entry K V) (next : Option ℕ) (k : K)
      → get_elem? ns e.at ≡ some (node_of e next)
      → keys.same e.key k ≡ true
      → find keys (suc fuel) ns (some e.at) k ≡ some (some e.at)
  unfolding find
  find-hit keys fuel ns e next k g h = rw (g, h, find)

  find-miss :
      (keys : Keys K) (fuel : ℕ) (ns : List (Node K V)) (e : Entry K V) (next : Option ℕ) (k : K)
      → get_elem? ns e.at ≡ some (node_of e next)
      → keys.same e.key k ≡ false
      → find keys (suc fuel) ns (some e.at) k ≡ find keys fuel ns next k
  unfolding find
  find-miss keys fuel ns e next k g h = rw (g, h, find)

  find-none :
      (keys : Keys K) (fuel : ℕ) (ns : List (Node K V)) (k : K)
      → find keys fuel ns none k ≡ some none
  unfolding find
  find-none keys zero ns k = refl
  find-none keys (suc fuel) ns k = refl

  find-empty :
      (keys : Keys K) (fuel : ℕ) (ns : List (Node K V)) (p : ℕ) (k : K)
      → get_elem? ns p ≡ some empty_node
      → find keys (suc fuel) ns (some p) k ≡ some none
  unfolding find
  find-empty keys fuel ns p k g = rw (g, find) (find-none keys fuel ns k)

  -- The entry with the key in the chain that begins here.
  abbrev scan : Keys K → K → List (Entry K V) → Option ℕ
  scan keys k [] = none
  scan keys k (e ∷ es) =
      let rest = scan keys k es in
      if keys.same e.key k then some e.at else if e.more then rest else none

  scan-hit :
      (keys : Keys K) (k : K) (e : Entry K V) (es : List (Entry K V))
      → keys.same e.key k ≡ true
      → scan keys k (e ∷ es) ≡ some e.at
  scan-hit keys k e es h = rw h

  scan-more :
      (keys : Keys K) (k : K) (e : Entry K V) (es : List (Entry K V))
      → keys.same e.key k ≡ false
      → e.more ≡ true
      → scan keys k (e ∷ es) ≡ scan keys k es
  scan-more keys k e es h m = rw (h, m)

  scan-end :
      (keys : Keys K) (k : K) (e : Entry K V) (es : List (Entry K V))
      → keys.same e.key k ≡ false
      → e.more ≡ false
      → scan keys k (e ∷ es) ≡ none
  scan-end keys k e es h m = rw (h, m)

  find-scan :
      (keys : Keys K) (fuel : ℕ) (ns : List (Node K V)) (k : K) (es : List (Entry K V))
      → Linked ns es none
      → length es ≤ fuel
      → find keys fuel ns (head_or es none) k ≡ some (scan keys k es)
  find-scan keys fuel ns k [] l h = find-none keys fuel ns k
  find-scan keys zero ns k (e ∷ es) l h = absurd (omega arith)
  find-scan keys (suc fuel) ns k (e ∷ es) (g, l) h = elim (Bool-cases (keys.same e.key k)) [
    | inl y ↦
        find-hit keys fuel ns e (link_of e (head_or es none)) k g y
        ∙ ap some (sym (scan-hit keys k e es y))
    | inr n ↦
        let along = find-miss keys fuel ns e (link_of e (head_or es none)) k g n in
        let go : Bool → Option (Option ℕ) =
          λ b. find keys fuel ns (if b then head_or es none else none) k in
        elim (Bool-cases e.more) [
          | inl m ↦
              along
              ∙ ap go m
              ∙ find-scan keys fuel ns k es l (omega arith)
              ∙ ap some (sym (scan-more keys k e es n m))
          | inr m ↦
              along ∙ ap go m ∙ find-none keys fuel ns k ∙ ap some (sym (scan-end keys k e es n m))
        ]
  ]

  -- The walk that begins at the index `p`.
  abbrev scan_from : Keys K → ℕ → K → List (Entry K V) → Option ℕ
  scan_from keys p k [] = none
  scan_from keys p k (e ∷ es) =
      let rest = scan_from keys p k es in if e.at == p then scan keys k (e ∷ es) else rest

  scan_from-here :
      (keys : Keys K) (p : ℕ) (k : K) (e : Entry K V) (es : List (Entry K V))
      → e.at ≡ p
      → scan_from keys p k (e ∷ es) ≡ scan keys k (e ∷ es)
  scan_from-here keys p k e es h =
      ap (λ b. if b then scan keys k (e ∷ es) else scan_from keys p k es) ((==_iff e.at p).1 h)

  scan_from-there :
      (keys : Keys K) (p : ℕ) (k : K) (e : Entry K V) (es : List (Entry K V))
      → e.at ≢ p
      → scan_from keys p k (e ∷ es) ≡ scan_from keys p k es
  scan_from-there keys p k e es h = elim (Bool-cases (e.at == p)) [
    | inl y ↦ absurd (h ((==_iff e.at p).0 y))
    | inr n ↦ ap (λ b. if b then scan keys k (e ∷ es) else scan_from keys p k es) n
  ]

  pub index_of-hit :
      (keys : Keys K) (k : K) (e : Entry K V) (es : List (Entry K V))
      → keys.same e.key k ≡ true
      → index_of keys k (e ∷ es) ≡ some e.at
  index_of-hit keys k e es h = rw h

  pub index_of-miss :
      (keys : Keys K) (k : K) (e : Entry K V) (es : List (Entry K V))
      → keys.same e.key k ≡ false
      → index_of keys k (e ∷ es) ≡ index_of keys k es
  index_of-miss keys k e es h = rw h

  -- A key that is known is in its main position or behind it.
  same-In :
      (keys : Keys K) (size : ℕ) (k : K) (e : Entry K V) (is : List ℕ)
      → keys.same e.key k ≡ true
      → In (main_position keys size e.key) is
      → In (main_position keys size k) is
  same-In keys size k e is h n =
      subst (λ j. In (main_position keys size j) is) (keys.same_eq e.key k h) n

  -- Where the main position of a key is not, the key is not.
  index_of-apart :
      (keys : Keys K) (size : ℕ) (k : K) (seen : List ℕ) (es : List (Entry K V))
      → Placed keys size seen es
      → Misses (main_position keys size k) seen
      → Misses (main_position keys size k) (indices es)
      → index_of keys k es ≡ none
  index_of-apart keys size k seen [] pl ms me = refl
  index_of-apart keys size k seen (e ∷ es) (n, pl) ms (ne, me) =
      elim (Bool-cases (keys.same e.key k)) [
        | inl y ↦ absurd (
            In-Misses (main_position keys size k) (e.at ∷ seen)
              (same-In keys size k e (e.at ∷ seen) y n) (ne, ms))
        | inr f ↦ index_of-miss keys k e es f ∙ elim (Bool-cases e.more) [
          | inl m ↦
              index_of-apart keys size k (e.at ∷ seen) es
                (subst (λ b. Placed keys size (if b then e.at ∷ seen else []) es) m pl) (ne, ms) me
          | inr m ↦
              index_of-apart keys size k [] es
                (subst (λ b. Placed keys size (if b then e.at ∷ seen else []) es) m pl) tt me
        ]
      ]

  -- Behind the main position of a key the chain has the key if the table has it.
  scan-index_of :
      (keys : Keys K) (size : ℕ) (k : K) (seen : List ℕ) (es : List (Entry K V))
      → Placed keys size seen es
      → In (main_position keys size k) seen
      → Misses (main_position keys size k) (indices es)
      → scan keys k es ≡ index_of keys k es
  scan-index_of keys size k seen [] pl i me = refl
  scan-index_of keys size k seen (e ∷ es) (n, pl) i (ne, me) =
      elim (Bool-cases (keys.same e.key k)) [
        | inl y ↦ scan-hit keys k e es y ∙ sym (index_of-hit keys k e es y)
        | inr f ↦ elim (Bool-cases e.more) [
          | inl m ↦
              scan-more keys k e es f m
              ∙ scan-index_of keys size k (e.at ∷ seen) es
                  (subst (λ b. Placed keys size (if b then e.at ∷ seen else []) es) m pl) (inr i) me
              ∙ sym (index_of-miss keys k e es f)
          | inr m ↦
              scan-end keys k e es f m
              ∙ sym (
                  index_of-miss keys k e es f
                  ∙ index_of-apart keys size k [] es
                      (subst (λ b. Placed keys size (if b then e.at ∷ seen else []) es) m pl) tt me)
        ]
      ]

  scan_from-index_of :
      (keys : Keys K) (size : ℕ) (k : K) (seen : List ℕ) (es : List (Entry K V))
      → Placed keys size seen es
      → Misses (main_position keys size k) seen
      → Distinct (indices es)
      → scan_from keys (main_position keys size k) k es ≡ index_of keys k es
  scan_from-index_of keys size k seen [] pl ms d = refl
  scan_from-index_of keys size k seen (e ∷ es) (n, pl) ms (md, d) =
      let p = main_position keys size k in
      elim (Bool-cases (e.at == p)) [
        | inl y ↦
            let q = (==_iff e.at p).0 y in
            let me = subst (λ i. Misses i (indices es)) q md in
            scan_from-here keys p k e es q ∙ elim (Bool-cases (keys.same e.key k)) [
              | inl s ↦ scan-hit keys k e es s ∙ sym (index_of-hit keys k e es s)
              | inr f ↦ elim (Bool-cases e.more) [
                | inl m ↦
                    scan-more keys k e es f m
                    ∙ scan-index_of keys size k (e.at ∷ seen) es
                        (subst (λ b. Placed keys size (if b then e.at ∷ seen else []) es) m pl)
                        (inl (sym q)) me
                    ∙ sym (index_of-miss keys k e es f)
                | inr m ↦
                    scan-end keys k e es f m
                    ∙ sym (
                        index_of-miss keys k e es f
                        ∙ index_of-apart keys size k [] es
                            (subst (λ b. Placed keys size (if b then e.at ∷ seen else []) es) m pl)
                            tt me)
              ]
            ]
        | inr z ↦
            let ne = eq-false e.at p z in
            scan_from-there keys p k e es ne ∙ elim (Bool-cases (keys.same e.key k)) [
              | inl s ↦
                  absurd
                    (In-Misses p (e.at ∷ seen) (same-In keys size k e (e.at ∷ seen) s n) (ne, ms))
              | inr f ↦
                  elim (Bool-cases e.more) [
                    | inl m ↦
                        scan_from-index_of keys size k (e.at ∷ seen) es
                          (subst (λ b. Placed keys size (if b then e.at ∷ seen else []) es) m pl)
                          (ne, ms) d
                    | inr m ↦
                        scan_from-index_of keys size k [] es
                          (subst (λ b. Placed keys size (if b then e.at ∷ seen else []) es) m pl) tt
                          d
                  ]
                  ∙ sym (index_of-miss keys k e es f)
            ]
      ]

  -- The walk from a node is the walk from its entry; a node without an entry is empty.
  find-scan_from :
      (keys : Keys K) (fuel : ℕ) (ns : List (Node K V)) (k : K) (p : ℕ) (es : List (Entry K V))
      → Linked ns es none
      → length es ≤ fuel
      → (Misses p (indices es) → get_elem? ns p ≡ some empty_node)
      → find keys (suc fuel) ns (some p) k ≡ some (scan_from keys p k es)
  find-scan_from keys fuel ns k p [] l h u = find-empty keys fuel ns p k (u tt)
  find-scan_from keys fuel ns k p (e ∷ es) (g, l) h u = elim (Bool-cases (e.at == p)) [
    | inl y ↦
        let q = (==_iff e.at p).0 y in
        subst (λ i. find keys (suc fuel) ns (some i) k ≡ some (scan keys k (e ∷ es))) q
          (find-scan keys (suc fuel) ns k (e ∷ es) (g, l) (omega arith))
        ∙ ap some (sym (scan_from-here keys p k e es q))
    | inr z ↦
        let ne = eq-false e.at p z in
        find-scan_from keys fuel ns k p es l (omega arith) (λ m. u (ne, m))
        ∙ ap some (sym (scan_from-there keys p k e es ne))
  ]

  -- The walk from the main position of a key ends, with one step for each entry and one more, at the node
  -- of the key, or with `NULL` where no entry has the key.
  pub find-index_of :
      (keys : Keys K) (fuel : ℕ) (ns : List (Node K V)) (k : K) (es : List (Entry K V))
      → Holds keys ns es
      → length es ≤ fuel
      → find keys (suc fuel) ns (some (main_position keys (length ns) k)) k
        ≡ some (index_of keys k es)
  find-index_of keys fuel ns k es h f =
      let p = main_position keys (length ns) k in
      find-scan_from keys fuel ns k p es h.linked f
        (h.unused p (main-lt keys (length ns) k h.some_node))
      ∙ ap some (scan_from-index_of keys (length ns) k [] es h.placed tt h.listed)
