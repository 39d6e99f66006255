-- ===== src/Table/Put.antt =====
-- Writing a value into the node of a key in the hash part of rbtlib/table.c.
use smart_rabbit_server.Base.{
  ℕ, ◌≡◌, ◌≢◌, ◌⊎◌, inl, inr, refl, sym, ap, ◌∙◌, subst, false, Bool-cases, Option, none, some,
  List, [], ◌∷◌, ◌==◌, ==_iff, if◌then◌else◌, get_elem?, get_elem?-update_self, get_elem?-update_ne,
  update, length, length-update, arith,
}
use smart_rabbit_server.Base.Distinct.{Misses, Distinct}
use smart_rabbit_server.Table.{Keys, Node, set_val, main_position}
use smart_rabbit_server.Table.Chains.{
  Entry, In, indices, keys_of, head_or, link_of, node_of, Linked, Placed, NoMain, Owned, Holds,
  index_of, value,
}
use smart_rabbit_server.Table.Find.{index_of-hit, index_of-miss, eq-false, ne-false}
use smart_rabbit_server.Table.Frames.{Linked-update}
use smart_rabbit_server.Table.Values.{same-ne, value-hit, value-miss}
use smart_rabbit_server.Table.Grow.{make-Holds}

pub some-inj : {A : Type 0} {a b : A} → some a ≡ some b → a ≡ b
some-inj {a = a} h = ap (λ o. elim o [ none ↦ a | some x ↦ x ]) h

module _ {K V : Type 0} where
  -- The value at an index of the entries.
  abbrev pub put : ℕ → Option V → List (Entry K V) → List (Entry K V)
  put i v [] = []
  put i v (e ∷ es) =
      let rest = put i v es in if e.at == i then record e { val = v } ∷ es else e ∷ rest

  put-here :
      (i : ℕ) (v : Option V) (e : Entry K V) (es : List (Entry K V))
      → e.at ≡ i
      → put i v (e ∷ es) ≡ record e { val = v } ∷ es
  put-here i v e es q =
      ap (λ b. if b then record e { val = v } ∷ es else e ∷ put i v es) ((==_iff e.at i).1 q)

  put-there :
      (i : ℕ) (v : Option V) (e : Entry K V) (es : List (Entry K V))
      → (e.at == i) ≡ false
      → put i v (e ∷ es) ≡ e ∷ put i v es
  put-there i v e es n = ap (λ b. if b then record e { val = v } ∷ es else e ∷ put i v es) n

  -- Only a value changes.
  put-same {ℓ} :
      {B : Type ℓ} (f : List (Entry K V) → B) (step : Entry K V → B → B)
      → ((e : Entry K V) (es : List (Entry K V)) → f (e ∷ es) ≡ step e (f es))
      → ((e : Entry K V) (v : Option V) (b : B) → step (record e { val = v }) b ≡ step e b)
      → (i : ℕ) (v : Option V) (es : List (Entry K V)) → f (put i v es) ≡ f es
  put-same f step s c i v [] = refl
  put-same f step s c i v (e ∷ es) = elim (Bool-cases (e.at == i)) [
    | inl y ↦
        ap f (put-here i v e es ((==_iff e.at i).0 y))
        ∙ s (record e { val = v }) es
        ∙ c e v (f es)
        ∙ sym (s e es)
    | inr n ↦
        ap f (put-there i v e es n)
        ∙ s e (put i v es)
        ∙ ap (step e) (put-same f step s c i v es)
        ∙ sym (s e es)
  ]

  indices-put : (i : ℕ) (v : Option V) (es : List (Entry K V)) → indices (put i v es) ≡ indices es
  indices-put = put-same indices (λ e is. e.at ∷ is) (λ e es. refl) (λ e v b. refl)

  keys_of-put : (i : ℕ) (v : Option V) (es : List (Entry K V)) → keys_of (put i v es) ≡ keys_of es
  keys_of-put = put-same keys_of (λ e ks. e.key ∷ ks) (λ e es. refl) (λ e v b. refl)

  head_or-put :
      (i : ℕ) (v : Option V) (es : List (Entry K V)) (after : Option ℕ)
      → head_or (put i v es) after ≡ head_or es after
  head_or-put i v es after =
      put-same (λ es. head_or es after) (λ e h. some e.at) (λ e es. refl) (λ e v b. refl) i v es

  Placed-put :
      (keys : Keys K) (size : ℕ) (i : ℕ) (v : Option V) (es : List (Entry K V)) (seen : List ℕ)
      → Placed keys size seen (put i v es) ≡ Placed keys size seen es
  Placed-put keys size i v es seen =
      let step : Entry K V → (List ℕ → Type 0) → List ℕ → Type 0 = λ e f seen.
        In (main_position keys size e.key) (e.at ∷ seen) × f (if e.more then e.at ∷ seen else []) in
      ap (λ (f : List ℕ → Type 0). f seen)
        (put-same (λ es seen. Placed keys size seen es) step (λ e es. refl) (λ e v b. refl) i v es)

  NoMain-put :
      (keys : Keys K) (size p i : ℕ) (v : Option V) (es : List (Entry K V))
      → NoMain keys size p (put i v es) ≡ NoMain keys size p es
  NoMain-put keys size p =
      put-same (NoMain keys size p) (λ e b. (main_position keys size e.key ≢ p) × b) (λ e es. refl)
        (λ e v b. refl)

  Owned-put :
      (keys : Keys K) (size : ℕ) (all : List (Entry K V)) (i : ℕ) (v : Option V)
      (es : List (Entry K V))
      → Owned keys size all (put i v es) ≡ Owned keys size all es
  Owned-put keys size all =
      put-same (Owned keys size all)
        (λ e b. ((main_position keys size e.key ≡ e.at) ⊎ NoMain keys size e.at all) × b)
        (λ e es. refl) (λ e v b. refl)

  Owned-all_put :
      (keys : Keys K) (size : ℕ) (i : ℕ) (v : Option V) (all es : List (Entry K V))
      → Owned keys size all es
      → Owned keys size (put i v all) es
  Owned-all_put keys size i v all [] o = tt
  Owned-all_put keys size i v all (e ∷ es) (c, o) = (
    elim c [
      | inl q ↦ inl q
      | inr m ↦ inr (subst (λ P. P) (sym (NoMain-put keys size e.at i v all)) m)
    ],
    Owned-all_put keys size i v all es o,
  )

  Linked-put :
      (ns : List (Node K V)) (i : ℕ) (v : Option V) (es : List (Entry K V)) (after : Option ℕ)
      → Distinct (indices es)
      → Linked ns es after
      → Linked (update ns i (set_val v)) (put i v es) after
  Linked-put ns i v [] after d l = tt
  Linked-put ns i v (e ∷ es) after (m, d) (g, l) = elim (Bool-cases (e.at == i)) [
    | inl y ↦
        let q = (==_iff e.at i).0 y in
        subst (λ es. Linked (update ns i (set_val v)) es after) (sym (put-here i v e es q))
          (
            subst
                (λ j.
                  get_elem? (update ns j (set_val v)) e.at
                  ≡ some (node_of (record e { val = v }) (link_of e (head_or es after))))
                q
                (get_elem?-update_self ns e.at (set_val v)
                  (node_of e (link_of e (head_or es after))) g),
            Linked-update ns es after i (set_val v) (subst (λ j. Misses j (indices es)) q m) l,
          )
    | inr n ↦
        subst (λ es. Linked (update ns i (set_val v)) es after) (sym (put-there i v e es n))
          (
            get_elem?-update_ne ns (set_val v) (λ z. eq-false e.at i n (sym z))
                ∙ g
                ∙ ap (λ o. some (node_of e (link_of e o))) (sym (head_or-put i v es after)),
            Linked-put ns i v es after d l,
          )
  ]

  -- The table is valid after a value is written through the pointer to a node.
  pub put-Holds :
      (keys : Keys K) (ns : List (Node K V)) (es : List (Entry K V)) (i : ℕ) (v : Option V)
      → Holds keys ns es
      → (Misses i (indices es) → ⊥)
      → Holds keys (update ns i (set_val v)) (put i v es)
  put-Holds keys ns es i v h there =
      let size = length ns in
      let es' = put i v es in
      make-Holds keys size (update ns i (set_val v)) es' (length-update ns i (set_val v))
        (Linked-put ns i v es none h.listed h.linked)
        (subst Distinct (sym (indices-put i v es)) h.listed)
        (subst Distinct (sym (keys_of-put i v es)) h.keyed)
        (λ j lt mj.
          let m = subst (Misses j) (indices-put i v es) mj in
          get_elem?-update_ne ns (set_val v)
            (λ z. there (subst (λ p. Misses p (indices es)) (sym z) m))
          ∙ h.unused j lt m)
        (subst (λ P. P) (sym (Placed-put keys size i v es [])) h.placed)
        (subst (λ P. P) (sym (Owned-put keys size es' i v es))
          (Owned-all_put keys size i v es es h.owned))
        h.some_node

  pub index_of-there :
      (keys : Keys K) (k : K) (es : List (Entry K V)) (i : ℕ)
      → index_of keys k es ≡ some i
      → Misses i (indices es)
      → ⊥
  index_of-there keys k [] i q m = absurd (ground arith)
  index_of-there keys k (e ∷ es) i q (ne, m) = elim (Bool-cases (keys.same e.key k)) [
    | inl y ↦ ne (some-inj (sym (index_of-hit keys k e es y) ∙ q))
    | inr n ↦ index_of-there keys k es i (sym (index_of-miss keys k e es n) ∙ q) m
  ]

  -- The key has the value written, and every other key the one that it had.
  pub value-put :
      (keys : Keys K) (k : K) (es : List (Entry K V)) (i : ℕ) (v : Option V)
      → Distinct (indices es)
      → index_of keys k es ≡ some i
      → (value keys k (put i v es) ≡ v)
        × ((j : K) → j ≢ k → value keys j (put i v es) ≡ value keys j es)
  value-put keys k [] i v d q = absurd (ground arith)
  value-put keys k (e ∷ es) i v (m, d) q = elim (Bool-cases (keys.same e.key k)) [
    | inl y ↦
        let here = put-here i v e es (some-inj (sym (index_of-hit keys k e es y) ∙ q)) in
        let e' : Entry K V = record e { val = v } in
        (
          ap (value keys k) here ∙ value-hit keys k e' es y,
          λ j ne.
              let no_j = same-ne keys e.key j (λ z. ne (sym z ∙ keys.same_eq e.key k y)) in
              ap (value keys j) here
              ∙ value-miss keys j e' es no_j
              ∙ sym (value-miss keys j e es no_j),
        )
    | inr n ↦
        let q' = sym (index_of-miss keys k e es n) ∙ q in
        let there = put-there i v e es (
          ne-false e.at i
            (λ z. index_of-there keys k es i q' (subst (λ p. Misses p (indices es)) z m))) in
        let (a, b) = value-put keys k es i v d q' in
        (
          ap (value keys k) there ∙ value-miss keys k e (put i v es) n ∙ a,
          λ j ne.
              ap (value keys j) there ∙ ap (λ r. if keys.same e.key j then e.val else r) (b j ne),
        )
  ]
