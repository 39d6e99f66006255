-- ===== src/Table/Values.antt =====
-- What a table of rbtlib/table.c holds for a key, by its entries.
use smart_rabbit_server.Base.{
  ◌≡◌, ◌≢◌, inl, inr, refl, sym, ap, ◌∙◌, subst, true, false, Bool-cases, none, List, [], ◌∷◌, ◌++◌,
  if◌then◌else◌,
}
use smart_rabbit_server.Base.Distinct.{Misses}
use smart_rabbit_server.Table.{Keys}
use smart_rabbit_server.Table.Chains.{Entry, keys_of, index_of, value}
use smart_rabbit_server.Table.Find.{index_of-miss}

-- A key that is not there is not known.
pub same-ne : {K : Type 0} (keys : Keys K) (j k : K) → j ≢ k → keys.same j k ≡ false
same-ne keys j k ne = elim (Bool-cases (keys.same j k)) [
  | inl y ↦ absurd (ne (keys.same_eq j k y))
  | inr n ↦ n
]

module _ {K V : Type 0} where
  pub value-hit :
      (keys : Keys K) (j : K) (e : Entry K V) (es : List (Entry K V))
      → keys.same e.key j ≡ true
      → value keys j (e ∷ es) ≡ e.val
  value-hit keys j e es h = rw h

  pub value-miss :
      (keys : Keys K) (j : K) (e : Entry K V) (es : List (Entry K V))
      → keys.same e.key j ≡ false
      → value keys j (e ∷ es) ≡ value keys j es
  value-miss keys j e es h = rw h

  pub value-absent :
      (keys : Keys K) (j : K) (es : List (Entry K V))
      → Misses j (keys_of es)
      → value keys j es ≡ none
  value-absent keys j [] m = refl
  value-absent keys j (e ∷ es) (ne, m) =
      value-miss keys j e es (same-ne keys e.key j ne) ∙ value-absent keys j es m

  -- An entry that holds nil.
  pub value-nil :
      (keys : Keys K) (j : K) (e : Entry K V) (es : List (Entry K V))
      → e.val ≡ none
      → Misses e.key (keys_of es)
      → value keys j (e ∷ es) ≡ value keys j es
  value-nil keys j e es v m = elim (Bool-cases (keys.same e.key j)) [
    | inl y ↦
        value-hit keys j e es y
        ∙ v
        ∙ sym
            (value-absent keys j es (subst (λ k. Misses k (keys_of es)) (keys.same_eq e.key j y) m))
    | inr n ↦ value-miss keys j e es n
  ]

  pub value-front :
      (keys : Keys K) (j : K) (xs zs zs' : List (Entry K V))
      → value keys j zs' ≡ value keys j zs
      → value keys j (xs ++ zs') ≡ value keys j (xs ++ zs)
  value-front keys j [] zs zs' h = h
  value-front keys j (x ∷ xs) zs zs' h =
      ap (λ r. if keys.same x.key j then x.val else r) (value-front keys j xs zs zs' h)

  pub index_of-front :
      (keys : Keys K) (k : K) (xs zs : List (Entry K V))
      → Misses k (keys_of xs)
      → index_of keys k (xs ++ zs) ≡ index_of keys k zs
  index_of-front keys k [] zs m = refl
  index_of-front keys k (x ∷ xs) zs (ne, m) =
      index_of-miss keys k x (xs ++ zs) (same-ne keys x.key k ne) ∙ index_of-front keys k xs zs m
