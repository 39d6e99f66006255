-- ===== src/Table/Init.antt =====
-- `rbtH_init` and `rbtH_clean` of rbtlib/table.c leave a valid table without values.
use smart_rabbit_server.Base.{
  map, length, sym, subst, List, ◌∷◌, ℕ, zero, suc, ◌<◌, ◌≡◌, refl, ap, ◌∙◌, Option, none, some, [],
  ◌==◌, if◌then◌else◌, get_elem?, get_or, replicate, length-replicate, arith,
}
use smart_rabbit_server.Table.{Keys, Node, Table, empty_node}
use smart_rabbit_server.Table.Ops.{init, lookup}
use smart_rabbit_server.Table.Chains.{Holds}
use smart_rabbit_server.Table.Store.{content, vector_index, lookup-content}
use smart_rabbit_server.Table.Refine.{IsValid}
use smart_rabbit_server.Table.Scan.{clean}

get_elem?-replicate :
    {A : Type 0} (n : ℕ) (a : A) (i : ℕ) → i < n → get_elem? (replicate n a) i ≡ some a
get_elem?-replicate zero a i h = absurd (omega arith)
get_elem?-replicate (suc n) a zero h = refl
get_elem?-replicate (suc n) a (suc i) h = get_elem?-replicate n a i (omega arith)

get_or-replicate : {A : Type 0} (n : ℕ) (a : A) (i : ℕ) → get_or (replicate n a) i a ≡ a
get_or-replicate zero a i = refl
get_or-replicate (suc n) a zero = refl
get_or-replicate (suc n) a (suc i) = get_or-replicate n a i

map-replicate : {A B : Type 0} (xs : List A) (b : B) → map (λ _. b) xs ≡ replicate (length xs) b
map-replicate [] b = refl
map-replicate (x ∷ xs) b = ap (λ t. b ∷ t) (map-replicate xs b)

nodes-positive : (n : ℕ) → 0 < (if n == 0 then 1 else n)
nodes-positive n = ground arith

module _ {K : Type 0} (V : Type 0) where
  replicate-Holds : (keys : Keys K) (n : ℕ) → 0 < n → Holds {V = V} keys (replicate n empty_node) []
  replicate-Holds keys n z =
      let long = length-replicate {A = Node K V} n empty_node in
      record {
        linked = tt;
        listed = tt;
        keyed = tt;
        unused = λ i lt m. get_elem?-replicate n empty_node i (omega (arith, long));
        placed = tt;
        owned = tt;
        some_node = omega (arith, long);
      }

  init-content :
      (keys : Keys K) (vsize tsize : ℕ) (k : K)
      → content keys (init {V = V} vsize tsize) [] k ≡ none
  unfolding init
  init-content keys vsize tsize k =
      elim (vector_index keys (init {V = V} vsize tsize) k)
        as (λ o.
          elim o as (λ _. Option V) [
            | none ↦ none
            | some i ↦ get_or (init {K = K} {V = V} vsize tsize).vector i none
          ]
          ≡ none) [
            | none ↦ refl
            | some i ↦ get_or-replicate (if vsize == 0 then 1 else vsize) none i
          ]

  -- A new table is valid, whatever sizes are asked for, and `rbtH_get` finds nil under every key.
  pub init-IsValid :
      (keys : Keys K) (vsize tsize : ℕ)
      → IsValid keys (init {V = V} vsize tsize)
        × ((k : K) → lookup keys (init {V = V} vsize tsize) k ≡ some none)
  unfolding IsValid init
  init-IsValid keys vsize tsize =
      let h = replicate-Holds keys (if tsize == 0 then 1 else tsize) (nodes-positive tsize) in
      (
        ([], h, omega arith),
        λ k.
            lookup-content keys (init {V = V} vsize tsize) [] k h
            ∙ ap some (init-content keys vsize tsize k),
      )

  clean-content :
      (keys : Keys K) (t : Table K V) (k : K)
      → content keys (record t { vector = map (λ _. none) t.vector }) [] k ≡ none
  clean-content keys t k =
      subst (λ vs. content keys (record t { vector = vs }) [] k ≡ none)
        (sym (map-replicate t.vector none))
        (elim (vector_index keys (record t { vector = replicate (length t.vector) none }) k)
          as (λ o.
            elim o as (λ _. Option V) [
              | none ↦ none
              | some i ↦ get_or (replicate (length t.vector) none) i none
            ]
            ≡ none) [ none ↦ refl | some i ↦ get_or-replicate (length t.vector) none i ])

  -- A table that is valid is valid after `rbtH_clean`, and `rbtH_get` finds nil under every key.
  pub clean-IsValid :
      (keys : Keys K) (t : Table K V)
      → IsValid keys t
      → IsValid keys (clean t) × ((k : K) → lookup keys (clean t) k ≡ some none)
  unfolding IsValid clean
  clean-IsValid keys t (es, h, f) =
      let e = sym (map-replicate t.node empty_node) in
      let k =
        subst (λ ns. Holds {V = V} keys ns []) e
          (replicate-Holds keys (length t.node) h.some_node) in
      let long : length (map (λ _. empty_node {K = K} {V = V}) t.node) ≡ length t.node =
        ap length (sym e) ∙ length-replicate (length t.node) empty_node in
      (
        ([], k, omega (arith, long)),
        λ j. lookup-content keys (clean t) [] j k ∙ ap some (clean-content keys t j),
      )
