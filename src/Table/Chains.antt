-- ===== src/Table/Chains.antt =====
-- The chains of nodes in the hash part of rbtlib/table.c, laid end to end.
use smart_rabbit_server.Base.{
  ℕ, ◌<◌, ◌≡◌, ◌≢◌, ◌⊎◌, inl, inr, sym, Bool, Option, none, some, List, [], ◌∷◌, if◌then◌else◌,
  get_elem?, length,
}
use smart_rabbit_server.Base.Distinct.{Misses, Distinct}
use smart_rabbit_server.Table.{Keys, Node, empty_node, main_position}

-- A node in use: its place, what it holds, and whether its chain goes on with the next entry.
pub record Entry (K V : Type 0) : Type 0 where
  pub at : ℕ
  pub key : K
  pub val : Option V
  pub more : Bool

-- The number is in the list.
abbrev pub In : ℕ → List ℕ → Type 0
In p [] = ⊥
In p (i ∷ is) = (p ≡ i) ⊎ In p is

pub In-Misses : (p : ℕ) (is : List ℕ) → In p is → Misses p is → ⊥
In-Misses p [] n m = n
In-Misses p (i ∷ is) (inl e) (ne, m) = ne (sym e)
In-Misses p (i ∷ is) (inr n) (ne, m) = In-Misses p is n m

module _ {K V : Type 0} where
  abbrev pub indices : List (Entry K V) → List ℕ
  indices [] = []
  indices (e ∷ es) = e.at ∷ indices es

  abbrev pub keys_of : List (Entry K V) → List K
  keys_of [] = []
  keys_of (e ∷ es) = e.key ∷ keys_of es

  -- The first node of the entries, which the node `after` follows.
  abbrev pub head_or : List (Entry K V) → Option ℕ → Option ℕ
  head_or [] after = after
  head_or (e ∷ es) after = some e.at

  abbrev pub link_of : Entry K V → Option ℕ → Option ℕ
  link_of e next = if e.more then next else none

  abbrev pub node_of : Entry K V → Option ℕ → Node K V
  node_of e next = record { key = some e.key; val = e.val; next = next }

  -- The nodes hold the entries, each linked to the next one of its chain.
  abbrev pub Linked : List (Node K V) → List (Entry K V) → Option ℕ → Type 0
  Linked ns [] after = Unit
  Linked ns (e ∷ es) after =
      (get_elem? ns e.at ≡ some (node_of e (link_of e (head_or es after)))) × Linked ns es after

  -- Every key is in its main position or behind it in the same chain; `seen` is the part of the chain
  -- before the entries.
  abbrev pub Placed : Keys K → ℕ → List ℕ → List (Entry K V) → Type 0
  Placed keys size seen [] = Unit
  Placed keys size seen (e ∷ es) =
      In (main_position keys size e.key) (e.at ∷ seen)
      × Placed keys size (if e.more then e.at ∷ seen else []) es

  -- No key has the main position `p`.
  abbrev pub NoMain : Keys K → ℕ → ℕ → List (Entry K V) → Type 0
  NoMain keys size p [] = Unit
  NoMain keys size p (e ∷ es) = (main_position keys size e.key ≢ p) × NoMain keys size p es

  -- A node whose key is not in its main position is the main position of no key of `all`.
  abbrev pub Owned : Keys K → ℕ → List (Entry K V) → List (Entry K V) → Type 0
  Owned keys size all [] = Unit
  Owned keys size all (e ∷ es) =
      ((main_position keys size e.key ≡ e.at) ⊎ NoMain keys size e.at all) × Owned keys size all es

  -- The hash part `ns` holds the entries; its other nodes are as `table_init` made them.
  pub record Holds (keys : Keys K) (ns : List (Node K V)) (es : List (Entry K V)) : Type 0 where
    pub linked : Linked ns es none
    pub listed : Distinct (indices es)
    pub keyed : Distinct (keys_of es)
    pub unused : (i : ℕ) → i < length ns → Misses i (indices es) → get_elem? ns i ≡ some empty_node
    pub placed : Placed keys (length ns) [] es
    pub owned : Owned keys (length ns) es es
    pub some_node : 0 < length ns

  -- The first entry with a key.
  abbrev pub index_of : Keys K → K → List (Entry K V) → Option ℕ
  index_of keys k [] = none
  index_of keys k (e ∷ es) =
      let rest = index_of keys k es in if keys.same e.key k then some e.at else rest

  -- What the entries hold for a key, nil being `none`.
  abbrev pub value : Keys K → K → List (Entry K V) → Option V
  value keys k [] = none
  value keys k (e ∷ es) = let rest = value keys k es in if keys.same e.key k then e.val else rest
