-- ===== src/Amf/RoundTrip/Names.antt =====
-- A table that lists the entries of a tree answers for them, whatever its order.
use smart_rabbit_server.Base.{ℕ, ◌≡◌, refl, true, List, [], ◌∷◌, ◌==◌, arith}
use smart_rabbit_server.Amf.Value.{Value, nil, string, Table, Heap, bytes_eq, table_get}
use smart_rabbit_server.Amf.Tree.{
  Tree, null, bool, int, real, text, dict, Entries, end, entry, Fresh, Sendable, SendableEntries,
  Shows, ShowsEntries, NoName, Finds, FindsEntries,
}

bytes_eq-same : (k : List ℕ) → bytes_eq k k ≡ true
bytes_eq-same [] = refl
bytes_eq-same (x ∷ k) = let same : (x == x) ≡ true = ground arith in rw (same, bytes_eq-same k)

-- An entry with another name does not matter.
Finds-skip :
    (es : Entries) (n : ℕ) (h : Heap) (k : List ℕ) (v : Value) (rest : Table)
    → Fresh k es
    → FindsEntries n h rest es
    → FindsEntries n h ((string k, v) ∷ rest) es
Finds-skip end n h k v rest f s = tt
Finds-skip (entry j x es) n h k v rest (e, f) (s, r) = (rw e s, Finds-skip es n h k v rest f r)

NoName-nil :
    (es : Entries) (n : ℕ) (h : Heap) (t : Table) (key : Value)
    → ShowsEntries n h t es
    → NoName key es
    → table_get t key ≡ nil
NoName-nil end n h t key s nn = rw s
NoName-nil (entry k x es) n h t key (v, rest, e, sv, sr) (ne, nn) =
    rw (e, ne) (NoName-nil es n h rest key sr nn)

mutual
  Shows-Finds_tree :
      (t : Tree) (n : ℕ) (h : Heap) (v : Value) → Sendable t → Shows n h v t → Finds n h v t
  Shows-Finds_tree null n h v g s = s
  Shows-Finds_tree (bool b) n h v g s = s
  Shows-Finds_tree (int z) n h v g s = s
  Shows-Finds_tree (real d) n h v g s = s
  Shows-Finds_tree (text x) n h v g s = s
  Shows-Finds_tree (dict es) n h v g (a, t, e, lo, at, sh) =
      (a, t, e, lo, at, λ key nn. NoName-nil es n h t key sh nn, Shows-Finds_entries es n h t g sh)

  Shows-Finds_entries :
      (es : Entries) (n : ℕ) (h : Heap) (t : Table)
      → SendableEntries es
      → ShowsEntries n h t es
      → FindsEntries n h t es
  Shows-Finds_entries end n h t g s = tt
  Shows-Finds_entries (entry k x es) n h t (name, nn, fr, gx, gs) (v, rest, e, sv, sr) =
      rw (e, bytes_eq-same k)
        (
          Shows-Finds_tree x n h v gx sv,
          Finds-skip es n h k v rest fr (Shows-Finds_entries es n h rest gs sr),
        )

pub Shows-Finds :
    (t : Tree) (n : ℕ) (h : Heap) (v : Value) → Sendable t → Shows n h v t → Finds n h v t
Shows-Finds t n h v g s = Shows-Finds_tree t n h v g s
