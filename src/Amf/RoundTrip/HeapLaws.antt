-- ===== src/Amf/RoundTrip/HeapLaws.antt =====
-- What a heap shows stays shown when tables are added or an unreached one is written.
use smart_rabbit_server.Base.{
  ℕ, zero, suc, ◌+◌, ◌≤◌, ◌<◌, ◌≡◌, ◌≢◌, ◌∙◌, refl, ap, false, some, List, [], ◌∷◌, ◌++◌, length,
  get_elem?, length-append, arith,
}
use smart_rabbit_server.Amf.Value.{Value, string, Table, Heap, bytes_eq, key_eq, table_set}
use smart_rabbit_server.Amf.Tree.{
  Tree, null, bool, int, real, text, dict, Entries, end, entry, Fresh, Shows, ShowsEntries,
}

pub get_elem?-lt {ℓ} :
    {A : Type ℓ} (xs : List A) (i : ℕ) {x : A} → get_elem? xs i ≡ some x → i < length xs
get_elem?-lt [] i e = cc
get_elem?-lt (y ∷ xs) zero e = omega arith
get_elem?-lt (y ∷ xs) (suc i) e = omega (arith, get_elem?-lt xs i e)

pub get_elem?-append {ℓ} :
    {A : Type ℓ} (xs ys : List A) (i : ℕ) → i < length xs → get_elem? (xs ++ ys) i ≡ get_elem? xs i
get_elem?-append [] ys i h = absurd (omega arith)
get_elem?-append (x ∷ xs) ys zero h = refl
get_elem?-append (x ∷ xs) ys (suc i) h = get_elem?-append xs ys i (omega arith)

pub get_elem?-append_last {ℓ} :
    {A : Type ℓ} (xs : List A) (x : A) → get_elem? (xs ++ (x ∷ [])) (length xs) ≡ some x
get_elem?-append_last [] x = refl
get_elem?-append_last (y ∷ xs) x = get_elem?-append_last xs x

-- From `n` on `h'` holds the tables of `h`.
abbrev pub SameFrom : ℕ → Heap → Heap → Type 0
SameFrom n h h' = (i : ℕ) → n ≤ i → i < length h → get_elem? h' i ≡ get_elem? h i

-- `h'` has the tables of `h`, the one at `a` excepted, and perhaps more.
abbrev pub Keeps : ℕ → Heap → Heap → Type 0
Keeps a h h' =
    (length h ≤ length h') × ((i : ℕ) → i < length h → i ≢ a → get_elem? h' i ≡ get_elem? h i)

-- `h'` has all the tables of `h`, and perhaps more.
abbrev pub Grows : Heap → Heap → Type 0
Grows h h' = (length h ≤ length h') × ((i : ℕ) → i < length h → get_elem? h' i ≡ get_elem? h i)

mutual
  Shows-same_tree :
      (t : Tree) (n m : ℕ) (h h' : Heap) (v : Value)
      → m ≤ n
      → SameFrom n h h'
      → Shows n h v t
      → Shows m h' v t
  Shows-same_tree null n m h h' v p same s = s
  Shows-same_tree (bool b) n m h h' v p same s = s
  Shows-same_tree (int z) n m h h' v p same s = s
  Shows-same_tree (real d) n m h h' v p same s = s
  Shows-same_tree (text x) n m h h' v p same s = s
  Shows-same_tree (dict es) n m h h' v p same (a, t, e, lo, at, sh) = (
    a,
    t,
    e,
    omega arith,
    same a lo (get_elem?-lt h a at) ∙ at,
    Shows-same_entries es n m h h' t p same sh,
  )

  Shows-same_entries :
      (es : Entries) (n m : ℕ) (h h' : Heap) (t : Table)
      → m ≤ n
      → SameFrom n h h'
      → ShowsEntries n h t es
      → ShowsEntries m h' t es
  Shows-same_entries end n m h h' t p same s = s
  Shows-same_entries (entry k x es) n m h h' t p same (v, rest, e, sv, sr) = (
    v,
    rest,
    e,
    Shows-same_tree x n m h h' v p same sv,
    Shows-same_entries es n m h h' rest p same sr,
  )

pub Shows-same :
    (t : Tree) (n m : ℕ) (h h' : Heap) (v : Value)
    → m ≤ n
    → SameFrom n h h'
    → Shows n h v t
    → Shows m h' v t
Shows-same t n m h h' v p same s = Shows-same_tree t n m h h' v p same s

-- Freshness of a name in a table, in the order of arguments that `table_set` uses.
abbrev pub Absent : Table → List ℕ → Type 0
Absent [] k = Unit
Absent ((j, v) ∷ t) k = (key_eq j (string k) ≡ false) × Absent t k

-- Writing a new key appends its entry.
pub table_set-Absent :
    (t : Table) (k : List ℕ) (v : Value)
    → Absent t k
    → table_set t (string k) v ≡ t ++ ((string k, v) ∷ [])
unfolding table_set
table_set-Absent [] k v a = refl
table_set-Absent ((j, w) ∷ t) k v (e, a) = rw (e, table_set-Absent t k v a)

abbrev pub AllAbsent : Table → Entries → Type 0
AllAbsent t end = Unit
AllAbsent t (entry k x es) = Absent t k × AllAbsent t es

Absent-append :
    (t : Table) (k j : List ℕ) (v : Value)
    → bytes_eq k j ≡ false
    → Absent t j
    → Absent (t ++ ((string k, v) ∷ [])) j
Absent-append [] k j v e a = (e, tt)
Absent-append ((i, w) ∷ t) k j v e (b, a) = (b, Absent-append t k j v e a)

pub AllAbsent-append :
    (es : Entries) (t : Table) (k : List ℕ) (v : Value)
    → Fresh k es
    → AllAbsent t es
    → AllAbsent (t ++ ((string k, v) ∷ [])) es
AllAbsent-append end t k v f a = tt
AllAbsent-append (entry j x es) t k v (e, f) (b, a) =
    (Absent-append t k j v e b, AllAbsent-append es t k v f a)

pub AllAbsent-nil : (es : Entries) → AllAbsent [] es
AllAbsent-nil end = tt
AllAbsent-nil (entry k x es) = (tt, AllAbsent-nil es)

pub ShowsEntries-same :
    (es : Entries) (n m : ℕ) (h h' : Heap) (t : Table)
    → m ≤ n
    → SameFrom n h h'
    → ShowsEntries n h t es
    → ShowsEntries m h' t es
ShowsEntries-same es n m h h' t p same s = Shows-same_entries es n m h h' t p same s

-- A table is added, and then only that one is written.
pub Grows-new : (h h1 h2 : Heap) → h1 ≡ h ++ ([] ∷ []) → Keeps (length h) h1 h2 → Grows h h2
Grows-new h h1 h2 e (len, g) =
    let len1 : length h1 ≡ length h + 1 = rw e (length-append h ([] ∷ [])) in
    (
      omega arith,
      λ i p.
          g i (omega arith) (omega arith)
          ∙ ap (λ (x : Heap). get_elem? x i) e
          ∙ get_elem?-append h ([] ∷ []) i p,
    )
