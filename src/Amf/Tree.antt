-- ===== src/Amf/Tree.antt =====
-- An independent description of what travels: trees of values, the AMF3 bytes of a tree, and when
-- a value in a heap of tables stands for a tree.
use smart_rabbit_server.Base.{
  ℕ, suc, ◌+◌, ◌*◌, ◌^◌, zero, ◌-◌, ◌/◌, ◌%◌, leb, if◌then◌else◌, ◌≤◌, ◌<◌, ◌≡◌, Bool, true, false,
  some, List, [], ◌∷◌, ◌++◌, length, get_elem?,
}
use smart_rabbit_server.Base.Int.{ℤ, pos, negsuc}
use smart_rabbit_server.Amf.Value.{
  Double, Value, nil, boolean, number, float, string, table, Table, Heap, bytes_eq, bytes8, key_eq,
  table_get,
}
use smart_rabbit_server.Amf.Ints.RoundTrip.{Fits29}
use smart_rabbit_server.Amf.Encoder.{root}

mutual
  pub data Tree : Type 0 where
    null : Tree
    bool : Bool → Tree
    int : ℤ → Tree
    real : Double → Tree
    text : List ℕ → Tree
    dict : Entries → Tree

  pub data Entries : Type 0 where
    end : Entries
    entry : List ℕ → Tree → Entries → Entries

-- U29, the integers of AMF3: the number with its sign as 29 bits of two's complement, in groups of
-- seven bits from the highest on. All bytes but the last have 0x80 added. The last has seven bits, or
-- eight in the form of four bytes, which is the one from 2 ^ 21 on.
abbrev pub bits29 : ℤ → ℕ
bits29 (pos n) = n
bits29 (negsuc n) = 2 ^ 29 - suc n

abbrev pub groups : ℕ → ℕ → List ℕ → List ℕ
groups zero v behind = behind
groups (suc n) v behind = groups n (v / 128) ((128 + v % 128) ∷ behind)

abbrev pub group_count : ℕ → ℕ
group_count v =
    (if leb (2 ^ 7) v then 1 else 0)
    + ((if leb (2 ^ 14) v then 1 else 0) + (if leb (2 ^ 21) v then 1 else 0))

unfoldable pub u29 : ℕ → List ℕ
u29 v =
    let low = if leb (2 ^ 21) v then 256 else 128 in groups (group_count v) (v / low) (v % low ∷ [])

abbrev pub wire_int : ℤ → List ℕ
wire_int z = u29 (bits29 z)

-- The eight bytes of a double go from the one with the sign to the lowest.
abbrev pub memory : Double → List ℕ
memory (bytes8 a b c d e f g h) = a ∷ b ∷ c ∷ d ∷ e ∷ f ∷ g ∷ h ∷ []

abbrev pub backwards : List ℕ → List ℕ
backwards [] = []
backwards (x ∷ xs) = backwards xs ++ (x ∷ [])

abbrev pub wire_double : Bool → Double → List ℕ
wire_double big_endian d = if big_endian then memory d else backwards (memory d)

-- A string has its length, times two and one, in front.
abbrev pub wire_string : List ℕ → List ℕ
wire_string s = wire_int (pos (length s * 2 + 1)) ++ s

abbrev pub wire_bool : Bool → ℕ
wire_bool true = 0x03
wire_bool false = 0x02

module _ (big_endian : Bool) where
  unfoldable mutual
    pub wire : Tree → List ℕ
    wire null = 0x01 ∷ []
    wire (bool b) = wire_bool b ∷ []
    wire (int z) = 0x04 ∷ wire_int z
    wire (real d) = 0x05 ∷ wire_double big_endian d
    wire (text s) = 0x06 ∷ wire_string s
    wire (dict es) = 0x0a ∷ 0x0b ∷ 0x01 ∷ (wire_entries es ++ (0x01 ∷ []))

    pub wire_entries : Entries → List ℕ
    wire_entries end = []
    wire_entries (entry k t es) = wire_string k ++ (wire t ++ wire_entries es)

-- No entry of `es` is called `k`.
abbrev pub Fresh : List ℕ → Entries → Type 0
Fresh k end = Unit
Fresh k (entry j t es) = (bytes_eq k j ≡ false) × Fresh k es

abbrev pub NotNull : Tree → Type 0
NotNull null = ⊥
NotNull _ = Unit {0}

-- A name that can be sent: not empty, not "Root", and its length fits in 27 bits.
abbrev pub IsName : List ℕ → Type 0
IsName k = (0 < length k) × (length k < 2 ^ 27) × (bytes_eq k root ≡ false)

-- What the codec carries without loss: integers of 29 bits, strings below 2^27 bytes, and tables
-- with distinct names and no nil among their values.
abbrev mutual
  pub Sendable : Tree → Type 0
  Sendable null = Unit
  Sendable (bool b) = Unit
  Sendable (int z) = Fits29 z
  Sendable (real d) = Unit
  Sendable (text s) = length s < 2 ^ 27
  Sendable (dict es) = SendableEntries es

  pub SendableEntries : Entries → Type 0
  SendableEntries end = Unit
  SendableEntries (entry k t es) =
      IsName k × NotNull t × Fresh k es × Sendable t × SendableEntries es

-- `Shows n h v t`: in the heap `h` the value `v` stands for the tree `t`, and the tables that it
-- reaches have addresses from `n` on.
abbrev mutual
  pub Shows : ℕ → Heap → Value → Tree → Type 0
  Shows n h v null = v ≡ nil
  Shows n h v (bool b) = v ≡ boolean b
  Shows n h v (int z) = v ≡ number z
  Shows n h v (real d) = v ≡ float d
  Shows n h v (text s) = v ≡ string s
  Shows n h v (dict es) =
      (a : ℕ) × (t : Table) × (v ≡ table a)
      × (n ≤ a)
      × (get_elem? h a ≡ some t)
      × ShowsEntries n h t es

  pub ShowsEntries : ℕ → Heap → Table → Entries → Type 0
  ShowsEntries n h t end = t ≡ []
  ShowsEntries n h t (entry k x es) =
      (v : Value) × (rest : Table) × (t ≡ (string k, v) ∷ rest)
      × Shows n h v x
      × ShowsEntries n h rest es

-- `Finds n h v t`: as `Shows`, but of a table only what `rbtH_get` answers counts: the names of the
-- tree are found there with their values, and under every other key there is nil.
abbrev pub NoName : Value → Entries → Type 0
NoName key end = Unit
NoName key (entry k t es) = (key_eq (string k) key ≡ false) × NoName key es

abbrev mutual
  pub Finds : ℕ → Heap → Value → Tree → Type 0
  Finds n h v null = v ≡ nil
  Finds n h v (bool b) = v ≡ boolean b
  Finds n h v (int z) = v ≡ number z
  Finds n h v (real d) = v ≡ float d
  Finds n h v (text s) = v ≡ string s
  Finds n h v (dict es) =
      (a : ℕ) × (t : Table) × (v ≡ table a)
      × (n ≤ a)
      × (get_elem? h a ≡ some t)
      × ((key : Value) → NoName key es → table_get t key ≡ nil)
      × FindsEntries n h t es

  pub FindsEntries : ℕ → Heap → Table → Entries → Type 0
  FindsEntries n h t end = Unit
  FindsEntries n h t (entry k x es) = Finds n h (table_get t (string k)) x × FindsEntries n h t es

-- The nesting and the lengths of the loops that a tree takes.
abbrev mutual
  pub weight : Tree → ℕ
  weight null = 1
  weight (bool b) = 1
  weight (int z) = 1
  weight (real d) = 1
  weight (text s) = 1
  weight (dict es) = suc (weight_entries es)

  pub weight_entries : Entries → ℕ
  weight_entries end = 1
  weight_entries (entry k t es) = suc (weight t + weight_entries es)
