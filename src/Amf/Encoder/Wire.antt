-- ===== src/Amf/Encoder/Wire.antt =====
-- The encoder writes the bytes of the tree that a value stands for.
use smart_rabbit_server.Base.{
  ℕ, zero, suc, ◌+◌, ◌*◌, ◌^◌, ◌<◌, ap, ◌∙◌, length, ◌≤◌, ◌≡◌, refl, true, false, Option, some,
  List, [], ◌∷◌, ◌++◌, arith,
}
use smart_rabbit_server.Base.Int.{ℤ, pos, negsuc}
use smart_rabbit_server.Amf.Value.{Value, string, Table, Heap, is_nil}
use smart_rabbit_server.Amf.Ints.{encode_int, Out}
use smart_rabbit_server.Amf.Ints.RoundTrip.{Fits29}
use smart_rabbit_server.Amf.Tree.{
  Tree, null, bool, int, real, text, dict, Entries, end, entry, wire, wire_entries, wire_string,
  wire_int, IsName, NotNull, Sendable, SendableEntries, Shows, ShowsEntries, weight, weight_entries,
}
use smart_rabbit_server.Amf.Encoder.Forms.{
  encode_int-wire_int, encode_double-wire_double, header-wire_string,
}
use smart_rabbit_server.Amf.Encoder.{
  Platform, key_name, encode_string, serialize_string, encode_bool, write_int, encode_entries,
  encode_object, encode_amf3,
}

-- What a call is to have written.
abbrev pub Wrote : Option Out → List ℕ → Type 0
Wrote o bytes = (ret : ℕ) × (o ≡ some (bytes, ret))

name-key_name : (p : Platform) (k : List ℕ) → IsName k → key_name p (string k) ≡ some k
unfolding key_name
name-key_name p [] h = absurd (omega arith)
name-key_name p (c ∷ s) (h, l, r) = rw r

shown-not_nil :
    (n : ℕ) (h : Heap) (v : Value) (t : Tree) → NotNull t → Shows n h v t → is_nil v ≡ false
shown-not_nil n h v null nn s = elim nn [ ]
shown-not_nil n h v (bool b) nn s = rw s
shown-not_nil n h v (int z) nn s = rw s
shown-not_nil n h v (real d) nn s = rw s
shown-not_nil n h v (text x) nn s = rw s
shown-not_nil n h v (dict es) nn (a, t, e, lo, at, r) = rw e

write_int-code : (p : Platform) (z : ℤ) → Fits29 z → (write_int p z).0 ≡ 0x04 ∷ (encode_int z).0
unfolding write_int
write_int-code p (pos n) h = ground arith
write_int-code p (negsuc n) h = ground arith

write_int-wire : (p : Platform) (z : ℤ) → Fits29 z → (write_int p z).0 ≡ 0x04 ∷ wire_int z
write_int-wire p z h = write_int-code p z h ∙ ap (λ x. 0x04 ∷ x) (encode_int-wire_int z h)

serialize-code :
    (s : List ℕ) → (serialize_string s).0 ≡ (encode_int (pos (length s * 2 + 1))).0 ++ s
unfolding serialize_string encode_string
serialize-code [] = unfold encode_int in refl
serialize-code (c ∷ s) = ground arith

serialize-wire : (s : List ℕ) → length s < 2 ^ 27 → (serialize_string s).0 ≡ wire_string s
serialize-wire s h = serialize-code s ∙ header-wire_string s h

-- One entry in front of those that are already written.
entry-wire :
    (p : Platform) (enc : Value → Option Out) (k : List ℕ) (v : Value) (t : Table) (xs ys : List ℕ)
    → IsName k
    → is_nil v ≡ false
    → Wrote (enc v) xs
    → encode_entries p enc t ≡ some ys
    → encode_entries p enc ((string k, v) ∷ t) ≡ some (wire_string k ++ (xs ++ ys))
unfolding encode_entries encode_string
entry-wire p enc k v t xs ys name nn (ret, e) rest =
    rw (nn, name-key_name p k name, e, rest)
      (ap (λ s. some (s ++ (xs ++ ys))) (header-wire_string k name.1))

object-wire :
    (p : Platform) (enc : Value → Option Out) (t : Table) (xs : List ℕ)
    → encode_entries p enc t ≡ some xs
    → Wrote (encode_object p enc t) (0x0a ∷ 0x0b ∷ 0x01 ∷ (xs ++ (0x01 ∷ [])))
unfolding encode_object encode_string encode_int
object-wire p enc t xs e = (1, rw (e, encode_object))

weight_pos : (t : Tree) → 1 ≤ weight t
weight_pos null = omega arith
weight_pos (dict es) = omega arith
weight_pos _ = omega arith

module _ (p : Platform) (h : Heap) where
  mutual
    unfolding encode_amf3 wire wire_entries encode_entries encode_bool

    pub encode-wire_tree :
        (t : Tree) (fuel n : ℕ) (v : Value)
        → Shows n h v t
        → Sendable t
        → weight t ≤ fuel
        → Wrote (encode_amf3 p fuel h v) (wire p.big_endian t)
    encode-wire_tree t zero n v s g w = absurd (omega (arith, weight_pos t))
    encode-wire_tree null (suc fuel) n v s g w = (0, rw s)
    encode-wire_tree (bool true) (suc fuel) n v s g w = (0, rw s)
    encode-wire_tree (bool false) (suc fuel) n v s g w = (0, rw s)
    encode-wire_tree (int z) (suc fuel) n v s g w =
        ((write_int p z).1, rw s (ap (λ x. some (x, (write_int p z).1)) (write_int-wire p z g)))
    encode-wire_tree (real d) (suc fuel) n v s g w =
        (8, rw (s, encode_double-wire_double p.big_endian d))
    encode-wire_tree (text x) (suc fuel) n v s g w =
        ((serialize_string x).1, rw (s, serialize-wire x g))
    encode-wire_tree (dict es) (suc fuel) n v (a, t, e, lo, at, sh) g w =
        rw (e, at)
          (object-wire p (encode_amf3 p fuel h) t _
            (encode-wire_entries es fuel n t sh g (omega arith)))

    encode-wire_entries :
        (es : Entries) (fuel n : ℕ) (t : Table)
        → ShowsEntries n h t es
        → SendableEntries es
        → weight_entries es ≤ fuel
        → encode_entries p (encode_amf3 p fuel h) t ≡ some (wire_entries p.big_endian es)
    encode-wire_entries end fuel n t s g w = rw s
    encode-wire_entries (entry k x es) fuel n t (v, rest, e, sv, sr) (name, nn, fr, gx, gs) w =
        rw e (
          entry-wire p (encode_amf3 p fuel h) k v rest _ _ name (shown-not_nil n h v x nn sv)
            (encode-wire_tree x fuel n v sv gx (omega arith))
            (encode-wire_entries es fuel n rest sr gs (omega arith)))

-- With fuel of at least the weight of the tree, the encoder succeeds on a value that stands for
-- a tree of sendable values, and what it writes is the AMF3 form of that tree.
pub encode_amf3-wire :
    (p : Platform) (h : Heap) (v : Value) (t : Tree) (fuel n : ℕ)
    → Shows n h v t
    → Sendable t
    → weight t ≤ fuel
    → (ret : ℕ) × (encode_amf3 p fuel h v ≡ some (wire p.big_endian t, ret))
encode_amf3-wire p h v t fuel n s g w = encode-wire_tree p h t fuel n v s g w
