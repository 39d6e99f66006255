-- ===== src/Amf/RoundTrip/Tables.antt =====
-- The decoder on the bytes of a tree, by induction on the tree: scalars, then the loop over the
-- members of an object.
use smart_rabbit_server.Base.{
  ℕ, zero, suc, ◌^◌, ◌≤◌, ◌<◌, ◌≡◌, ◌≢◌, ◌∙◌, refl, sym, ap, Bool, true, false, Option, some, none,
  List, [], ◌∷◌, ◌++◌, length, get_elem?, set, length-set, get_elem?-set_ne, get_elem?-set_self,
  arith, append_assoc, append-nil, ◌==◌,
}
use smart_rabbit_server.Base.Int.{ℤ, pos}
use smart_rabbit_server.Amf.Value.{
  Double, Value, nil, boolean, number, float, string, table, Table, Heap, table_set, Result, ok,
}
use smart_rabbit_server.Amf.Ints.{decode_int}
use smart_rabbit_server.Amf.Encoder.Forms.{encode_int-wire_int, encode_double-wire_double}
use smart_rabbit_server.Amf.Tree.{
  Tree, null, bool, int, real, text, dict, Entries, end, entry, wire, wire_entries, wire_string,
  wire_int, wire_double, u29, Sendable, SendableEntries, Shows, ShowsEntries, weight,
  weight_entries,
}
use smart_rabbit_server.Amf.Decoder.{
  Ctx, read_byte, read_int, decode_reference, deserialize_string, deserialize_string_body,
  new_table, set_entry, string_bytes, local_value, idx_map_object,
}
use smart_rabbit_server.Amf.Decoder.Collections.{
  DecodePart, members_loop, object_body, names_loop, sealed_count, sealed_loop, add_traits,
  decode_object,
}
use smart_rabbit_server.Amf.Decoder.Decode.{dispatch, decode_amf3}
use smart_rabbit_server.Amf.RoundTrip.Scalars.{
  Reads, read_int-encode_int, decode_double-encode_double, deserialize-wire_string,
}
use smart_rabbit_server.Amf.RoundTrip.HeapLaws.{
  get_elem?-lt, get_elem?-append_last, Keeps, Grows, Shows-same, ShowsEntries-same, Grows-new,
  table_set-Absent, AllAbsent, AllAbsent-append, AllAbsent-nil,
}

-- The call returns a value that shows `t` in the tables that it made, and leaves `rest`.
abbrev pub Decoded : Result (Option Value × Ctx) → Tree → List ℕ → Ctx → Type 0
Decoded r t rest c =
    (v : Value) × (c' : Ctx) × (r ≡ ok (some v, c'))
    × (c'.input ≡ rest)
    × Grows c.heap c'.heap
    × Shows (length c.heap) c'.heap v t

suc_nonzero : (n : ℕ) → (suc n == 0) ≡ false
suc_nonzero n = ground arith

Grows-eq : {h h' : Heap} → h' ≡ h → Grows h h'
Grows-eq e = rw e (omega arith, λ i p. refl)

weight_pos : (t : Tree) → 1 ≤ weight t
weight_pos null = omega arith
weight_pos _ = omega arith

weight_entries_pos : (es : Entries) → 1 ≤ weight_entries es
weight_entries_pos end = omega arith
weight_entries_pos _ = omega arith

module _ (be : Bool) where
  -- The name that comes next, and the bytes behind it.
  abbrev first_key : Entries → List ℕ
  first_key end = []
  first_key (entry k t es) = k

  abbrev behind : Entries → List ℕ → List ℕ
  behind end rest = rest
  behind (entry k t es) rest = wire be t ++ (wire_entries be es ++ (0x01 ∷ rest))

  read_key :
      (es : Entries) (rest : List ℕ) (c : Ctx)
      → SendableEntries es
      → c.input ≡ wire_entries be es ++ (0x01 ∷ rest)
      → Reads (deserialize_string c) (string (first_key es)) (behind es rest) c
  unfolding wire
  read_key end rest c g e = deserialize-wire_string [] rest c (omega arith) (e ∙ unfold u29 in refl)
  read_key (entry k t es) rest c ((pos_k, len, nr), nn, fr, gt, gs) e =
      deserialize-wire_string k _ c len (
        e
        ∙ append_assoc (wire_string k) (wire be t ++ wire_entries be es) (0x01 ∷ rest)
        ∙ ap (λ x. wire_string k ++ x)
            (append_assoc (wire be t) (wire_entries be es) (0x01 ∷ rest)))

  -- One round of the loop over the members, with its calls given.
  members_step :
      (fuel : ℕ) (dec : DecodePart) (a : ℕ) (k : List ℕ) (val : Option Value) (c c1 c2 : Ctx)
      (v : Value) (t : Table) (j : List ℕ)
      → 0 < length k
      → dec val c ≡ ok (some v, c1)
      → get_elem? c1.heap a ≡ some t
      → deserialize_string (record c1 { heap = set c1.heap a (table_set t (string k) v) })
        ≡ ok (string j, c2)
      → members_loop (suc fuel) dec (λ s. s) a (string k) val c
        ≡ members_loop fuel dec (λ s. s) a (string j) (some v) c2
  unfolding members_loop string_bytes local_value set_entry
  members_step fuel dec a [] val c c1 c2 v t j n d g s = absurd (omega arith)
  members_step fuel dec a (x ∷ k) val c c1 c2 v t j n d g s = ground arith

  -- What the loop over the members has done when it stops.
  abbrev Filled : Result (Unit {0} × Ctx) → Entries → ℕ → Table → List ℕ → Ctx → Type 0
  Filled r es a done rest c =
      (c' : Ctx) × (t : Table) × (r ≡ ok (tt, c'))
      × (c'.input ≡ rest)
      × Keeps a c.heap c'.heap
      × (get_elem? c'.heap a ≡ some (done ++ t))
      × ShowsEntries (suc a) c'.heap t es

  -- A written entry is kept by the rest of the loop.
  filled_entry :
      (x : Tree) (a : ℕ) (v : Value) (h h1 h2 h' : Heap)
      → a < length h
      → Grows h h1
      → Shows (length h) h1 v x
      → length h2 ≡ length h1
      → ((i : ℕ) → i ≢ a → get_elem? h2 i ≡ get_elem? h1 i)
      → Keeps a h2 h'
      → Keeps a h h' × Shows (suc a) h' v x
  filled_entry x a v h h1 h2 h' lt (len1, g1) s len2 g2 (len3, g3) = (
    (omega arith, λ i p ne. g3 i (omega arith) ne ∙ g2 i ne ∙ g1 i p),
    Shows-same x (length h) (suc a) h1 h' v (omega arith)
        (λ i lo hi. g3 i (omega arith) (omega arith) ∙ g2 i (omega arith)) s,
  )

  -- The start of `decode_object` on what `encode_object` writes before the first name.
  object_start :
      (fuel : ℕ) (dec : DecodePart) (old : Option Value) (xs : List ℕ) (c : Ctx)
      → c.input ≡ 0x0b ∷ 0x01 ∷ xs
      → decode_object fuel dec old c ≡ object_body fuel dec (pos 0x0b) (record c { input = xs })
  unfolding decode_object read_int decode_int decode_reference deserialize_string
      deserialize_string_body
  object_start fuel dec old xs c e = rw e

  abbrev opened : Ctx → Ctx
  opened c = record c {
    heap = c.heap ++ ([] ∷ []);
    traits_refs = c.traits_refs ++ (record { names = []; dynamic = true } ∷ []);
  }

  object_finish :
      (fuel : ℕ) (dec : DecodePart) (c c1 c2 : Ctx) (k : List ℕ)
      → deserialize_string (opened c) ≡ ok (string k, c1)
      → members_loop fuel dec (λ s. s) (length c.heap) (string k) none c1 ≡ ok (tt, c2)
      → object_body fuel dec (pos 0x0b) c
        ≡ ok (
          some (table (length c.heap)),
          record c2 { obj_refs = c2.obj_refs ++ (table (length c.heap) ∷ []) },
        )
  unfolding object_body names_loop sealed_count add_traits new_table sealed_loop idx_map_object
  object_finish fuel dec c c1 c2 k e f = rw (e, f)

  dispatch-object :
      (fuel : ℕ) (old : Option Value) (xs : List ℕ) (c : Ctx)
      → c.input ≡ 0x0a ∷ xs
      → decode_amf3 be (suc fuel) old c
        ≡ decode_object fuel (decode_amf3 be fuel) old (record c { input = xs })
  unfolding decode_amf3 dispatch read_byte
  dispatch-object fuel old xs c e = rw e

  dispatch-int :
      (z : ℤ) (fuel : ℕ) (old : Option Value) (rest : List ℕ) (c : Ctx)
      → Sendable (int z)
      → c.input ≡ wire be (int z) ++ rest
      → Decoded (decode_amf3 be (suc fuel) old c) (int z) rest c
  unfolding decode_amf3 dispatch read_byte wire
  dispatch-int z fuel old rest c g e = (
    number z,
    record c { input = rest },
    rw (
      e,
      read_int-encode_int z rest (record c { input = wire_int z ++ rest }) g
          (ap (λ x. x ++ rest) (sym (encode_int-wire_int z g))),
    ),
    refl,
    Grows-eq refl,
    refl,
  )

  dispatch-real :
      (d : Double) (fuel : ℕ) (old : Option Value) (rest : List ℕ) (c : Ctx)
      → c.input ≡ wire be (real d) ++ rest
      → Decoded (decode_amf3 be (suc fuel) old c) (real d) rest c
  unfolding decode_amf3 dispatch read_byte wire
  dispatch-real d fuel old rest c e =
      let (c', p, q, r) =
        decode_double-encode_double be d rest (record c { input = wire_double be d ++ rest })
          (ap (λ x. x ++ rest) (sym (encode_double-wire_double be d))) in
      (float d, c', rw (e, p), q, Grows-eq r, refl)

  dispatch-text :
      (s : List ℕ) (fuel : ℕ) (old : Option Value) (rest : List ℕ) (c : Ctx)
      → length s < 2 ^ 27
      → c.input ≡ wire be (text s) ++ rest
      → Decoded (decode_amf3 be (suc fuel) old c) (text s) rest c
  unfolding decode_amf3 dispatch read_byte wire
  dispatch-text s fuel old rest c g e =
      let (c', p, q, r) =
        deserialize-wire_string s rest (record c { input = wire_string s ++ rest }) g refl in
      (string s, c', rw (e, p), q, Grows-eq r, refl)

  dispatch-dict :
      (es : Entries) (fuel : ℕ) (old : Option Value) (rest : List ℕ) (c : Ctx)
      → SendableEntries es
      → c.input ≡ wire be (dict es) ++ rest
      → ((c1 : Ctx) (a : ℕ)
          → c1.input ≡ behind es rest
          → get_elem? c1.heap a ≡ some []
          → Filled
              (members_loop fuel (decode_amf3 be fuel) (λ s. s) a (string (first_key es)) none c1)
              es
              a
              []
              rest
              c1)
      → Decoded (decode_amf3 be (suc fuel) old c) (dict es) rest c
  unfolding wire
  dispatch-dict es fuel old rest c g e loop =
      let xs = wire_entries be es ++ (0x01 ∷ rest) in
      let a = length c.heap in
      let c0 : Ctx = record c { input = xs } in
      let eq : c.input ≡ 0x0a ∷ 0x0b ∷ 0x01 ∷ xs =
        e ∙ ap (λ x. 0x0a ∷ 0x0b ∷ 0x01 ∷ x) (append_assoc (wire_entries be es) (0x01 ∷ []) rest) in
      let (c1, p1, q1, r1) = read_key es rest (opened c0) g refl in
      let at : get_elem? c1.heap a ≡ some [] =
        ap (λ h. get_elem? h a) r1 ∙ get_elem?-append_last c.heap [] in
      let (c2, t, p2, q2, k2, at2, sh) = loop c1 a q1 at in
      (
        table a,
        record c2 { obj_refs = c2.obj_refs ++ (table a ∷ []) },
        dispatch-object fuel old (0x0b ∷ 0x01 ∷ xs) c eq
            ∙ object_start fuel (decode_amf3 be fuel) old xs (record c { input = 0x0b ∷ 0x01 ∷ xs })
                refl
            ∙ object_finish fuel (decode_amf3 be fuel) c0 c1 c2 (first_key es) p1 p2,
        q2,
        Grows-new c.heap c1.heap c2.heap r1 k2,
        (
          a,
          t,
          refl,
          omega arith,
          at2,
          ShowsEntries-same es (suc a) a c2.heap c2.heap t (omega arith) (λ i lo hi. refl) sh,
        ),
      )

  -- One round of the loop, and the rest of it.
  fill_one :
      (k : List ℕ) (x : Tree) (es : Entries) (fuel f a : ℕ) (done : Table) (val : Option Value)
      (rest : List ℕ) (c : Ctx)
      → SendableEntries (entry k x es)
      → get_elem? c.heap a ≡ some done
      → AllAbsent done (entry k x es)
      → Decoded (decode_amf3 be f val c) x (wire_entries be es ++ (0x01 ∷ rest)) c
      → ((done' : Table) (val' : Option Value) (c' : Ctx)
          → c'.input ≡ behind es rest
          → get_elem? c'.heap a ≡ some done'
          → AllAbsent done' es
          → Filled
              (members_loop fuel (decode_amf3 be f) (λ s. s) a (string (first_key es)) val' c')
              es
              a
              done'
              rest
              c')
      → Filled
          (members_loop (suc fuel) (decode_amf3 be f) (λ s. s) a (string k) val c)
          (entry k x es)
          a
          done
          rest
          c
  fill_one k x es fuel f a done val rest c ((pk, lk, nr), nn, fr, gx, gs) at (ab, abs)
        (v, c1, p1, i1, (len1, grow1), sh1) loop =
      let lt = get_elem?-lt c.heap a at in
      let at1 : get_elem? c1.heap a ≡ some done = grow1 a lt ∙ at in
      let h2 = set c1.heap a (table_set done (string k) v) in
      let done' = done ++ ((string k, v) ∷ []) in
      let (c2, p2, i2, e2) = read_key es rest (record c1 { heap = h2 }) gs i1 in
      let new : table_set done (string k) v ≡ done' = table_set-Absent done k v ab in
      let at2 : get_elem? c2.heap a ≡ some done' =
        ap (λ h. get_elem? h a) e2
        ∙ get_elem?-set_self c1.heap a (table_set done (string k) v) (omega arith)
        ∙ ap some new in
      let (c3, t, p3, i3, k3, at3, sh3) =
        loop done' (some v) c2 i2 at2 (AllAbsent-append es done k v fr abs) in
      let (keep, shv) =
        filled_entry x a v c.heap c1.heap c2.heap c3.heap lt (len1, grow1) sh1
          (ap length e2 ∙ length-set c1.heap a (table_set done (string k) v))
          (λ i ne.
            ap (λ h. get_elem? h i) e2
            ∙ get_elem?-set_ne c1.heap (table_set done (string k) v) (λ q. ne (sym q)))
          k3 in
      (
        c3,
        (string k, v) ∷ t,
        members_step fuel (decode_amf3 be f) a k val c c1 c2 v done (first_key es) pk p1 at1 p2
            ∙ p3,
        i3,
        keep,
        at3 ∙ ap some (append_assoc done ((string k, v) ∷ []) t),
        (v, t, refl, shv, sh3),
      )

  loop_end :
      (fuel f a : ℕ) (done : Table) (val : Option Value) (rest : List ℕ) (c : Ctx)
      → c.input ≡ rest
      → get_elem? c.heap a ≡ some done
      → Filled
          (members_loop (suc fuel) (decode_amf3 be f) (λ s. s) a (string []) val c)
          end
          a
          done
          rest
          c
  unfolding members_loop string_bytes
  loop_end fuel f a done val rest c i at =
      (c, [], refl, i, (omega arith, λ i p ne. refl), at ∙ ap some (sym (append-nil done)), refl)

  mutual
    unfolding decode_amf3 dispatch read_byte wire

    decode-wire_tree :
        (t : Tree) (fuel : ℕ) (old : Option Value) (rest : List ℕ) (c : Ctx)
        → Sendable t
        → weight t ≤ fuel
        → c.input ≡ wire be t ++ rest
        → Decoded (decode_amf3 be fuel old c) t rest c
    decode-wire_tree t zero old rest c g w e = absurd (omega (arith, weight_pos t))
    decode-wire_tree null (suc fuel) old rest c g w e =
        (nil, record c { input = rest }, rw e, refl, Grows-eq refl, refl)
    decode-wire_tree (bool true) (suc fuel) old rest c g w e =
        (boolean true, record c { input = rest }, rw e, refl, Grows-eq refl, refl)
    decode-wire_tree (bool false) (suc fuel) old rest c g w e =
        (boolean false, record c { input = rest }, rw e, refl, Grows-eq refl, refl)
    decode-wire_tree (int z) (suc fuel) old rest c g w e = dispatch-int z fuel old rest c g e
    decode-wire_tree (real d) (suc fuel) old rest c g w e = dispatch-real d fuel old rest c e
    decode-wire_tree (text s) (suc fuel) old rest c g w e = dispatch-text s fuel old rest c g e
    decode-wire_tree (dict es) (suc fuel) old rest c g w e =
        dispatch-dict es fuel old rest c g e (λ c1 a i at.
          decode-wire_loop es fuel fuel a [] none rest c1 g (omega arith) (omega arith) i at
            (AllAbsent-nil es))

    decode-wire_loop :
        (es : Entries) (fuel f a : ℕ) (done : Table) (val : Option Value) (rest : List ℕ) (c : Ctx)
        → SendableEntries es
        → weight_entries es ≤ fuel
        → weight_entries es ≤ f
        → c.input ≡ behind es rest
        → get_elem? c.heap a ≡ some done
        → AllAbsent done es
        → Filled
            (members_loop fuel (decode_amf3 be f) (λ s. s) a (string (first_key es)) val c)
            es
            a
            done
            rest
            c
    decode-wire_loop es zero f a done val rest c g w w' i at ab =
        absurd (omega (arith, weight_entries_pos es))
    decode-wire_loop end (suc fuel) f a done val rest c g w w' i at ab =
        loop_end fuel f a done val rest c i at
    decode-wire_loop (entry k x es) (suc fuel) f a done val rest c (nm, nn, fr, gx, gs) w w' i at
          ab =
        fill_one k x es fuel f a done val rest c (nm, nn, fr, gx, gs) at ab
          (decode-wire_tree x f val _ c gx (omega arith) i)
          (λ done' val' c' i' at' ab'.
            decode-wire_loop es fuel f a done' val' rest c' gs (omega (arith, weight_pos x))
              (omega arith) i' at' ab')

pub decode-wire :
    (be : Bool) (t : Tree) (fuel : ℕ) (old : Option Value) (rest : List ℕ) (c : Ctx)
    → Sendable t
    → weight t ≤ fuel
    → c.input ≡ wire be t ++ rest
    → Decoded (decode_amf3 be fuel old c) t rest c
decode-wire be t fuel old rest c g w e = decode-wire_tree be t fuel old rest c g w e
