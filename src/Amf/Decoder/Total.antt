-- ===== src/Amf/Decoder/Total.antt =====
-- The fuel that arrays, dates, objects and `decode_amf3` need.
use smart_rabbit_server.Base.{
  ℕ, zero, suc, ◌+◌, ◌-◌, ◌≤◌, ◌<◌, ◌≡◌, ◌⊎◌, inl, inr, refl, Bool, false, Option, none, some, List,
  [], ◌∷◌, ◌++◌, length, get_elem?, arith, ltb, ◌==◌,
}
use smart_rabbit_server.Base.Int.{ℤ, pos, negsuc}
use smart_rabbit_server.Amf.Value.{
  Value, number, float, string, date, table, is_nil, is_string, asr1, bit_set, Result, ok, err,
  fault, stuck,
}
use smart_rabbit_server.Amf.Encoder.{
  undefined_type, null_type, false_type, true_type, int_type, double_type, string_type, date_type,
  array_type, object_type,
}
use smart_rabbit_server.Amf.Decoder.{
  Traits, Ctx, M, ◌>>=◌, bind_result, return, read_int, read_byte, idx_map_object, decode_reference,
  deserialize_string, decode_double, new_table, string_bytes, c_string,
}
use smart_rabbit_server.Amf.Decoder.Collections.{
  DecodePart, dict_loop, array_loop, map_collection, rounds, fill_array, array_body,
  deserialize_array, date_body, deserialize_date, members_loop, traits_size, not_moved,
  with_pointer, sealed_loop, traits_body, with_traits, traits_reference, names_loop, add_traits,
  sealed_count, object_body, decode_object,
}
use smart_rabbit_server.Amf.Decoder.Decode.{written, dispatch, decode_amf3}
use smart_rabbit_server.Amf.Decoder.Termination.{
  Bounded, Bounded-bind, Bounded-mono, Bounded-if, Bounded-found, read_int-Bounded,
  read_byte-Bounded, idx_map_object-Bounded, decode_reference-Bounded, decode_double-Bounded,
  new_table-Bounded, string_bytes-Bounded,
}
use smart_rabbit_server.Amf.Decoder.Loops.{
  Good, Ready, deserialize_string-read, deserialize_string-Bounded, read-bind, value-bind, set-bind,
  array_loop-Bounded, sealed_loop-Bounded, dict_loop-Bounded, members_loop-Bounded,
}

names_loop-Bounded : (n : ℕ) (c : Ctx) → Bounded (length c.input) (names_loop n c)
unfolding names_loop
names_loop-Bounded zero c = omega arith
names_loop-Bounded (suc n) c =
    Bounded-bind (length c.input) _ (deserialize_string c) _ (deserialize_string-Bounded c)
      (λ key c1 p.
        Bounded-if _ (is_string key) _ _ c1
          (Bounded-bind (length c1.input) _ (string_bytes key c1) _ (string_bytes-Bounded key c1)
            (λ s c2 q.
              Bounded-bind (length c2.input) _ (names_loop n c2) _ (names_loop-Bounded n c2)
                (λ names c3 r. omega arith)))
          p)

map_collection-Bounded :
    (b : Bool) (v : Value) (c : Ctx) → Bounded (length c.input) (map_collection b v c)
map_collection-Bounded b v c = Bounded-if _ b _ _ c (idx_map_object-Bounded v c) (omega arith)

not_moved-Bounded :
    (n size : ℕ) (r : Result (Option Value × Ctx)) → Bounded n r → Bounded n (not_moved size r)
not_moved-Bounded n size (ok (o, c)) b = ground arith
not_moved-Bounded n size err b = tt
not_moved-Bounded n size fault b = tt
not_moved-Bounded n size stuck b = b

with_pointer-Good : (lim : ℕ) (dec : DecodePart) → Good lim dec → Good lim (with_pointer dec)
with_pointer-Good lim dec good old c lt =
    not_moved-Bounded _ (traits_size (length c.traits_refs)) (dec old c) (good old c lt)

module _ (lim fuel : ℕ) (dec : DecodePart) (good : Good lim dec) (room : lim ≤ fuel) where
  fill_array-Bounded :
      (b : Bool) (t : ℕ) (len : ℤ) (c : Ctx)
      → length c.input < lim
      → Bounded (length c.input) (fill_array dec b t len c)
  unfolding fill_array
  fill_array-Bounded b t len c lt =
      Bounded-bind (length c.input) _ (idx_map_object (table t) c) _
        (idx_map_object-Bounded (table t) c)
        (λ _ c1 p.
          Bounded-bind (length c1.input) _ (map_collection b (table t) c1) _
            (map_collection-Bounded b (table t) c1)
            (λ _ c2 q.
              Bounded-bind (length c2.input) _ (array_loop dec t (rounds len) 0 none c2) _
                (array_loop-Bounded lim dec good (rounds len) t 0 none c2 (omega arith))
                (λ d c3 r. omega arith)))

  array_body-Bounded :
      (b : Bool) (len : ℤ) (s : List ℕ) (c : Ctx)
      → length c.input < lim
      → Bounded (length c.input) (array_body fuel dec b len s c)
  unfolding array_body
  array_body-Bounded b (negsuc n) [] c lt = tt
  array_body-Bounded b (pos n) [] c lt =
      Bounded-bind (length c.input) _ (new_table c) _ (new_table-Bounded c) (λ t c1 p.
        Bounded-mono _ _ (fill_array dec b t (pos n) c1) p
          (fill_array-Bounded b t (pos n) c1 (omega arith)))
  array_body-Bounded b len (x ∷ s) c lt = value-bind lim dec good _ none _ c lt (λ o v c1 p.
      Bounded-if _ (is_nil v) _ _ c1 (omega arith) (
        Bounded-bind (length c1.input) _ (new_table c1) _ (new_table-Bounded c1) (λ t c2 q.
          set-bind lim dec good _ t (string (x ∷ s)) v _ c2 (λ c3 r.
            Bounded-bind (length c3.input) _ (dict_loop fuel dec t c3) _
              (dict_loop-Bounded lim dec good fuel t c3 (omega arith) (omega arith))
              (λ _ c4 u.
                Bounded-mono _ _ (fill_array dec b t len c4) (omega arith)
                  (fill_array-Bounded b t len c4 (omega arith)))))))

  deserialize_array-Bounded :
      (b : Bool) (c : Ctx)
      → length c.input < lim
      → Bounded (length c.input) (deserialize_array fuel dec b c)
  unfolding deserialize_array
  deserialize_array-Bounded b c lt =
      Bounded-bind (length c.input) _ (read_int c) _
        (Bounded-mono _ _ (read_int c) (omega arith) (read_int-Bounded c))
        (λ z c1 p.
          Bounded-bind (length c1.input) _ (decode_reference c1.obj_refs z c1) _
            (decode_reference-Bounded c1.obj_refs z c1)
            (λ ref c2 q.
              Bounded-found _ ref _ _ c2
                (λ v.
                  Bounded-bind (length c2.input) _ (map_collection b v c2) _
                    (map_collection-Bounded b v c2) (λ _ c3 r. omega arith))
                (Bounded-bind (length c2.input) _ (deserialize_string c2) _
                  (deserialize_string-Bounded c2)
                  (λ key c3 r. Bounded-if _ (is_nil key) _ _ c3 (omega arith) (
                    Bounded-bind (length c3.input) _ (string_bytes key c3) _
                      (string_bytes-Bounded key c3)
                      (λ s c4 u.
                        Bounded-mono _ _ (array_body fuel dec b (asr1 z) s c4) (omega arith)
                          (array_body-Bounded b (asr1 z) s c4 (omega arith))))))))

  -- The names and the members behind the sealed ones.
  members-Bounded {ℓ} :
      {B : Type ℓ} (store : List ℕ → List ℕ) (t n : ℕ) (key : Value) (k : M B) (c0 c : Ctx)
      → length c0.input < lim
      → (length c.input + 1 ≤ length c0.input)
        ⊎ ((key ≡ string []) × (length c.input ≤ length c0.input))
      → ((c1 : Ctx) → length c1.input ≤ length c.input → Bounded n (k c1))
      → Bounded n (bind_result (members_loop fuel dec store t key none c) (λ _. k))
  members-Bounded store t n key k c0 c lt took h =
      Bounded-bind (length c.input) _ (members_loop fuel dec store t key none c) _
        (members_loop-Bounded lim dec good fuel store t key none c (omega arith) (ready took))
        (λ _ c1 p. h c1 p)
    where
      ready :
          (length c.input + 1 ≤ length c0.input)
            ⊎ ((key ≡ string []) × (length c.input ≤ length c0.input))
          → Ready lim dec good fuel key c
      ready (inl p) = inr (omega arith)
      ready (inr (e, p)) = inl (e, omega arith)

  traits_body-Bounded :
      (old : Option Value) (names : List (List ℕ)) (c : Ctx)
      → length c.input < lim
      → Bounded (length c.input) (traits_body fuel dec old names c)
  unfolding traits_body
  traits_body-Bounded old names c lt =
      Bounded-bind (length c.input) _ (new_table c) _ (new_table-Bounded c) (λ t c1 p.
        Bounded-bind (length c1.input) _
          (sealed_loop (with_pointer dec) t (length names) names none c1) _
          (sealed_loop-Bounded lim (with_pointer dec) (with_pointer-Good lim dec good)
            (length names) t names none c1 (omega arith))
          (λ _ c2 q. Bounded-if _ (ltb 0 (length names)) _ _ c2 (omega arith) (
            read-bind (length c2.input) _ (deserialize_string c2) _ (deserialize_string-read c2)
              (λ key c3 took.
                Bounded-if _ (is_string key) _ _ c3
                  (members-Bounded c_string t _ key _ c2 c3 (omega arith) took (λ c4 r.
                    Bounded-bind (length c4.input) _ (idx_map_object (table t) c4) _
                      (idx_map_object-Bounded (table t) c4) (λ _ c5 u. omega arith)))
                  (omega arith)))))

  with_traits-Bounded :
      (old : Option Value) (o : Option Traits) (c : Ctx)
      → length c.input < lim
      → Bounded (length c.input) (with_traits fuel dec old o c)
  with_traits-Bounded old none c lt = tt
  with_traits-Bounded old (some trait) c lt = traits_body-Bounded old trait.names c lt

  traits_reference-Bounded :
      (old : Option Value) (z : ℤ) (c : Ctx)
      → length c.input < lim
      → Bounded (length c.input) (traits_reference fuel dec old z c)
  unfolding traits_reference
  traits_reference-Bounded old (negsuc n) c lt = tt
  traits_reference-Bounded old (pos i) c lt =
      with_traits-Bounded old (get_elem? c.traits_refs i) c lt

  object_body-Bounded :
      (header : ℤ) (c : Ctx)
      → length c.input < lim
      → Bounded (length c.input) (object_body fuel dec header c)
  unfolding object_body add_traits
  object_body-Bounded header c lt =
      let n = sealed_count header in
      Bounded-bind (length c.input) _ (new_table c) _ (new_table-Bounded c) (λ t c1 p.
        Bounded-bind (length c1.input) _ (names_loop n c1) _ (names_loop-Bounded n c1)
          (λ names c2 q.
            let trait : Traits = record { names = names; dynamic = bit_set 3 header } in
            let c2' : Ctx = record c2 { traits_refs = c2.traits_refs ++ (trait ∷ []) } in
            Bounded-bind (length c2.input) _ (sealed_loop dec t n names none c2') _
              (sealed_loop-Bounded lim dec good n t names none c2' (omega arith))
              (λ _ c3 r.
                read-bind (length c3.input) _ (deserialize_string c3) _ (deserialize_string-read c3)
                  (λ key c4 took. Bounded-if _ (is_nil key) _ _ c4 (omega arith) (
                    members-Bounded (λ s. s) t _ key _ c3 c4 (omega arith) took
                      (λ c5 u.
                        Bounded-bind (length c5.input) _ (idx_map_object (table t) c5) _
                          (idx_map_object-Bounded (table t) c5) (λ _ c6 w. omega arith)))))))

  decode_object-Bounded :
      (old : Option Value) (c : Ctx)
      → length c.input < lim
      → Bounded (length c.input) (decode_object fuel dec old c)
  unfolding decode_object
  decode_object-Bounded old c lt =
      Bounded-bind (length c.input) _ (read_int c) _
        (Bounded-mono _ _ (read_int c) (omega arith) (read_int-Bounded c))
        (λ z c1 p.
          Bounded-bind (length c1.input) _ (decode_reference c1.obj_refs z c1) _
            (decode_reference-Bounded c1.obj_refs z c1)
            (λ ref c2 q.
              Bounded-found _ ref _ _ c2 (λ v. omega arith)
                (Bounded-if _ (bit_set 1 z) _ _ c2
                  (Bounded-bind (length c2.input) _ (deserialize_string c2) _
                    (deserialize_string-Bounded c2)
                    (λ key c3 r. Bounded-if _ (is_nil key) _ _ c3 (omega arith) (
                      Bounded-mono _ _ (object_body fuel dec z c3) (omega arith)
                        (object_body-Bounded z c3 (omega arith)))))
                  (Bounded-mono _ _ (traits_reference fuel dec old (asr1 (asr1 z)) c2) (omega arith)
                    (traits_reference-Bounded old (asr1 (asr1 z)) c2 (omega arith))))))

date_body-Bounded :
    (be : Bool) (o : Option Value) (c : Ctx) → Bounded (length c.input) (date_body be o c)
unfolding date_body
date_body-Bounded be none c = omega arith
date_body-Bounded be (some v) c =
    Bounded-if _ (is_nil v) _ _ c
      (Bounded-bind (length c.input) _ (decode_double be c) _ (decode_double-Bounded be c)
        (λ d c1 p.
          Bounded-bind (length c1.input) _ (idx_map_object (date d) c1) _
            (idx_map_object-Bounded (date d) c1) (λ _ c2 q. omega arith)))
      (omega arith)

deserialize_date-Bounded : (be : Bool) (c : Ctx) → Bounded (length c.input) (deserialize_date be c)
unfolding deserialize_date
deserialize_date-Bounded be c =
    Bounded-bind (length c.input) _ (read_int c) _
      (Bounded-mono _ _ (read_int c) (omega arith) (read_int-Bounded c))
      (λ z c1 p.
        Bounded-bind (length c1.input) _ (decode_reference c1.obj_refs z c1) _
          (decode_reference-Bounded c1.obj_refs z c1)
          (λ ref c2 q.
            Bounded-mono _ _ (date_body be ref c2) (omega arith) (date_body-Bounded be ref c2)))

written-Bounded :
    (m : M Value) (c : Ctx)
    → Bounded (length c.input) (m c)
    → Bounded (length c.input) (written m c)
written-Bounded m c b = Bounded-bind (length c.input) _ (m c) _ b (λ v c1 p. p)

read_number-Bounded : (c : Ctx) → Bounded (length c.input) ((do i ← read_int; return (number i)) c)
read_number-Bounded c =
    Bounded-bind (length c.input) _ (read_int c) _
      (Bounded-mono _ _ (read_int c) (omega arith) (read_int-Bounded c)) (λ i c1 p. p)

read_float-Bounded :
    (be : Bool) (c : Ctx) → Bounded (length c.input) ((do d ← decode_double be; return (float d)) c)
read_float-Bounded be c =
    Bounded-bind (length c.input) _ (decode_double be c) _ (decode_double-Bounded be c)
      (λ i c1 p. p)

module _ (be : Bool) where
  dispatch-Bounded :
      (lim fuel : ℕ) (dec : DecodePart) (good : Good lim dec) (room : lim ≤ fuel)
      (old : Option Value) (byte : ℕ) (c : Ctx)
      → length c.input < lim
      → Bounded (length c.input) (dispatch be fuel dec old byte c)
  unfolding dispatch
  dispatch-Bounded lim fuel dec good room old byte c lt =
      Bounded-if _ (byte == undefined_type) _ _ c (omega arith) (
        Bounded-if _ (byte == null_type) _ _ c (omega arith) (
          Bounded-if _ (byte == false_type) _ _ c (omega arith) (
            Bounded-if _ (byte == true_type) _ _ c (omega arith) (
              Bounded-if _ (byte == int_type) _ _ c
                (written-Bounded (do i ← read_int; return (number i)) c (read_number-Bounded c))
                (Bounded-if _ (byte == double_type) _ _ c
                  (written-Bounded (do d ← decode_double be; return (float d)) c
                    (read_float-Bounded be c))
                  (Bounded-if _ (byte == string_type) _ _ c
                    (written-Bounded deserialize_string c (deserialize_string-Bounded c))
                    (Bounded-if _ (byte == date_type) _ _ c
                      (written-Bounded (deserialize_date be) c (deserialize_date-Bounded be c))
                      (Bounded-if _ (byte == array_type) _ _ c
                        (deserialize_array-Bounded lim fuel dec good room false c lt)
                        (Bounded-if _ (byte == object_type) _ _ c
                          (decode_object-Bounded lim fuel dec good room old c lt) tt)))))))))

  decode_nothing :
      (fuel : ℕ) (old : Option Value) (c : Ctx)
      → c.input ≡ []
      → Bounded (length c.input) (decode_amf3 be (suc fuel) old c)
  unfolding decode_amf3 dispatch read_byte
  decode_nothing fuel old c e = rw e (omega arith)

  -- `decode_amf3` with more fuel than bytes ends, and leaves no more bytes than it found.
  pub decode_amf3-Bounded : (fuel : ℕ) → Good fuel (decode_amf3 be fuel)
  unfolding decode_amf3
  decode_amf3-Bounded zero old c lt = absurd (omega arith)
  decode_amf3-Bounded (suc fuel) old c lt = split (decode_amf3-Bounded fuel) c.input refl
    where
      after :
          Good fuel (decode_amf3 be fuel)
          → (k : ℕ) → length c.input ≡ suc k
          → Bounded (length c.input) (decode_amf3 be (suc fuel) old c)
      after ih k e =
          Bounded-bind (length c.input - 1) _ (read_byte c) _ (read_byte-Bounded c) (λ byte c1 p.
            Bounded-mono _ _ (dispatch be fuel (decode_amf3 be fuel) old byte c1) (omega arith) (
              dispatch-Bounded fuel fuel (decode_amf3 be fuel) ih (omega arith) old byte c1
                (omega arith)))

      split :
          Good fuel (decode_amf3 be fuel)
          → (xs : List ℕ) → c.input ≡ xs
          → Bounded (length c.input) (decode_amf3 be (suc fuel) old c)
      split ih [] e = decode_nothing fuel old c e
      split ih (x ∷ xs) e = after ih (length xs) (rw e)
