-- ===== src/Amf/Decoder/Sealed.antt =====
-- What `decode_traits_reference_object` of rbtlib/decoder.c does to an object that is sent by a
-- reference to traits with a sealed member.
use smart_rabbit_server.Base.{
  ℕ, suc, ◌≡◌, ◌∙◌, refl, Bool, false, Option, none, some, List, [], ◌∷◌, ◌++◌,
}
use smart_rabbit_server.Base.Int.{ℤ, pos}
use smart_rabbit_server.Amf.Value.{Value, number, string, table, Table, Heap, table_set, ok}
use smart_rabbit_server.Amf.Ints.{encode_int, decode_int, int_loop, finish_int}
use smart_rabbit_server.Amf.Ints.RoundTrip.{Fits29}
use smart_rabbit_server.Amf.RoundTrip.Scalars.{read_int-encode_int, decode_string-append}
use smart_rabbit_server.Amf.Decoder.{
  Traits, Ctx, read_int, read_byte, decode_reference, deserialize_string, deserialize_string_body,
  idx_map_string, idx_map_object, new_table, set_entry, string_bytes, local_value, c_string,
}
use smart_rabbit_server.Amf.Decoder.Collections.{
  DecodePart, array_loop, fill_array, array_body, deserialize_array, members_loop, sealed_loop,
  traits_body, traits_reference, names_loop, sealed_count, add_traits, object_body, decode_object,
}
use smart_rabbit_server.Amf.Decoder.Decode.{dispatch, decode_amf3, amf_decode}

-- An integer with its marker.
abbrev pub int_bytes : ℤ → List ℕ → List ℕ
int_bytes z rest = 0x04 ∷ ((encode_int z).0 ++ rest)

int-decode :
    (be : Bool) (fuel : ℕ) (old : Option Value) (z : ℤ) (rest : List ℕ) (c : Ctx)
    → Fits29 z
    → c.input ≡ int_bytes z rest
    → decode_amf3 be (suc fuel) old c ≡ ok (some (number z), record c { input = rest })
unfolding decode_amf3 dispatch read_byte
int-decode be fuel old z rest c h e =
    rw (e, read_int-encode_int z rest (record c { input = (encode_int z).0 ++ rest }) h refl)

-- An object with its traits in line: one sealed member, x.
abbrev pub first_object : ℤ → List ℕ → List ℕ
first_object z rest = 0x0a ∷ 0x13 ∷ 0x01 ∷ 0x03 ∷ b'x' ∷ int_bytes z (0x01 ∷ rest)

-- An object by a reference to the first traits.
abbrev pub second_object : ℤ → List ℕ → List ℕ
second_object z rest = 0x0a ∷ 0x01 ∷ int_bytes z rest

abbrev pub x_traits : Traits
x_traits = record { names = (b'x' ∷ []) ∷ []; dynamic = false }

abbrev pub holds_x : ℤ → List (Value × Value)
holds_x z = (string (b'x' ∷ []), number z) ∷ []

abbrev pub start : List ℕ → Heap → Ctx
start input heap = record {
  input = input;
  obj_refs = table 0 ∷ [];
  string_refs = [];
  traits_refs = [];
  heap = heap;
}

abbrev pub after_first : List ℕ → ℤ → Ctx
after_first input z = record {
  input = input;
  obj_refs = table 0 ∷ table 1 ∷ [];
  string_refs = string (b'x' ∷ []) ∷ [];
  traits_refs = x_traits ∷ [];
  heap = [] ∷ holds_x z ∷ [];
}

dispatch-object :
    (be : Bool) (fuel : ℕ) (old : Option Value) (xs : List ℕ) (c : Ctx)
    → c.input ≡ 0x0a ∷ xs
    → decode_amf3 be (suc fuel) old c
      ≡ decode_object fuel (decode_amf3 be fuel) old (record c { input = xs })
unfolding decode_amf3 dispatch read_byte
dispatch-object be fuel old xs c e = rw e refl

-- The object with its traits in line, on whatever decodes its member.
first-object :
    (fuel : ℕ) (dec : DecodePart) (z : ℤ) (rest xs : List ℕ)
    → dec none (record {
      input = xs;
      obj_refs = table 0 ∷ [];
      string_refs = string (b'x' ∷ []) ∷ [];
      traits_refs = x_traits ∷ [];
      heap = [] ∷ [] ∷ [];
    })
      ≡ ok (
        some (number z),
        record {
          input = 0x01 ∷ rest;
          obj_refs = table 0 ∷ [];
          string_refs = string (b'x' ∷ []) ∷ [];
          traits_refs = x_traits ∷ [];
          heap = [] ∷ [] ∷ [];
        },
      )
    → decode_object (suc fuel) dec none (start (0x13 ∷ 0x01 ∷ 0x03 ∷ b'x' ∷ xs) ([] ∷ []))
      ≡ ok (some (table 1), after_first rest z)
unfolding decode_object object_body names_loop sealed_count add_traits sealed_loop members_loop
    new_table set_entry table_set string_bytes local_value deserialize_string
    deserialize_string_body decode_reference idx_map_string idx_map_object read_int decode_int
    int_loop finish_int c_string
first-object fuel dec z rest xs e =
    let c : Ctx = start (b'x' ∷ xs) ([] ∷ [] ∷ []) in
    rw (decode_string-append (b'x' ∷ []) xs c refl, e) refl

first-decode :
    (be : Bool) (fuel : ℕ) (z : ℤ) (rest : List ℕ)
    → Fits29 z
    → decode_amf3 be (suc (suc fuel)) none (start (first_object z rest) ([] ∷ []))
      ≡ ok (some (table 1), after_first rest z)
first-decode be fuel z rest h =
    dispatch-object be (suc fuel) none (0x13 ∷ 0x01 ∷ 0x03 ∷ b'x' ∷ int_bytes z (0x01 ∷ rest)) _
      refl
    ∙ first-object fuel (decode_amf3 be (suc fuel)) z rest (int_bytes z (0x01 ∷ rest))
        (int-decode be fuel none z (0x01 ∷ rest) _ h refl)

-- The object by reference: `old` is answered and its table is left to itself.
abbrev pub after_second : List ℕ → ℤ → ℤ → Table → Ctx
after_second input y z array = record {
  input = input;
  obj_refs = table 0 ∷ table 1 ∷ [];
  string_refs = string (b'x' ∷ []) ∷ [];
  traits_refs = x_traits ∷ [];
  heap = array ∷ holds_x y ∷ holds_x z ∷ [];
}

abbrev pub first_item : Table
first_item = (number (pos 0), table 1) ∷ []

second-object :
    (fuel : ℕ) (dec : DecodePart) (old : Option Value) (y z : ℤ) (rest xs : List ℕ)
    → dec none (record {
      input = xs;
      obj_refs = table 0 ∷ table 1 ∷ [];
      string_refs = string (b'x' ∷ []) ∷ [];
      traits_refs = x_traits ∷ [];
      heap = first_item ∷ holds_x y ∷ [] ∷ [];
    })
      ≡ ok (
        some (number z),
        record {
          input = rest;
          obj_refs = table 0 ∷ table 1 ∷ [];
          string_refs = string (b'x' ∷ []) ∷ [];
          traits_refs = x_traits ∷ [];
          heap = first_item ∷ holds_x y ∷ [] ∷ [];
        },
      )
    → decode_object
        (suc fuel)
        dec
        old
        (record (after_first (0x01 ∷ xs) y) { heap = first_item ∷ holds_x y ∷ [] })
      ≡ ok (old, after_second rest y z first_item)
unfolding decode_object traits_reference traits_body sealed_loop new_table set_entry table_set
    local_value decode_reference read_int decode_int int_loop finish_int c_string
second-object fuel dec old y z rest xs e = rw e refl

second-decode :
    (be : Bool) (fuel : ℕ) (old : Option Value) (y z : ℤ) (rest : List ℕ)
    → Fits29 z
    → decode_amf3 be
        (suc (suc fuel))
        old
        (record (after_first (second_object z rest) y) { heap = first_item ∷ holds_x y ∷ [] })
      ≡ ok (old, after_second rest y z first_item)
second-decode be fuel old y z rest h =
    dispatch-object be (suc fuel) old (0x01 ∷ int_bytes z rest) _ refl
    ∙ second-object fuel (decode_amf3 be (suc fuel)) old y z rest (int_bytes z rest)
        (int-decode be fuel none z rest _ h refl)

both-array :
    (fuel : ℕ) (dec : DecodePart) (y z : ℤ) (rest xs ys : List ℕ)
    → dec none (start xs ([] ∷ [])) ≡ ok (some (table 1), after_first ys y)
    → dec (some (table 1)) (record (after_first ys y) { heap = first_item ∷ holds_x y ∷ [] })
      ≡ ok (some (table 1), after_second rest y z first_item)
    → deserialize_array fuel dec false (record {
      input = 0x05 ∷ 0x01 ∷ xs;
      obj_refs = [];
      string_refs = [];
      traits_refs = [];
      heap = [];
    })
      ≡ ok (
        some (table 0),
        after_second rest y z ((number (pos 0), table 1) ∷ (number (pos 1), table 1) ∷ []),
      )
unfolding deserialize_array array_body fill_array array_loop new_table set_entry table_set
    string_bytes local_value deserialize_string deserialize_string_body decode_reference
    idx_map_object read_int decode_int int_loop finish_int
both-array fuel dec y z rest xs ys e f = rw (e, f) refl

dispatch-array :
    (be : Bool) (fuel : ℕ) (old : Option Value) (xs : List ℕ) (c : Ctx)
    → c.input ≡ 0x09 ∷ xs
    → decode_amf3 be (suc fuel) old c
      ≡ deserialize_array fuel (decode_amf3 be fuel) false (record c { input = xs })
unfolding decode_amf3 dispatch read_byte
dispatch-array be fuel old xs c e = rw e refl

-- With fuel of three or more and no tables yet, on the bytes of an array of two objects, each with
-- one integer x of 29 bits, the first with its traits in line and the second with a reference to
-- those traits, followed by any others: the decoder succeeds and leaves those others, but both items
-- of the array that it returns are the first object. The second was decoded to a table of its own, at
-- address 2, to which nothing points.
pub second_object-lost :
    (be : Bool) (fuel : ℕ) (old : Option Value) (y z : ℤ) (rest : List ℕ)
    → Fits29 y
    → Fits29 z
    → amf_decode be
        (suc (suc (suc fuel)))
        []
        old
        (0x09 ∷ 0x05 ∷ 0x01 ∷ first_object y (second_object z rest))
      ≡ ok (
        some (table 0),
        after_second rest y z ((number (pos 0), table 1) ∷ (number (pos 1), table 1) ∷ []),
      )
unfolding amf_decode
second_object-lost be fuel old y z rest hy hz =
    dispatch-array be (suc (suc fuel)) old (0x05 ∷ 0x01 ∷ first_object y (second_object z rest)) _
      refl
    ∙ both-array (suc (suc fuel)) (decode_amf3 be (suc (suc fuel))) y z rest
        (first_object y (second_object z rest)) (second_object z rest)
        (first-decode be fuel y (second_object z rest) hy)
        (second-decode be fuel (some (table 1)) y z rest hz)
