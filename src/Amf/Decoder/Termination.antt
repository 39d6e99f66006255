-- ===== src/Amf/Decoder/Termination.antt =====
-- The fuel of the decoder: with more fuel than bytes it never runs out, and it never
-- leaves more bytes than it was given.
use smart_rabbit_server.Base.{
  ℕ, ◌-◌, ◌≤◌, ◌≡◌, ◌≢◌, refl, Bool, true, false, Option, none, some, List, [], ◌∷◌, length,
  length-drop, arith, if◌then◌else◌,
}
use smart_rabbit_server.Base.Int.{ℤ, pos, negsuc}
use smart_rabbit_server.Amf.Value.{Value, is_nil, asr1, int_eq, Result, ok, err, fault, stuck}
use smart_rabbit_server.Amf.Ints.{decode_int, read_char}
use smart_rabbit_server.Amf.Ints.RoundTrip.{decode_int_takes, decode_int-ne-stuck}
use smart_rabbit_server.Amf.Decoder.{
  Ctx, M, bind_result, with_input, read_int, read_byte, idx_map_object, idx_map_string,
  idx_ret_index, decode_reference, if_found, decode_string, deserialize_string_body, decode_double,
  new_table, set_entry, string_bytes, local_value,
}

-- The call has not run out of fuel, and leaves at most `n` bytes.
abbrev pub Bounded {ℓ} : {A : Type ℓ} → ℕ → Result (A × Ctx) → Type 0
Bounded n (ok (a, c)) = length c.input ≤ n
Bounded n err = Unit
Bounded n fault = Unit
Bounded n stuck = ⊥

pub Bounded-bind {ℓ κ} :
    {A : Type ℓ} {B : Type κ} (k n : ℕ) (r : Result (A × Ctx)) (f : A → M B)
    → Bounded k r
    → ((a : A) (c : Ctx) → length c.input ≤ k → Bounded n (f a c))
    → Bounded n (bind_result r f)
Bounded-bind k n (ok (a, c)) f b h = h a c b
Bounded-bind k n err f b h = tt
Bounded-bind k n fault f b h = tt
Bounded-bind k n stuck f b h = elim b [ ]

pub Bounded-mono {ℓ} :
    {A : Type ℓ} (k n : ℕ) (r : Result (A × Ctx)) → k ≤ n → Bounded k r → Bounded n r
Bounded-mono k n (ok (a, c)) p b = omega arith
Bounded-mono k n err p b = tt
Bounded-mono k n fault p b = tt
Bounded-mono k n stuck p b = b

with_input-Bounded {ℓ} :
    {A : Type ℓ} (n : ℕ) (c : Ctx) (r : Result (A × List ℕ))
    → r ≢ stuck
    → ((a : A) (rest : List ℕ) → r ≡ ok (a, rest) → length rest ≤ n)
    → Bounded n (with_input c r)
with_input-Bounded n c (ok (a, rest)) ns h = h a rest refl
with_input-Bounded n c err ns h = tt
with_input-Bounded n c fault ns h = tt
with_input-Bounded n c stuck ns h = ns refl

pub read_int-Bounded : (c : Ctx) → Bounded (length c.input - 1) (read_int c)
unfolding read_int
read_int-Bounded c =
    with_input-Bounded _ c (decode_int c.input) (decode_int-ne-stuck c.input)
      (λ z rest e. omega (arith, decode_int_takes c.input z rest e))

read_char-length : (xs : List ℕ) → length (read_char xs).2 ≤ length xs - 1
read_char-length [] = omega arith
read_char-length (x ∷ xs) = omega arith

pub read_byte-Bounded : (c : Ctx) → Bounded (length c.input - 1) (read_byte c)
unfolding read_byte
read_byte-Bounded c = read_char-length c.input

pub idx_map_object-Bounded : (v : Value) (c : Ctx) → Bounded (length c.input) (idx_map_object v c)
unfolding idx_map_object
idx_map_object-Bounded v c = omega arith

pub decode_reference-Bounded :
    (refs : List Value) (z : ℤ) (c : Ctx) → Bounded (length c.input) (decode_reference refs z c)
unfolding decode_reference idx_ret_index
decode_reference-Bounded refs z c = ground arith

pub decode_string-Bounded : (z : ℤ) (c : Ctx) → Bounded (length c.input) (decode_string z c)
unfolding decode_string
decode_string-Bounded (pos n) c = ground (arith, length-drop n c.input)
decode_string-Bounded (negsuc n) c = tt

pub decode_double-Bounded : (be : Bool) (c : Ctx) → Bounded (length c.input) (decode_double be c)
unfolding decode_double
decode_double-Bounded be c = ground arith

pub new_table-Bounded : (c : Ctx) → Bounded (length c.input) (new_table c)
unfolding new_table
new_table-Bounded c = omega arith

pub set_entry-Bounded :
    (a : ℕ) (k v : Value) (c : Ctx) → Bounded (length c.input) (set_entry a k v c)
unfolding set_entry
set_entry-Bounded a k v c = ground arith

pub string_bytes-Bounded : (v : Value) (c : Ctx) → Bounded (length c.input) (string_bytes v c)
unfolding string_bytes
string_bytes-Bounded v c = ground arith

pub local_value-Bounded : (v : Option Value) (c : Ctx) → Bounded (length c.input) (local_value v c)
unfolding local_value
local_value-Bounded v c = ground arith

pub Bounded-if {ℓ} :
    {A : Type ℓ} (n : ℕ) (b : Bool) (x y : M A) (c : Ctx)
    → Bounded n (x c)
    → Bounded n (y c)
    → Bounded n ((if b then x else y) c)
Bounded-if n true x y c p q = p
Bounded-if n false x y c p q = q

pub Bounded-found {ℓ} :
    {A : Type ℓ} (n : ℕ) (o : Option Value) (f : Value → M A) (y : M A) (c : Ctx)
    → ((v : Value) → Bounded n (f v c))
    → Bounded n (y c)
    → Bounded n (if_found o f y c)
Bounded-found n none f y c p q = q
Bounded-found n (some v) f y c p q = Bounded-if n (is_nil v) y (f v) c q (p v)

pub string_body-Bounded : (z : ℤ) (c : Ctx) → Bounded (length c.input) (deserialize_string_body z c)
unfolding deserialize_string_body idx_map_string
string_body-Bounded z c = Bounded-if _ (int_eq z (pos 1)) _ _ c (omega arith) (
    Bounded-bind (length c.input) _ (decode_reference c.string_refs z c) _
      (decode_reference-Bounded c.string_refs z c)
      λ ref c1 h.
        Bounded-found _ ref _ _ c1 (λ v. h)
          (Bounded-bind (length c1.input) _ (decode_string (asr1 z) c1) _
            (decode_string-Bounded (asr1 z) c1) λ s c2 h2. omega arith))
