-- ===== src/Amf/RoundTrip/Scalars.antt =====
-- The decoder's reading of integers, doubles and strings, in its context.
use smart_rabbit_server.Base.{
  ℕ, suc, ◌+◌, ◌*◌, ◌/◌, ◌^◌, ◌≤◌, ◌<◌, ◌≡◌, ◌∙◌, refl, sym, ap, Bool, true, false, none, List, [],
  ◌∷◌, ◌++◌, length, take, drop, length-append, arith, append_assoc,
}
use smart_rabbit_server.Base.Int.{ℤ, pos}
use smart_rabbit_server.Amf.Value.{Double, bytes8, Value, string, asr1, int_eq, Result, ok}
use smart_rabbit_server.Amf.Ints.{encode_int}
use smart_rabbit_server.Amf.Ints.RoundTrip.{Fits29, decode_int-encode_int, encode_int_size}
use smart_rabbit_server.Amf.Encoder.{encode_double}
use smart_rabbit_server.Amf.Encoder.Forms.{header-wire_string}
use smart_rabbit_server.Amf.Tree.{wire_string}
use smart_rabbit_server.Amf.Decoder.{
  Ctx, read_int, decode_reference, decode_string, idx_map_string, eof, deserialize_string,
  deserialize_string_body, decode_double,
}

-- The call returns `a`, leaves the bytes `rest`, and makes no table.
abbrev pub Reads {ℓ} : {A : Type ℓ} → Result (A × Ctx) → A → List ℕ → Ctx → Type ℓ
Reads r a rest c = (c' : Ctx) × (r ≡ ok (a, c')) × (c'.input ≡ rest) × (c'.heap ≡ c.heap)

pub read_int-encode_int :
    (z : ℤ) (rest : List ℕ) (c : Ctx)
    → Fits29 z
    → c.input ≡ (encode_int z).0 ++ rest
    → read_int c ≡ ok (z, record c { input = rest })
unfolding read_int
read_int-encode_int z rest c h e = rw (e, decode_int-encode_int z rest h)

pub decode_double-encode_double :
    (be : Bool) (d : Double) (rest : List ℕ) (c : Ctx)
    → c.input ≡ (encode_double be d).0 ++ rest
    → Reads (decode_double be c) d rest c
unfolding decode_double encode_double
decode_double-encode_double true (bytes8 a b d e f g h i) rest c p =
    (record c { input = rest }, rw p, refl, refl)
decode_double-encode_double false (bytes8 a b d e f g h i) rest c p =
    (record c { input = rest }, rw p, refl, refl)

take-append : (s rest : List ℕ) → take (length s) (s ++ rest) ≡ s
take-append [] rest = refl
take-append (x ∷ s) rest = ap (λ t. x ∷ t) (take-append s rest)

drop-append : (s rest : List ℕ) → drop (length s) (s ++ rest) ≡ rest
drop-append [] rest = refl
drop-append (x ∷ s) rest = drop-append s rest

pub decode_string-append :
    (s rest : List ℕ) (c : Ctx)
    → c.input ≡ s ++ rest
    → decode_string (pos (length s)) c ≡ ok (s, record c { input = rest })
unfolding decode_string
decode_string-append s rest c e =
    rw (e, take-append, drop-append) (ground (arith, length-append s rest))

-- A header with the low bit set is no reference.
pub odd_reference :
    (refs : List Value) (k : ℕ) (c : Ctx) → decode_reference refs (pos (k * 2 + 1)) c ≡ ok (none, c)
unfolding decode_reference
odd_reference refs k c = ground arith

read_half :
    (s rest : List ℕ) (c : Ctx)
    → c.input ≡ s ++ rest
    → decode_string (asr1 (pos (length s * 2 + 1))) c ≡ ok (s, record c { input = rest })
read_half s rest c e =
    let half : (length s * 2 + 1) / 2 ≡ length s = omega arith in
    rw half (decode_string-append s rest c e)

not_one : (n : ℕ) → int_eq (pos (suc n * 2 + 1)) (pos 1) ≡ false
not_one n = ground arith

string_body :
    (s rest : List ℕ) (c : Ctx)
    → c.input ≡ s ++ rest
    → Reads (deserialize_string_body (pos (length s * 2 + 1)) c) (string s) rest c
unfolding deserialize_string_body idx_map_string
string_body [] rest c e = (c, refl, e, refl)
string_body (x ∷ s) rest c e = (
  record c { input = rest; string_refs = c.string_refs ++ (string (x ∷ s) ∷ []) },
  rw (
    not_one (length s),
    odd_reference c.string_refs (length (x ∷ s)) c,
    read_half (x ∷ s) rest c e,
  ),
  refl,
  refl,
)

pub eof-cons : (xs rest : List ℕ) → 1 ≤ length xs → eof (xs ++ rest) ≡ false
eof-cons [] rest h = absurd (omega arith)
eof-cons (x ∷ xs) rest h = refl

-- A string goes out and comes back, also one that the decoder must remember for references.
pub deserialize-wire_string :
    (s rest : List ℕ) (c : Ctx)
    → length s < 2 ^ 27
    → c.input ≡ wire_string s ++ rest
    → Reads (deserialize_string c) (string s) rest c
unfolding deserialize_string
deserialize-wire_string s rest c h e =
    let z = pos (length s * 2 + 1) in
    let xs = (encode_int z).0 in
    let e' : c.input ≡ xs ++ (s ++ rest) =
      e ∙ ap (λ x. x ++ rest) (sym (header-wire_string s h)) ∙ append_assoc xs s rest in
    let ends : eof c.input ≡ false =
      rw e' (eof-cons xs (s ++ rest) (omega (arith, encode_int_size z))) in
    rw (ends, read_int-encode_int z (s ++ rest) c (omega arith) e')
      (string_body s rest (record c { input = s ++ rest }) refl)
