-- ===== src/Amf/Decoder/Loops.antt =====
-- The loops of the decoder end: each round takes a byte at least, or is counted.
use smart_rabbit_server.Base.{
  ◌≢◌, ℕ, zero, suc, ◌+◌, ◌-◌, ◌≤◌, ◌<◌, ◌≡◌, ◌⊎◌, inl, inr, refl, Option, some, List, [], ◌∷◌,
  length, arith, ◌==◌, if◌then◌else◌,
}
use smart_rabbit_server.Base.Int.{pos}
use smart_rabbit_server.Amf.Value.{
  Value, nil, number, string, is_nil, is_string, Result, ok, err, fault, stuck,
}
use smart_rabbit_server.Amf.Decoder.{
  Ctx, M, ◌>>=◌, bind_result, read_int, eof, deserialize_string, deserialize_string_body, set_entry,
  string_bytes, local_value, c_string,
}
use smart_rabbit_server.Amf.Decoder.Collections.{
  DecodePart, dict_loop, array_loop, members_loop, sealed_loop,
}
use smart_rabbit_server.Amf.Decoder.Termination.{
  Bounded, Bounded-bind, Bounded-mono, Bounded-if, read_int-Bounded, set_entry-Bounded,
  local_value-Bounded, string_body-Bounded,
}

-- A string was read: a byte was taken, or it is the empty string at the end of the input.
abbrev pub StringRead : ℕ → Result (Value × Ctx) → Type 0
StringRead n (ok (v, c)) = (length c.input + 1 ≤ n) ⊎ ((v ≡ string []) × (length c.input ≤ n))
StringRead n err = Unit
StringRead n fault = Unit
StringRead n stuck = ⊥

took_byte : (n : ℕ) (r : Result (Value × Ctx)) → 1 ≤ n → Bounded (n - 1) r → StringRead n r
took_byte n (ok (v, c)) p b = inl (omega arith)
took_byte n err p b = tt
took_byte n fault p b = tt
took_byte n stuck p b = b

string-read_at :
    (xs : List ℕ) (c : Ctx)
    → c.input ≡ xs
    → StringRead (length c.input) (
        (if eof xs
            then deserialize_string_body (pos 1)
            else (do header ← read_int; deserialize_string_body header))
          c)
unfolding deserialize_string_body
string-read_at [] c e = inr (refl, omega arith)
string-read_at (x ∷ xs) c e = took_byte _ _ (rw e (omega arith)) (
    Bounded-bind (length c.input - 1) _ (read_int c) deserialize_string_body (read_int-Bounded c)
      (λ z c1 h. Bounded-mono _ _ (deserialize_string_body z c1) h (string_body-Bounded z c1)))

pub deserialize_string-read : (c : Ctx) → StringRead (length c.input) (deserialize_string c)
unfolding deserialize_string
deserialize_string-read c = string-read_at c.input c refl

pub deserialize_string-Bounded : (c : Ctx) → Bounded (length c.input) (deserialize_string c)
deserialize_string-Bounded c = go (deserialize_string c) (deserialize_string-read c)
  where
    go : (r : Result (Value × Ctx)) → StringRead (length c.input) r → Bounded (length c.input) r
    go (ok (v, c1)) (inl p) = omega arith
    go (ok (v, c1)) (inr (e, p)) = p
    go err p = tt
    go fault p = tt
    go stuck p = p

-- A name that is not empty took a byte, or is covered by what else is known of it.
not_empty :
    {P Q : Type 0} (key : Value) (s : List ℕ)
    → P ⊎ ((key ≡ string []) × Q)
    → key ≡ string s
    → s ≢ []
    → P
not_empty key s (inl p) e ne = p
not_empty key s (inr (q, r)) e ne = absurd (ne (cc))

-- A step behind a string, with what is known of the string.
pub read-bind {ℓ} :
    {B : Type ℓ} (k n : ℕ) (r : Result (Value × Ctx)) (f : Value → M B)
    → StringRead k r
    → ((v : Value) (c : Ctx)
        → (length c.input + 1 ≤ k) ⊎ ((v ≡ string []) × (length c.input ≤ k))
        → Bounded n (f v c))
    → Bounded n (bind_result r f)
read-bind k n (ok (v, c)) f b h = h v c b
read-bind k n err f b h = tt
read-bind k n fault f b h = tt
read-bind k n stuck f b h = elim b [ ]

-- A part of the decoder that does not run out on fewer than `lim` bytes.
abbrev pub Good : ℕ → DecodePart → Type 0
Good lim dec =
    (old : Option Value) (c : Ctx) → length c.input < lim → Bounded (length c.input) (dec old c)

module _ (lim : ℕ) (dec : DecodePart) (good : Good lim dec) where
  -- `dec` and then a use of its result.
  pub value-bind {ℓ} :
      {B : Type ℓ} (n : ℕ) (old : Option Value) (f : Option Value → Value → M B) (c : Ctx)
      → length c.input < lim
      → ((o : Option Value) (v : Value) (c1 : Ctx)
          → length c1.input ≤ length c.input
          → Bounded n (f o v c1))
      → Bounded n (bind_result (dec old c) (λ o. local_value o >>= f o))
  value-bind n old f c lt h =
      Bounded-bind (length c.input) n (dec old c) (λ o. local_value o >>= f o) (good old c lt)
        (λ o c1 p.
          Bounded-bind (length c1.input) n (local_value o c1) (f o) (local_value-Bounded o c1)
            (λ v c2 q. h o v c2 (omega arith)))

  pub set-bind {ℓ} :
      {B : Type ℓ} (n a : ℕ) (k v : Value) (m : M B) (c : Ctx)
      → ((c1 : Ctx) → length c1.input ≤ length c.input → Bounded n (m c1))
      → Bounded n (bind_result (set_entry a k v c) (λ _. m))
  set-bind n a k v m c h =
      Bounded-bind (length c.input) n (set_entry a k v c) (λ _. m) (set_entry-Bounded a k v c)
        (λ _ c1 p. h c1 p)

  pub array_loop-Bounded :
      (n t i : ℕ) (val : Option Value) (c : Ctx)
      → length c.input < lim
      → Bounded (length c.input) (array_loop dec t n i val c)
  unfolding array_loop
  array_loop-Bounded zero t i val c lt = omega arith
  array_loop-Bounded (suc n) t i val c lt = value-bind _ val _ c lt (λ o v c1 p.
      Bounded-if _ (is_nil v) _ _ c1 p (
        set-bind _ t (number (pos i)) v _ c1 (λ c2 q.
          Bounded-mono _ _ (array_loop dec t n (i + 1) o c2) (omega arith)
            (array_loop-Bounded n t (i + 1) o c2 (omega arith)))))

  pub sealed_loop-Bounded :
      (n t : ℕ) (names : List (List ℕ)) (val : Option Value) (c : Ctx)
      → length c.input < lim
      → Bounded (length c.input) (sealed_loop dec t n names val c)
  unfolding sealed_loop
  sealed_loop-Bounded zero t names val c lt = omega arith
  sealed_loop-Bounded (suc n) t [] val c lt =
      Bounded-bind _ _ (dec val c) _ (good val c lt) (λ o c1 p. tt)
  sealed_loop-Bounded (suc n) t (s ∷ names) val c lt = value-bind _ val _ c lt (λ o v c1 p.
      set-bind _ t (string (c_string s)) v _ c1 (λ c2 q.
        Bounded-mono _ _ (sealed_loop dec t n names o c2) (omega arith)
          (sealed_loop-Bounded n t names o c2 (omega arith))))

  -- What is behind a name: nothing if it is empty, and otherwise a call that may use fewer bytes.
  named :
      (n : ℕ) (v : Value) (m : List ℕ → M (Unit {0})) (c : Ctx)
      → length c.input ≤ n
      → (v ≡ string [] → Bounded n (m [] c))
      → ((s : List ℕ) → v ≡ string s → s ≢ [] → Bounded n (m s c))
      → Bounded n (bind_result (string_bytes v c) m)
  unfolding string_bytes
  named n (string []) m c p e f = e refl
  named n (string (x ∷ s)) m c p e f = f (x ∷ s) refl (λ q. cc)
  named n nil m c p e f = tt
  named n _ m c p e f = tt

  pub dict_loop-Bounded :
      (fuel t : ℕ) (c : Ctx)
      → length c.input < lim
      → length c.input < fuel
      → Bounded (length c.input) (dict_loop fuel dec t c)
  unfolding dict_loop
  dict_loop-Bounded zero t c lt f = absurd (omega arith)
  dict_loop-Bounded (suc fuel) t c lt f =
      read-bind (length c.input) _ (deserialize_string c) _ (deserialize_string-read c)
        (λ key c1 took. Bounded-if _ (is_nil key) _ _ c1 tt (
          named _ key _ c1 (omega arith) (λ e. omega arith)
            (λ s e ne. Bounded-if _ (length s == 0) _ _ c1 (omega arith) (
              value-bind _ (some nil) _ c1 (omega arith) (λ o v c2 p.
                Bounded-if _ (is_nil v) _ _ c2 (omega arith) (
                  set-bind _ t key v _ c2 (λ c3 q.
                    Bounded-mono _ _ (dict_loop fuel dec t c3) (omega arith) (
                      dict_loop-Bounded fuel t c3 (omega arith)
                        (omega (arith, not_empty key s took e ne))))))))))

  -- The fuel that the loop needs, by the name that was read.
  abbrev pub Ready : ℕ → Value → Ctx → Type 0
  Ready fuel key c = ((key ≡ string []) × (1 ≤ fuel)) ⊎ (length c.input + 2 ≤ fuel)

  Ready-step :
      (fuel : ℕ) (key' : Value) (c c2 c3 : Ctx)
      → length c.input + 2 ≤ suc fuel
      → length c2.input ≤ length c.input
      → (length c3.input + 1 ≤ length c2.input)
        ⊎ ((key' ≡ string []) × (length c3.input ≤ length c2.input))
      → Ready fuel key' c3
  Ready-step fuel key' c c2 c3 f p (inl q) = inr (omega arith)
  Ready-step fuel key' c c2 c3 f p (inr (e, q)) = inl (e, omega arith)

  needs :
      (fuel : ℕ) (key : Value) (s : List ℕ) (c : Ctx)
      → Ready fuel key c
      → key ≡ string s
      → s ≢ []
      → length c.input + 2 ≤ fuel
  needs fuel key s c (inr p) e ne = p
  needs fuel key s c (inl (q, r)) e ne = absurd (ne (cc))

  pub members_loop-Bounded :
      (fuel : ℕ) (store : List ℕ → List ℕ) (t : ℕ) (key : Value) (val : Option Value) (c : Ctx)
      → length c.input < lim
      → Ready fuel key c
      → Bounded (length c.input) (members_loop fuel dec store t key val c)
  unfolding members_loop
  members_loop-Bounded zero store t key val c lt f = absurd (omega arith)
  members_loop-Bounded (suc fuel) store t key val c lt f =
      named _ key _ c (omega arith) (λ e. omega arith)
        (λ s e ne. Bounded-if _ (length s == 0) _ _ c (omega arith) (
          value-bind _ val _ c lt (λ o v c1 p. set-bind _ t (string (store s)) v _ c1 (λ c2 q.
            read-bind (length c2.input) _ (deserialize_string c2) _ (deserialize_string-read c2)
              (λ key' c3 took.
                Bounded-if _ (is_string key') _ _ c3
                  (Bounded-mono _ _ (members_loop fuel dec store t key' o c3) (omega arith) (
                    members_loop-Bounded fuel store t key' o c3 (omega arith) (
                      Ready-step fuel key' c c2 c3 (needs (suc fuel) key s c f e ne) (omega arith)
                        took)))
                  (omega arith))))))
