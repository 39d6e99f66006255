-- ===== src/Base64/RoundTrip.antt =====
-- rbtlib/base64.c decodes the base64 form of every byte string.
use smart_rabbit_server.Base.{
  ℕ, ◌+◌, ◌-◌, ◌*◌, ◌/◌, ◌%◌, ◌<◌, ◌≤◌, ◌≡◌, refl, sym, ap, ◌∙◌, false, some, List, [], ◌∷◌, ◌++◌,
  ◌==◌, length, append_assoc, append-nil, ap₂, arith,
}
use smart_rabbit_server.Base64.{base64_pad, State, init_state, decode_loop, base64_decode}
use smart_rabbit_server.Base64.Letters.{letter, loop-letter, loop-pad, loop-nil, put-at}

-- The base64 form of a byte string, padded.
unfoldable pub encode : List ℕ → List ℕ
encode [] = []
encode (a ∷ []) = letter (a / 4) ∷ letter (a % 4 * 16) ∷ base64_pad ∷ base64_pad ∷ []
encode (a ∷ b ∷ []) =
    letter (a / 4) ∷ letter (a % 4 * 16 + b / 16) ∷ letter (b % 16 * 4) ∷ base64_pad ∷ []
encode (a ∷ b ∷ c ∷ bs) =
    letter (a / 4)
    ∷ letter (a % 4 * 16 + b / 16)
    ∷ letter (b % 16 * 4 + c / 64)
    ∷ letter (c % 64)
    ∷ encode bs

abbrev pub Bytes : List ℕ → Type 0
Bytes [] = Unit
Bytes (b ∷ bs) = (b < 256) × Bytes bs

-- The states after one to four letters, from the beginning of a group.
abbrev one : ℕ → List ℕ → ℕ → State
one i out v = record { i = i + 1; result = out; last = v * 4 % 256 }

abbrev two : ℕ → List ℕ → ℕ → ℕ → State
two i out v w = record {
  i = i + 2;
  result = out ++ ((v * 4 % 256 + w / 16) ∷ []);
  last = w % 16 * 16;
}

abbrev three : ℕ → List ℕ → ℕ → ℕ → ℕ → State
three i out v w x = record {
  i = i + 3;
  result = (out ++ ((v * 4 % 256 + w / 16) ∷ [])) ++ ((w % 16 * 16 + x / 4) ∷ []);
  last = x % 4 * 64;
}

loop-two :
    (v w n i last : ℕ) (out cs : List ℕ)
    → i % 4 ≡ 0
    → v < 64
    → w < 64
    → 2 ≤ n
    → decode_loop (letter v ∷ letter w ∷ cs) n (record { i = i; result = out; last = last })
      ≡ decode_loop cs (n - 2) (two i out v w)
loop-two v w n i last out cs h a b l =
    let s : State = record { i = i; result = out; last = last } in
    let p1 = put-at 0 v s h in
    let q : (i + 1) % 4 ≡ 1 = omega arith in
    let p2 = put-at 1 w (one i out v) q in
    let i2 : i + 1 + 1 ≡ i + 2 = omega arith in
    let n2 : n - 1 - 1 ≡ n - 2 = omega arith in
    loop-letter v n (letter w ∷ cs) s (omega arith) a
    ∙ ap (decode_loop (letter w ∷ cs) (n - 1)) p1
    ∙ loop-letter w (n - 1) cs (one i out v) (omega arith) b
    ∙ ap (decode_loop cs (n - 1 - 1)) p2
    ∙ ap (λ j. decode_loop cs (n - 1 - 1) (record (two i out v w) { i = j })) i2
    ∙ ap (λ m. decode_loop cs m (two i out v w)) n2

loop-three :
    (v w x n i last : ℕ) (out cs : List ℕ)
    → i % 4 ≡ 0
    → v < 64
    → w < 64
    → x < 64
    → 3 ≤ n
    → decode_loop
        (letter v ∷ letter w ∷ letter x ∷ cs)
        n
        (record { i = i; result = out; last = last })
      ≡ decode_loop cs (n - 3) (three i out v w x)
loop-three v w x n i last out cs h a b c l =
    let q : (i + 2) % 4 ≡ 2 = omega arith in
    let i3 : i + 2 + 1 ≡ i + 3 = omega arith in
    let n3 : n - 2 - 1 ≡ n - 3 = omega arith in
    loop-two v w n i last out (letter x ∷ cs) h a b (omega arith)
    ∙ loop-letter x (n - 2) cs (two i out v w) (omega arith) c
    ∙ ap (decode_loop cs (n - 2 - 1)) (put-at 2 x (two i out v w) q)
    ∙ ap (λ j. decode_loop cs (n - 2 - 1) (record (three i out v w x) { i = j })) i3
    ∙ ap (λ m. decode_loop cs m (three i out v w x)) n3

loop-four :
    (v w x y n i last : ℕ) (out cs : List ℕ)
    → i % 4 ≡ 0
    → v < 64
    → w < 64
    → x < 64
    → y < 64
    → 4 ≤ n
    → decode_loop
        (letter v ∷ letter w ∷ letter x ∷ letter y ∷ cs)
        n
        (record { i = i; result = out; last = last })
      ≡ decode_loop cs (n - 4) (record {
        i = i + 4;
        result = (three i out v w x).result ++ ((x % 4 * 64 + y) ∷ []);
        last = x % 4 * 64;
      })
loop-four v w x y n i last out cs h a b c d l =
    let q : (i + 3) % 4 ≡ 3 = omega arith in
    let i4 : i + 3 + 1 ≡ i + 4 = omega arith in
    let n4 : n - 3 - 1 ≡ n - 4 = omega arith in
    let t : ℕ → State = λ j. record {
      i = j;
      result = (three i out v w x).result ++ ((x % 4 * 64 + y) ∷ []);
      last = x % 4 * 64;
    } in
    loop-three v w x n i last out (letter y ∷ cs) h a b c (omega arith)
    ∙ loop-letter y (n - 3) cs (three i out v w x) (omega arith) d
    ∙ ap (decode_loop cs (n - 3 - 1)) (put-at 3 y (three i out v w x) q)
    ∙ ap (λ j. decode_loop cs (n - 3 - 1) (t j)) i4
    ∙ ap (λ m. decode_loop cs m (t (i + 4))) n4

-- The bytes that the letters make.
byte-one : (a b : ℕ) → a < 256 → b < 256 → a / 4 * 4 % 256 + (a % 4 * 16 + b / 16) / 16 ≡ a
byte-one a b h k = omega arith

byte-two :
    (a b c : ℕ)
    → b < 256
    → c < 256
    → (a % 4 * 16 + b / 16) % 16 * 16 + (b % 16 * 4 + c / 64) / 4 ≡ b
byte-two a b c h k = omega arith

byte-three : (b c : ℕ) → c < 256 → (b % 16 * 4 + c / 64) % 4 * 64 + c % 64 ≡ c
byte-three b c h = omega arith

byte-one_end : (a : ℕ) → a < 256 → a / 4 * 4 % 256 + a % 4 * 16 / 16 ≡ a
byte-one_end a h = omega arith

byte-two_end : (a b : ℕ) → b < 256 → (a % 4 * 16 + b / 16) % 16 * 16 + b % 16 * 4 / 4 ≡ b
byte-two_end a b h = omega arith

three_appended :
    (out : List ℕ) (a b c : ℕ)
    → ((out ++ (a ∷ [])) ++ (b ∷ [])) ++ (c ∷ []) ≡ out ++ (a ∷ b ∷ c ∷ [])
three_appended out a b c =
    append_assoc (out ++ (a ∷ [])) (b ∷ []) (c ∷ []) ∙ append_assoc out (a ∷ []) (b ∷ c ∷ [])

-- The loop over the base64 form of some bytes appends them to the result.
decode_loop-encode :
    (bs : List ℕ) (n i last : ℕ) (out : List ℕ)
    → Bytes bs
    → i % 4 ≡ 0
    → length (encode bs) ≤ n
    → (s : State) × (decode_loop (encode bs) n (record { i = i; result = out; last = last })
        ≡ some (s, 0))
      × (s.result ≡ out ++ bs)
unfolding encode
decode_loop-encode [] n i last out h z l = (
  record { i = i; result = out; last = last },
  loop-nil n (record { i = i; result = out; last = last }),
  sym (append-nil out),
)
decode_loop-encode (a ∷ []) n i last out (h, _) z l =
    let s = two i out (a / 4) (a % 4 * 16) in
    let q : ((i + 2) % 4 == 1) ≡ false = ground arith in
    (
      s,
      loop-two (a / 4) (a % 4 * 16) n i last out (base64_pad ∷ base64_pad ∷ []) z (omega arith)
            (omega arith) (omega arith)
          ∙ loop-pad (n - 2) (base64_pad ∷ []) s (omega arith) q
          ∙ loop-pad (n - 2 - 1) [] s (omega arith) q
          ∙ loop-nil (n - 2 - 1 - 1) s,
      ap (λ x. out ++ (x ∷ [])) (byte-one_end a h),
    )
decode_loop-encode (a ∷ b ∷ []) n i last out (h, (k, _)) z l =
    let s = three i out (a / 4) (a % 4 * 16 + b / 16) (b % 16 * 4) in
    let q : ((i + 3) % 4 == 1) ≡ false = ground arith in
    (
      s,
      loop-three (a / 4) (a % 4 * 16 + b / 16) (b % 16 * 4) n i last out (base64_pad ∷ []) z
            (omega arith) (omega arith) (omega arith) (omega arith)
          ∙ loop-pad (n - 3) [] s (omega arith) q
          ∙ loop-nil (n - 3 - 1) s,
      ap₂ (λ x y. (out ++ (x ∷ [])) ++ (y ∷ [])) (byte-one a b h k) (byte-two_end a b k)
          ∙ append_assoc out (a ∷ []) (b ∷ []),
    )
decode_loop-encode (a ∷ b ∷ c ∷ bs) n i last out (h, (k, (m, r))) z l =
    let v = a / 4 in
    let w = a % 4 * 16 + b / 16 in
    let x = b % 16 * 4 + c / 64 in
    let y = c % 64 in
    let made = (three i out v w x).result ++ ((x % 4 * 64 + y) ∷ []) in
    let e : made ≡ out ++ (a ∷ b ∷ c ∷ []) =
      ap₂ (λ s t. ((out ++ (s ∷ [])) ++ (t ∷ [])) ++ ((x % 4 * 64 + y) ∷ [])) (byte-one a b h k)
        (byte-two a b c k m)
      ∙ ap (λ t. ((out ++ (a ∷ [])) ++ (b ∷ [])) ++ (t ∷ [])) (byte-three b c m)
      ∙ three_appended out a b c in
    let (s, p, q) =
      decode_loop-encode bs (n - 4) (i + 4) (x % 4 * 64) made r (omega arith) (omega arith) in
    (
      s,
      loop-four v w x y n i last out (encode bs) z (omega arith) (omega arith) (omega arith)
            (omega arith) (omega arith)
          ∙ p,
      q ∙ ap (λ t. t ++ bs) e ∙ append_assoc out (a ∷ b ∷ c ∷ []) bs,
    )

finish-some :
    (str : List ℕ) (n : ℕ) (s : State)
    → decode_loop str n init_state ≡ some (s, 0)
    → base64_decode str n ≡ some s.result
unfolding base64_decode
finish-some str n s h = rw (h, base64_decode)

-- base64_decode gives back every byte string from its padded base64 form, for every length that is at
-- least that of the text.
pub base64_decode-encode :
    (bs : List ℕ) (length' : ℕ)
    → Bytes bs
    → length (encode bs) ≤ length'
    → base64_decode (encode bs) length' ≡ some bs
base64_decode-encode bs n h l =
    let (s, p, q) = decode_loop-encode bs n 0 0 [] h refl l in
    finish-some (encode bs) n s p ∙ ap some q
