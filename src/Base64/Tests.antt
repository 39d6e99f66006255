-- ===== src/Base64/Tests.antt =====
-- rbtlib/base64.c at concrete texts.
use smart_rabbit_server.Base.{ℕ, ◌≡◌, refl, none, some, List, [], ◌∷◌, arith}
use smart_rabbit_server.Base64.{base64_decode, decode_loop, step}
use smart_rabbit_server.Base64.Letters.{letter}
use smart_rabbit_server.Base64.RoundTrip.{encode, base64_decode-encode}

-- "Man" and one more byte.
abbrev text : List ℕ
text = 77 ∷ 97 ∷ 110 ∷ 255 ∷ []

text-encode : encode text ≡ 84 ∷ 87 ∷ 70 ∷ 117 ∷ 47 ∷ 119 ∷ 61 ∷ 61 ∷ []
unfolding encode letter
text-encode = refl

base64_decode-encode_example : base64_decode (encode text) 8 ≡ some text
unfolding encode letter
base64_decode-encode_example =
    base64_decode-encode text 8 (omega arith, (omega arith, (omega arith, (omega arith, tt))))
      (omega arith)

-- An exclamation mark is not a letter, and is skipped.
invalid-skipped : base64_decode (84 ∷ 33 ∷ 87 ∷ 70 ∷ 117 ∷ []) 5 ≡ some (77 ∷ 97 ∷ 110 ∷ [])
unfolding base64_decode decode_loop step
invalid-skipped = refl

-- A pad behind one letter is refused.
early-pad : base64_decode (84 ∷ 61 ∷ []) 2 ≡ none
unfolding base64_decode decode_loop step
early-pad = refl
