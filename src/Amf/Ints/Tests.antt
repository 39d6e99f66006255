-- ===== src/Amf/Ints/Tests.antt =====
-- Concrete runs of the integer codec.
use smart_rabbit_server.Base.{[], ◌∷◌, ◌≡◌, refl}
use smart_rabbit_server.Base.Int.{negsuc}
use smart_rabbit_server.Amf.Value.{ok}
use smart_rabbit_server.Amf.Ints.{encode_int, decode_int}

encode_minus_one : encode_int (negsuc 0) ≡ (0xff ∷ 0xff ∷ 0xff ∷ 0xff ∷ [], 4)
unfolding encode_int
encode_minus_one = refl

decode_minus_two : decode_int (0xff ∷ 0xff ∷ 0xff ∷ 0xfe ∷ 7 ∷ []) ≡ ok (negsuc 1, 7 ∷ [])
unfolding decode_int
decode_minus_two = refl
