-- ===== src/Io/Cursor.antt =====
-- What is written to a buffer of rbtlib/io.c is read back from where it was written.
use smart_rabbit_server.Base.{
  ℕ, zero, suc, ◌+◌, ◌-◌, ◌*◌, ◌/◌, ◌≤◌, ◌≡◌, refl, sym, ap, ap₂, ◌∙◌, none, [], ◌∷◌, ◌++◌, min,
  take, drop, length, replicate, length-take, length-drop, Option, some, arith,
}
use native.Mathlib.Numerals.{unary_clauses}
use smart_rabbit_server.Base.Int.{pos}
use smart_rabbit_server.Io.{
  Bytes, Io, splice, read_len, expand, make_room, put, write_len, write_bytes, seek, tell,
}
use smart_rabbit_server.Io.Invariant.{
  IsValid, length-splice, make_room-IsValid, read_len-some, write_len-some,
}

take-splice :
    (at : ℕ) (bytes buf : Bytes)
    → at + length bytes ≤ length buf
    → take (length bytes) (drop at (splice at bytes buf)) ≡ bytes
take-splice zero [] buf h = refl
take-splice zero (b ∷ bytes) [] h = absurd (omega arith)
take-splice zero (b ∷ bytes) (x ∷ buf) h =
    ap (λ t. b ∷ t) (take-splice zero bytes buf (omega arith))
take-splice (suc at) bytes [] h = absurd (omega arith)
take-splice (suc at) bytes (x ∷ buf) h = take-splice at bytes buf (omega arith)

-- The bytes before the place of a write.
splice-before : (at : ℕ) (bytes buf : Bytes) → take at (splice at bytes buf) ≡ take at buf
splice-before zero bytes buf = refl
splice-before (suc at) bytes [] = refl
splice-before (suc at) bytes (x ∷ buf) = ap (λ t. x ∷ t) (splice-before at bytes buf)

take-append : (n : ℕ) (xs ys : Bytes) → n ≤ length xs → take n (xs ++ ys) ≡ take n xs
take-append zero xs ys h = refl
take-append (suc n) [] ys h = absurd (omega arith)
take-append (suc n) (x ∷ xs) ys h = ap (λ t. x ∷ t) (take-append n xs ys (omega arith))

make_room-before :
    (io : Io) (n : ℕ) → IsValid io → take io.ptr (make_room io n).buf ≡ take io.ptr io.buf
unfolding make_room expand
make_room-before io n v =
    let e = take-append io.ptr io.buf (replicate ((n + 63) / 64 * 64) none) (omega (arith, v.0)) in
    ground arith

-- What a write leaves: the cursor, the bytes before it, the new bytes, and the size.
record Written (io : Io) (bytes : Bytes) (io' : Io) : Type 0 where
  valid : IsValid io'
  moved : io'.ptr ≡ io.ptr + length bytes
  before : take io.ptr io'.buf ≡ take io.ptr io.buf
  behind : take (length bytes) (drop io.ptr io'.buf) ≡ bytes

write_bytes-Written :
    (io : Io) (bytes : Bytes) → IsValid io → Written io bytes (write_bytes io bytes)
unfolding write_bytes put
write_bytes-Written io bytes v =
    let n = length bytes in
    let roomy = make_room io n in
    let (w, r, p, s) = make_room-IsValid io n v in
    record {
      valid = (length-splice roomy.ptr bytes roomy.buf ∙ w.0, omega arith);
      moved = omega arith;
      before =
          ap (λ a. take io.ptr (splice a bytes roomy.buf)) p
          ∙ splice-before io.ptr bytes roomy.buf
          ∙ make_room-before io n v;
      behind =
          ap (λ a. take n (drop io.ptr (splice a bytes roomy.buf))) p
          ∙ take-splice io.ptr bytes roomy.buf (omega (arith, w.0));
    }

read_len-seek :
    (io : Io) (at n : ℕ)
    → at + n ≤ io.size
    → io.ptr ≡ at + n
    → read_len (seek io (pos at)) (pos n) ≡ some (take n (drop at io.buf), io)
unfolding seek
read_len-seek io at n h e =
    let reads : ℕ → ℕ → Option (Bytes × Io) =
      λ a l. some (take l (drop a io.buf), record io { ptr = a + l }) in
    let a : min at io.size ≡ at = omega arith in
    let l : min n (io.size - min at io.size) ≡ n = omega arith in
    read_len-some (record io { ptr = min at io.size }) n (omega arith)
    ∙ ap₂ reads a l
    ∙ ap (λ p. some (take n (drop at io.buf), record io { ptr = p })) (sym e)

take-all : (bytes : Bytes) → take (length bytes) bytes ≡ bytes
take-all [] = refl
take-all (x ∷ bytes) = ap (λ t. x ∷ t) (take-all bytes)

-- On a valid buffer, from wherever the cursor stands: `write_len` of all the bytes of an array is
-- defined; reading as many bytes, after a `seek` to where `tell` said they were written, gives those
-- bytes and puts the cursor back behind them; and the bytes before that place are as they were.
pub read_len-write_len :
    (io : Io) (bytes : Bytes)
    → IsValid io
    → (io' : Io) × (write_len io bytes (pos (length bytes)) ≡ some io')
      × (read_len (seek io' (pos (tell io))) (pos (length bytes)) ≡ some (bytes, io'))
      × (take (tell io) io'.buf ≡ take (tell io) io.buf)
unfolding tell
read_len-write_len io bytes v =
    let w = write_bytes-Written io bytes v in
    let io' = write_bytes io bytes in
    (
      io',
      write_len-some io bytes (length bytes) (omega arith)
          ∙ ap (λ b. some (write_bytes io b)) (take-all bytes),
      read_len-seek io' io.ptr (length bytes) (omega (arith, w.valid.1, w.moved)) w.moved
          ∙ ap (λ b. some (b, io')) w.behind,
      w.before,
    )

take-split : (xs : Bytes) (a b : ℕ) → take a xs ++ take b (drop a xs) ≡ take (a + b) xs
take-split xs zero b = ap (λ n. take n xs) (omega arith)
take-split [] (suc a) zero = simp unary_clauses refl
take-split [] (suc a) (suc b) = simp unary_clauses refl
take-split (x ∷ xs) (suc a) b =
    let e : suc (a + b) ≡ suc a + b = omega arith in
    ap (λ t. x ∷ t) (take-split xs a b) ∙ ap (λ n. take n (x ∷ xs)) e

drop-drop : (xs : Bytes) (a b : ℕ) → drop b (drop a xs) ≡ drop (a + b) xs
drop-drop xs zero b = ap (λ n. drop n xs) (omega arith)
drop-drop [] (suc a) zero = simp unary_clauses refl
drop-drop [] (suc a) (suc b) = simp unary_clauses refl
drop-drop (x ∷ xs) (suc a) b =
    let e : suc (a + b) ≡ suc a + b = omega arith in drop-drop xs a b ∙ ap (λ n. drop n (x ∷ xs)) e

-- On a valid buffer, reading `a` bytes and then `b` bytes gives what reading `a + b` bytes at once
-- gives, in the same order, and leaves the buffer and its cursor the same; so it does past the end,
-- where each read gives the bytes that are left.
pub read_len-splits :
    (io : Io) (a b : ℕ)
    → IsValid io
    → (xs : Bytes) × (ys : Bytes) × (io1 : Io) × (io2 : Io) × (read_len io (pos a) ≡ some (xs, io1))
      × (read_len io1 (pos b) ≡ some (ys, io2))
      × (read_len io (pos (a + b)) ≡ some (xs ++ ys, io2))
      × (length xs ≡ min a (io.size - io.ptr))
read_len-splits io a b v =
    let l = min a (io.size - io.ptr) in
    let io1 : Io = record io { ptr = io.ptr + l } in
    let m = min b (io1.size - io1.ptr) in
    let rest = drop io.ptr io.buf in
    let whole : min (a + b) (io.size - io.ptr) ≡ l + m = omega arith in
    let t = length-take l rest in
    let d = length-drop io.ptr io.buf in
    (
      take l rest,
      take m (drop io1.ptr io.buf),
      io1,
      record io { ptr = io1.ptr + m },
      read_len-some io a v.1,
      read_len-some io1 b (omega (arith, v.1)),
      read_len-some io (a + b) v.1
          ∙ ap (λ n. some (take n rest, record io { ptr = io.ptr + n })) whole
          ∙ ap₂ (λ (bs : Bytes) (p : ℕ). some (bs, record io { ptr = p }))
              (sym (take-split rest l m)
                ∙ ap (λ r. take l rest ++ take m r) (drop-drop io.buf io.ptr l))
              (omega arith),
      omega (arith, v.0),
    )
