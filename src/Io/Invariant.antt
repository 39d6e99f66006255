-- ===== src/Io/Invariant.antt =====
-- The buffers of rbtlib/io.c keep their cursors inside their memory, whatever defined calls are made.
use smart_rabbit_server.Base.{
  ℕ, zero, suc, ◌+◌, ◌*◌, ◌/◌, ◌≤◌, ◌≡◌, refl, ap, ◌∙◌, Option, none, some, List, [], ◌∷◌, length,
  replicate, length-append, length-replicate, length-take, length-drop, min, take, drop, sym, subst,
  ltb, false, ◌-◌, arith,
}
use smart_rabbit_server.Base.Int.{ℤ, pos, negsuc}
use smart_rabbit_server.Io.{
  Bytes, Io, create, splice, read_char, read_short, read_int, read_len, expand, make_room, put,
  write_len, write_bytes, read_len_io, write_len_io, write_char, write_short, write_int, seek,
}

-- The memory has its size, and the cursor lies inside.
abbrev pub IsValid : Io → Type 0
IsValid io = (length io.buf ≡ io.size) × (io.ptr ≤ io.size)

pub length-splice : (at : ℕ) (bytes buf : Bytes) → length (splice at bytes buf) ≡ length buf
length-splice zero [] buf = refl
length-splice zero (b ∷ bytes) [] = refl
length-splice zero (b ∷ bytes) (x ∷ buf) = ap suc (length-splice zero bytes buf)
length-splice (suc at) bytes [] = refl
length-splice (suc at) bytes (x ∷ buf) = ap suc (length-splice at bytes buf)

-- After `make_room` there is room, the cursor has not moved, and no byte was lost.
pub make_room-IsValid :
    (io : Io) (n : ℕ)
    → IsValid io
    → IsValid (make_room io n)
      × (io.ptr + n ≤ (make_room io n).size)
      × ((make_room io n).ptr ≡ io.ptr)
      × (io.size ≤ (make_room io n).size)
unfolding make_room expand
make_room-IsValid io n v =
    let more = (n + 63) / 64 * 64 in
    let l = length-append io.buf (replicate more none) in
    let r = length-replicate {A = Option ℕ} more none in
    (ground arith, ground arith, ground arith, ground arith)

-- An operation of the interface on the first of two buffers. `reads_len_io` copies to the second,
-- `writes_len_io` from it, and `switches` exchanges the two, so that the next is on the other.
pub data Op : Type 0 where
  reads_char reads_short reads_int switches : Op
  reads_len reads_len_io writes_len_io : ℤ → Op
  writes_char writes_short writes_int : ℕ → Op
  writes_len : Bytes → ℤ → Op
  seeks : ℤ → Op

abbrev beside : Io → Option Io → Option (Io × Io)
beside other none = none
beside other (some io) = some (io, other)

abbrev read_of : Option (Bytes × Io) → Option Io
read_of none = none
read_of (some r) = some r.1

abbrev pub perform : Op → Io → Io → Option (Io × Io)
perform reads_char io other = some ((read_char io).1, other)
perform reads_short io other = some ((read_short io).1, other)
perform reads_int io other = some ((read_int io).1, other)
perform switches io other = some (other, io)
perform (reads_len len) io other = beside other (read_of (read_len io len))
perform (reads_len_io len) io other = read_len_io io other len
perform (writes_len_io len) io other = write_len_io io other len
perform (writes_char c) io other = some (write_char io c, other)
perform (writes_short i) io other = some (write_short io i, other)
perform (writes_int i) io other = some (write_int io i, other)
perform (writes_len bytes len) io other = beside other (write_len io bytes len)
perform (seeks at) io other = some (seek io at, other)

-- Operations in turn; `none` where one of them is undefined.
abbrev pub perform_all : List Op → Option (Io × Io) → Option (Io × Io)
perform_all ops none = none
perform_all [] (some ios) = some ios
perform_all (op ∷ ops) (some ios) = perform_all ops (perform op ios.0 ios.1)

-- A length that is not negative, nor longer than the array that is given with it.
abbrev pub NotNegative : ℤ → Type 0
NotNegative (pos n) = Unit
NotNegative (negsuc n) = ⊥

abbrev pub AtMost : ℤ → ℕ → Type 0
AtMost (pos n) m = n ≤ m
AtMost (negsuc n) m = ⊥

abbrev pub Allowed : Op → Type 0
Allowed (reads_len len) = NotNegative len
Allowed (reads_len_io len) = NotNegative len
Allowed (writes_len_io len) = NotNegative len
Allowed (writes_len bytes len) = AtMost len (length bytes)
Allowed _ = Unit

abbrev pub AllAllowed : List Op → Type 0
AllAllowed [] = Unit
AllAllowed (op ∷ ops) = Allowed op × AllAllowed ops

put-IsValid :
    (io : Io) (bytes : Bytes)
    → IsValid io
    → io.ptr + length bytes ≤ io.size
    → IsValid (put io bytes)
unfolding put
put-IsValid io bytes v h = (length-splice io.ptr bytes io.buf ∙ v.0, h)

write-IsValid :
    (io : Io) (n : ℕ) (bytes : Bytes)
    → IsValid io
    → length bytes ≡ n
    → IsValid (put (make_room io n) bytes)
write-IsValid io n bytes v e =
    let (w, r, p, s) = make_room-IsValid io n v in
    put-IsValid (make_room io n) bytes w (omega arith)

seek-IsValid : (io : Io) (at : ℤ) → IsValid io → IsValid (seek io at)
unfolding seek
seek-IsValid io (pos at) v = (v.0, omega arith)
seek-IsValid io (negsuc n) v = (v.0, omega arith)

length-min :
    (buf : Bytes) (size at len : ℕ)
    → length buf ≡ size
    → length (take (min len (size - at)) (drop at buf)) ≡ min len (size - at)
length-min buf size at len e =
    let t = length-take (min len (size - at)) (drop at buf) in
    let d = length-drop at buf in omega arith

-- Two buffers that an operation leaves, both valid.
abbrev pub Leaves : Option (Io × Io) → Type 0
Leaves r = (io : Io) × (other : Io) × (r ≡ some (io, other)) × IsValid io × IsValid other

pub write_bytes-IsValid : (io : Io) (bytes : Bytes) → IsValid io → IsValid (write_bytes io bytes)
unfolding write_bytes
write_bytes-IsValid io bytes v = write-IsValid io (length bytes) bytes v refl

pub write_len-some :
    (io : Io) (bytes : Bytes) (len : ℕ)
    → len ≤ length bytes
    → write_len io bytes (pos len) ≡ some (write_bytes io (take len bytes))
unfolding write_len
write_len-some io bytes len h = ground arith

pub read_len-some :
    (io : Io) (len : ℕ)
    → io.ptr ≤ io.size
    → read_len io (pos len)
      ≡ some (
        take (min len (io.size - io.ptr)) (drop io.ptr io.buf),
        record io { ptr = io.ptr + min len (io.size - io.ptr) },
      )
unfolding read_len
read_len-some io len h = ground arith

reads-Leaves :
    (io other : Io) (len : ℕ)
    → IsValid io
    → IsValid other
    → Leaves (perform (reads_len (pos len)) io other)
reads-Leaves io other len v w =
    let l = min len (io.size - io.ptr) in
    (
      record io { ptr = io.ptr + l },
      other,
      rw (read_len-some io len v.1) refl,
      (v.0, omega (arith, v.1)),
      w,
    )

writes-Leaves :
    (io other : Io) (bytes : Bytes) (len : ℕ)
    → len ≤ length bytes
    → IsValid io
    → IsValid other
    → Leaves (perform (writes_len bytes (pos len)) io other)
writes-Leaves io other bytes len h v w = (
  write_bytes io (take len bytes),
  other,
  rw (write_len-some io bytes len h) refl,
  write_bytes-IsValid io (take len bytes) v,
  w,
)

read_len_io-Leaves :
    (io out : Io) (len : ℕ) → IsValid io → IsValid out → Leaves (read_len_io io out (pos len))
unfolding read_len_io
read_len_io-Leaves io out len v w =
    let l = min len (io.size - io.ptr) in
    let d = length-drop io.ptr io.buf in
    let e = write_len-some out (drop io.ptr io.buf) l (omega (arith, v.0)) in
    let inside : ltb io.size io.ptr ≡ false = ground (arith, v.1) in
    (
      record io { ptr = io.ptr + l },
      write_bytes out (take l (drop io.ptr io.buf)),
      rw (inside, e) refl,
      (v.0, omega (arith, v.1)),
      write_bytes-IsValid out (take l (drop io.ptr io.buf)) w,
    )

write_len_io-Leaves :
    (io from : Io) (len : ℕ) → IsValid io → IsValid from → Leaves (write_len_io io from (pos len))
unfolding write_len_io put
write_len_io-Leaves io from len v w =
    let (x, r, p, s) = make_room-IsValid io len v in
    let roomy = make_room io len in
    let l = min len (from.size - from.ptr) in
    let bytes = take l (drop from.ptr from.buf) in
    (
      record roomy { buf = splice roomy.ptr bytes roomy.buf; ptr = roomy.ptr + len },
      record from { ptr = from.ptr + l },
      rw (write_len_io, read_len-some from len w.1) refl,
      (length-splice roomy.ptr bytes roomy.buf ∙ x.0, omega arith),
      (w.0, omega (arith, w.1)),
    )

perform-Leaves :
    (op : Op) (io other : Io)
    → Allowed op
    → IsValid io
    → IsValid other
    → Leaves (perform op io other)
unfolding read_char read_short read_int write_char write_short write_int
perform-Leaves reads_char io other a v w = (_, other, refl, ground arith, w)
perform-Leaves reads_short io other a v w = (_, other, refl, ground arith, w)
perform-Leaves reads_int io other a v w = (_, other, refl, ground arith, w)
perform-Leaves switches io other a v w = (other, io, refl, w, v)
perform-Leaves (reads_len (pos len)) io other a v w = reads-Leaves io other len v w
perform-Leaves (reads_len_io (pos len)) io other a v w = read_len_io-Leaves io other len v w
perform-Leaves (writes_len_io (pos len)) io other a v w = write_len_io-Leaves io other len v w
perform-Leaves (writes_len bytes (pos len)) io other a v w = writes-Leaves io other bytes len a v w
perform-Leaves (reads_len (negsuc n)) io other a v w = elim a [ ]
perform-Leaves (reads_len_io (negsuc n)) io other a v w = elim a [ ]
perform-Leaves (writes_len_io (negsuc n)) io other a v w = elim a [ ]
perform-Leaves (writes_len bytes (negsuc n)) io other a v w = elim a [ ]
perform-Leaves (writes_char c) io other a v w = (_, other, refl, write-IsValid io 1 _ v refl, w)
perform-Leaves (writes_short i) io other a v w = (_, other, refl, write-IsValid io 2 _ v refl, w)
perform-Leaves (writes_int i) io other a v w = (_, other, refl, write-IsValid io 4 _ v refl, w)
perform-Leaves (seeks at) io other a v w = (_, other, refl, seek-IsValid io at v, w)

perform_all-keeps :
    (ops : List Op) (io other : Io)
    → AllAllowed ops
    → IsValid io
    → IsValid other
    → Leaves (perform_all ops (some (io, other)))
perform_all-keeps [] io other a v w = (io, other, refl, v, w)
perform_all-keeps (op ∷ ops) io other a v w =
    let (io', other', e, v', w') = perform-Leaves op io other a.0 v w in
    subst (λ r. Leaves (perform_all ops r)) (sym e) (perform_all-keeps ops io' other' a.1 v' w')

pub create-IsValid : IsValid create
unfolding create
create-IsValid = (length-replicate {A = Option ℕ} 16 none, omega arith)

-- Whatever operations are performed on two new buffers and between them, in whatever order, as long
-- as no length is negative or past the end of the array that is given with it: every operation is
-- defined, and in the end the memory of each buffer has the size that it records and the cursor of
-- each lies inside.
pub perform_all-IsValid :
    (ops : List Op) → AllAllowed ops → Leaves (perform_all ops (some (create, create)))
perform_all-IsValid ops a = perform_all-keeps ops create create a create-IsValid create-IsValid
