-- ===== src/Io.antt =====
-- rbtlib/io.c: `simple_io`, a byte buffer in memory with one cursor for reading and writing. A byte
-- is a number below 256, whatever the sign of C's `char`; `none` is a byte that was never written.
pub mod Cursor
pub mod Invariant
mod Tests
use Prim.Native.Nat.{bit_or}
use smart_rabbit_server.Base.{
  ℕ, zero, suc, ◌+◌, ◌-◌, ◌*◌, ◌/◌, ◌%◌, ◌^◌, Bool, Option, none, some, List, [], ◌∷◌, ◌++◌, ltb,
  leb, if◌then◌else◌, get_or, min, take, drop, length, replicate,
}
use smart_rabbit_server.Base.Int.{ℤ, pos, negsuc}

abbrev pub Bytes : Type 0
Bytes = List (Option ℕ)

-- `struct simple_io`, less the table of functions and the allocator.
pub record Io : Type 0 where
  pub buf : Bytes
  pub size : ℕ
  pub ptr : ℕ

-- `io_create`
unfoldable pub create : Io
create = record { buf = replicate 16 none; size = 16; ptr = 0 }

-- `memcpy(&buf[at], bytes, len)`
abbrev pub splice : ℕ → Bytes → Bytes → Bytes
splice zero [] buf = buf
splice zero (b ∷ bytes) [] = []
splice zero (b ∷ bytes) (x ∷ buf) = b ∷ splice zero bytes buf
splice (suc at) bytes [] = []
splice (suc at) bytes (x ∷ buf) = x ∷ splice at bytes buf

-- `read_char`, which answers 0 at the end.
unfoldable pub read_char : Io → Option ℕ × Io
read_char io =
    if ltb io.size (io.ptr + 1)
    then (some 0, io)
    else (get_or io.buf io.ptr none, record io { ptr = io.ptr + 1 })

-- A `char` widened to the pattern of an `int`, and a shift of that.
abbrev pub widen : ℕ → ℕ
widen b = if ltb b 0x80 then b else 2 ^ 32 - 2 ^ 8 + b

abbrev pub shift : ℕ → ℕ → ℕ
shift k b = widen b * 2 ^ k % 2 ^ 32

abbrev pub join : ℕ → Option ℕ → Option ℕ → Option ℕ
join k (some a) (some b) = some (bit_or a (shift k b))
join k (some a) none = none
join k none b = none

-- `buf[at] | (buf[at + 1] << 8)`, and so on for four bytes: `|` of widened `char`s.
abbrev pub two_bytes : Bytes → ℕ → Option ℕ
two_bytes buf at = join 8 (join 0 (some 0) (get_or buf at none)) (get_or buf (at + 1) none)

abbrev pub four_bytes : Bytes → ℕ → Option ℕ
four_bytes buf at =
    join 24 (join 16 (two_bytes buf at) (get_or buf (at + 2) none)) (get_or buf (at + 3) none)

abbrev pub low_half : Option ℕ → Option ℕ
low_half none = none
low_half (some v) = some (v % 2 ^ 16)

-- `read_short` and `read_int`, the pattern of the result.
unfoldable pub read_short : Io → Option ℕ × Io
read_short io =
    if ltb io.size (io.ptr + 2)
    then (some 0, io)
    else (low_half (two_bytes io.buf io.ptr), record io { ptr = io.ptr + 2 })

unfoldable pub read_int : Io → Option ℕ × Io
read_int io =
    if ltb io.size (io.ptr + 4)
    then (some 0, io)
    else (four_bytes io.buf io.ptr, record io { ptr = io.ptr + 4 })

-- `read_len`: the bytes it copies; their number is what it returns. `none` is undefined behaviour: a
-- `memcpy` of a negative number of bytes, which is a huge `size_t`.
unfoldable pub read_len : Io → ℤ → Option (Bytes × Io)
read_len io (negsuc n) = none
read_len io (pos len) =
    let l = min len (io.size - io.ptr) in
    if ltb io.size io.ptr
    then none
    else some (take l (drop io.ptr io.buf), record io { ptr = io.ptr + l })

-- `expand`: the size is rounded up to a multiple of 64.
unfoldable pub expand : Io → ℕ → Io
expand io size =
    let more = (size + 63) / 64 * 64 in
    record io { buf = io.buf ++ replicate more none; size = io.size + more }

-- The test before each write of `n` bytes.
unfoldable pub make_room : Io → ℕ → Io
make_room io n = if ltb io.size (io.ptr + n) then expand io n else io

-- The bytes go behind the cursor, which moves over them.
unfoldable pub put : Io → Bytes → Io
put io bytes = record io { buf = splice io.ptr bytes io.buf; ptr = io.ptr + length bytes }

unfoldable pub write_bytes : Io → Bytes → Io
write_bytes io bytes = put (make_room io (length bytes)) bytes

-- `write_len` of `len` bytes from an array. `none` is undefined behaviour: a negative length, or one
-- that is past the end of the array.
unfoldable pub write_len : Io → Bytes → ℤ → Option Io
write_len io bytes (negsuc n) = none
write_len io bytes (pos len) =
    if ltb (length bytes) len then none else some (write_bytes io (take len bytes))

-- `write_char`, `write_short` and `write_int` of a pattern.
unfoldable pub write_char : Io → ℕ → Io
write_char io c = put (make_room io 1) (some c ∷ [])

unfoldable pub write_short : Io → ℕ → Io
write_short io i = put (make_room io 2) (some (i % 256) ∷ some (i / 2 ^ 8 % 256) ∷ [])

unfoldable pub write_int : Io → ℕ → Io
write_int io i = put (make_room io 4) (
    some (i % 256)
    ∷ some (i / 2 ^ 8 % 256)
    ∷ some (i / 2 ^ 16 % 256)
    ∷ some (i / 2 ^ 24 % 256)
    ∷ [])

-- `read_len_io` from `io` to another buffer, which first writes the bytes behind the cursor.
unfoldable pub read_len_io : Io → Io → ℤ → Option (Io × Io)
read_len_io io out (negsuc n) = none
read_len_io io out (pos len) =
    let l = min len (io.size - io.ptr) in
    if ltb io.size io.ptr then none else elim (write_len out (drop io.ptr io.buf) (pos l)) [
      | none ↦ none
      | some out' ↦ some (record io { ptr = io.ptr + l }, out')
    ]

-- `write_len_io` to `io` from another buffer. It moves its cursor by `len` even where fewer bytes
-- were read.
unfoldable pub write_len_io : Io → Io → ℤ → Option (Io × Io)
write_len_io io from (negsuc n) = none
write_len_io io from (pos len) =
    let roomy = make_room io len in
    elim (read_len from (pos len)) [
      | none ↦ none
      | some r ↦ some (record (put roomy r.0) { ptr = roomy.ptr + len }, r.1)
    ]

-- `seek`, `tell` and `eof`; `size` of the interface is `tell`.
unfoldable pub seek : Io → ℤ → Io
seek io (pos at) = record io { ptr = min at io.size }
seek io (negsuc n) = record io { ptr = 0 }

unfoldable pub tell : Io → ℕ
tell io = io.ptr

unfoldable pub eof : Io → Bool
eof io = leb io.size io.ptr
