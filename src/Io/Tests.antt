-- ===== src/Io/Tests.antt =====
-- rbtlib/io.c at concrete buffers.
use smart_rabbit_server.Base.{
  ◌≡◌, refl, ℕ, Option, none, List, ◌++◌, true, some, [], ◌∷◌, length, take, min, ◌+◌, ◌-◌, arith,
}
use smart_rabbit_server.Base.Int.{pos, negsuc}
use smart_rabbit_server.Io.{
  Bytes, Io, create, read_char, read_short, read_int, read_len, expand, make_room, put, write_len,
  write_bytes, write_char, write_short, write_int, read_len_io, write_len_io, seek, tell, eof,
}
use smart_rabbit_server.Io.Invariant.{
  IsValid, Op, writes_int, seeks, reads_short, reads_len_io, switches, writes_len, writes_len_io,
  Leaves, perform_all, perform_all-IsValid,
}
use smart_rabbit_server.Io.Cursor.{read_len-write_len, read_len-splits}

-- A full buffer of two bytes.
abbrev small : Io
small = record { buf = some 1 ∷ some 2 ∷ []; size = 2; ptr = 2 }

small-IsValid : IsValid small
small-IsValid = (refl, omega arith)

abbrev three : Bytes
three = some 7 ∷ some 8 ∷ some 9 ∷ []

read_len-write_len_example :
    (io' : Io) × (write_len small three (pos (length three)) ≡ some io')
    × (read_len (seek io' (pos (tell small))) (pos (length three)) ≡ some (three, io'))
    × (take (tell small) io'.buf ≡ take (tell small) small.buf)
read_len-write_len_example = read_len-write_len small three small-IsValid

-- Four bytes that are written, copied to the second buffer and read there.
abbrev calls : List Op
calls =
    writes_int 1
    ∷ seeks (negsuc 0)
    ∷ reads_len_io (pos 4)
    ∷ switches
    ∷ writes_len three (pos 2)
    ∷ writes_len_io (pos 3)
    ∷ reads_short
    ∷ []

perform_all-IsValid_example : Leaves (perform_all calls (some (create, create)))
perform_all-IsValid_example = perform_all-IsValid calls (omega arith)

-- The full buffer grows by 64 bytes.
growth_run :
    ((write_char small 3).size ≡ 66)
    × ((write_char small 3).ptr ≡ 3)
    × (eof small ≡ true)
    × ((read_char small).0 ≡ some 0)
unfolding write_char make_room expand put eof read_char
growth_run = (refl, refl, refl, refl)

-- A short of small bytes is read back; one with a low byte from 0x80 on is not.
short_run :
    ((read_short (seek (write_short create 0x1234) (pos 0))).0 ≡ some 0x1234)
    × ((read_short (seek (write_short create 0x1280) (pos 0))).0 ≡ some 0xff80)
    × ((read_int (seek (write_int create 0x01020304) (pos 0))).0 ≡ some 0x01020304)
unfolding read_short write_short read_int write_int make_room expand put seek create
short_run = (refl, refl, refl)

-- Two bytes from a buffer to another, both ways, and a negative length.
abbrev cursors : Option (Io × Io) → Option (ℕ × ℕ)
cursors none = none
cursors (some (a, b)) = some (a.ptr, b.ptr)

copy_run :
    (cursors (read_len_io (seek small (pos 0)) create (pos 2)) ≡ some (2, 2))
    × (cursors (write_len_io create (seek small (pos 1)) (pos 2)) ≡ some (2, 2))
    × (read_len small (negsuc 0) ≡ none)
    × (write_len small three (negsuc 0) ≡ none)
    × (write_len small three (pos 4) ≡ none)
unfolding read_len_io write_len_io read_len write_len write_bytes make_room expand put seek create
copy_run = (refl, refl, refl, refl, refl)

abbrev start : Io
start = record small { ptr = 0 }

-- The second read asks for more than is left.
read_len-splits_example :
    (xs : Bytes) × (ys : Bytes) × (io1 : Io) × (io2 : Io) × (read_len start (pos 1)
      ≡ some (xs, io1))
    × (read_len io1 (pos 2) ≡ some (ys, io2))
    × (read_len start (pos (1 + 2)) ≡ some (xs ++ ys, io2))
    × (length xs ≡ min 1 (start.size - start.ptr))
read_len-splits_example = read_len-splits start 1 2 (refl, omega arith)
