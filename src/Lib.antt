-- ===== src/Lib.antt =====
-- SmartRabbitServer: a game server in C with a script language of its own. rbtlib/ is the library
-- (the compiler and virtual machine of the scripts, containers, codecs, networking) and Server/ is
-- the server process that uses it. Scripts exchange values with clients in the AMF3 format.
--
-- Files and what they model (paths from the repository's root):
--   Base, Base/*     shared names, lists and integers over native numbers.
--   Amf/Value        script values (rbtlib/object.h) and tables; a table is an association list, and a heap
--                    a list of tables, addressed by position. The list has the order in which the
--                    encoder goes through it; the place where the decoder puts an entry is not that of
--                    newkey, and of its tables only what rbtH_get answers is claimed.
--   Amf/Ints         the variable-length integers: _encode_int_amf3 and _decode_int_amf3.
--   Amf/Encoder      rbtlib/encoder.c: encode_amf3 and the functions that it calls. The conversions
--                    of floating point and utos/ftos are fields of a parameter, `Platform`.
--   Amf/Tree         an independent description of what is sent: trees and their AMF3 form, with integers
--                    in groups of seven bits and doubles from the byte with the sign on.
--   Amf/Encoder/Forms  the integers, doubles and strings of the encoder against those forms.
--   Amf/Decoder, Amf/Decoder/Collections, Amf/Decoder/Decode
--                    rbtlib/decoder.c and amf_common.c: rbtAMF_decode and what it calls, as state
--                    passing over `Ctx`, the struct DecodeCTX with the heap. `err` is the longjmp of
--                    decode_error, `fault` is undefined behaviour, `stuck` is the end of the fuel.
--   Queue            rbtlib/queue.c, a growing circular FIFO.
--   Pool             rbtlib/pool.c, a growing pool of slots with a free list in the slots.
--   Lru              rbtlib/least_recently_used.c, slots that are reused by a clock hand. A visit has the
--                    distance of its pointer from the pool.
--   Io               rbtlib/io.c, a growing byte buffer with a cursor. A byte that was never written is
--                    `none`; reading one gives no number. An operation with a length is `none`
--                    where it is undefined.
--   Table            the nodes of rbtlib/table.c: chains inside an array, the free position, and newkey
--                    once it has a free node. `Keys` is what this needs of keys.
--   Table/Ops        lookup, rbtH_set, and growth by resize with compute_size.
--   Table/Script     an instance of `Keys`: hash_object and the comparisons of keys.
--   Table/Scan       rbtH_next, the counts, rbtH_clean and rbtH_setnextnum.
--   Timers           rbtlib/time_process_list.c, timers in a doubly linked list over an array of nodes with
--                    a free list. The comparisons of times are fields of a parameter, `Clock`.
--   Base64           rbtlib/base64.c: base64_decode.
--   Numbers          rbtlib/math.c: decimal texts of 32-bit integers.
--   Opcode           rbtlib/opcode.h and opcode.c: the instruction format of the virtual machine and
--                    the table of operands.
-- The files below these hold the theorems: RoundTrip, Wire, Termination, Loops, Total, Edge, Sealed,
-- Window, Fifo, Runs, Chain, Slots, Hand, Clock, Cursor, Invariant, Swap, Digits, Fields, Operands, Segment, Storage,
-- Names, Links, Filled, Unlink, Walk, Insert, Remove, Order, Chains, Find, Frames, Before, Grow, Link, Move,
-- Values, Newkey, Collide, Put, Store, Refine, Init, Visit, Nextnum, Letters. Tests and Examples hold runs at
-- concrete inputs.
--
-- Bounds and fuel. The encoder and the decoder recurse on fuel; the weight of a tree is enough for
-- the encoder, and one unit for each input byte and one more is enough for the decoder on every
-- input, as far as its behaviour is defined. The copying loop of the queue has the size of the old
-- array as fuel, and `push_at` has 2, because a push calls `resize` and that calls a push with room. The swapping loop has the length of
-- the text. The clock hand has twice the number of slots and one as fuel. The loops over the timers
-- have the number of timers as fuel. A walk along a chain of a table has the number of nodes and one
-- as fuel, and `set_slot` the number of calls of `resize` and one. Machine integers are numbers with
-- their wrap-around written out; allocation does not fail and the sizes of containers do not overflow
-- an `int`.
--
-- Not modelled: sockets, threads, database clients and other I/O; md5 and RSA; the compiler and the
-- virtual machine but for the instruction format; table keys that are nil, booleans or in floating
-- point; the garbage collector; floating-point text.
pub mod Base
pub mod Amf
pub mod Queue
pub mod Table
pub mod Base64
pub mod Timers
pub mod Lru
pub mod Io
pub mod Numbers
pub mod Pool
pub mod Opcode
