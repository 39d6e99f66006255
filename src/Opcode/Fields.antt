-- ===== src/Opcode/Fields.antt =====
-- The fields of an instruction are independent: rbtlib/opcode.h.
use smart_rabbit_server.Base.{
  ℕ, ◌+◌, ◌-◌, ◌*◌, ◌/◌, ◌%◌, ◌^◌, ◌<◌, ◌≤◌, ◌≡◌, Bool, true, false, some, arith,
}
use smart_rabbit_server.Base.Int.{ℤ, pos, negsuc, ◌≤ℤ◌}
use smart_rabbit_server.Opcode.{
  low, bit, below, set_abc, set_op, set_a, set_bx, set_b, set_c, set_ka_kb, set_kc, get_op, get_ka,
  get_kb, get_kc, get_a, get_bx, get_b, get_c,
}

bit_le : (b : Bool) → bit b ≤ 1
bit_le true = omega arith
bit_le false = omega arith

-- What the `Get` macros read from an instruction.
pub record Fields : Type 0 where
  pub op : ℕ
  pub ka : ℕ
  pub kb : ℕ
  pub a : ℕ
  pub b : ℕ
  pub kc : ℕ
  pub c : ℕ

-- The word is 32 bits wide and the macros read these fields from it.
abbrev pub Reads : ℕ → Fields → Type 0
Reads i f =
    (i < 2 ^ 32)
    × (get_op i ≡ f.op)
    × (get_ka i ≡ f.ka)
    × (get_kb i ≡ f.kb)
    × (get_a i ≡ f.a)
    × (get_b i ≡ f.b)
    × (get_kc i ≡ f.kc)
    × (get_c i ≡ f.c)

-- From an opcode below 64 and registers below 128 `SetABC` makes a 32-bit instruction from which
-- the `Get` macros read that opcode and those registers, with clear flags.
pub set_abc-Reads :
    (o a b c : ℕ)
    → o < 64
    → a < 128
    → b < 128
    → c < 128
    → (i : ℕ) × (set_abc (pos o) (pos a) (pos b) (pos c) ≡ some i)
      × Reads i (record { op = o; ka = 0; kb = 0; a = a; b = b; kc = 0; c = c })
unfolding set_abc below low get_op get_ka get_kb get_kc get_a get_b get_c
set_abc-Reads o a b c ho ha hb hc =
    (o * 2 ^ 24 + a * 2 ^ 16 + b * 2 ^ 8 + c, ground arith, omega arith)

-- On a 32-bit instruction and a register below 128, `SetA` replaces field A and leaves every
-- other field and flag alone.
pub set_a-Reads :
    (i a : ℕ) (f : Fields)
    → Reads i f
    → a < 128
    → (i' : ℕ) × (set_a i (pos a) ≡ some i') × Reads i' (record f { a = a })
unfolding set_a below low get_op get_ka get_kb get_kc get_a get_b get_c
set_a-Reads i a f (w, o, ka, kb, ra, rb, kc, c) ha =
    (i / 2 ^ 24 * 2 ^ 24 + a * 2 ^ 16 + i % 2 ^ 16, ground arith, omega arith)

pub set_b-Reads :
    (i b : ℕ) (f : Fields)
    → Reads i f
    → b < 128
    → (i' : ℕ) × (set_b i (pos b) ≡ some i') × Reads i' (record f { b = b })
unfolding set_b below low get_op get_ka get_kb get_kc get_a get_b get_c
set_b-Reads i b f (w, o, ka, kb, ra, rb, kc, c) hb =
    (i / 2 ^ 16 * 2 ^ 16 + b * 2 ^ 8 + i % 2 ^ 8, ground arith, omega arith)

-- `SetC` clears the flag of C.
pub set_c-Reads :
    (i c : ℕ) (f : Fields)
    → Reads i f
    → c < 128
    → (i' : ℕ) × (set_c i (pos c) ≡ some i') × Reads i' (record f { c = c; kc = 0 })
unfolding set_c below low get_op get_ka get_kb get_kc get_a get_b get_c
set_c-Reads i c f (w, o, ka, kb, ra, rb, kc, rc) hc =
    (i / 2 ^ 8 * 2 ^ 8 + c, ground arith, omega arith)

-- On a 32-bit instruction and an opcode below 64, `SetOP` replaces the opcode, clears the flags
-- of A and B, and leaves A, B, C and the flag of C alone.
pub set_op-Reads :
    (i o : ℕ) (f : Fields)
    → Reads i f
    → o < 64
    → (i' : ℕ) × (set_op i (pos o) ≡ some i') × Reads i' (record f { op = o; ka = 0; kb = 0 })
unfolding set_op below low get_op get_ka get_kb get_kc get_a get_b get_c
set_op-Reads i o f (w, ro, ka, kb, ra, rb, kc, c) ho =
    (i % 2 ^ 24 + o * 2 ^ 24, ground arith, omega arith)

-- `SetKaKb` and `SetKc` replace the flags.
pub set_ka_kb-Reads :
    (i : ℕ) (ka kb : Bool) (f : Fields)
    → Reads i f
    → Reads (set_ka_kb i ka kb) (record f { ka = bit ka; kb = bit kb })
unfolding set_ka_kb get_op get_ka get_kb get_kc get_a get_b get_c
set_ka_kb-Reads i ka kb f (w, o, ra, rb, a, b, kc, c) =
    let ha : bit ka ≤ 1 = bit_le ka in let hb : bit kb ≤ 1 = bit_le kb in omega arith

pub set_kc-Reads :
    (i : ℕ) (kc : Bool) (f : Fields) → Reads i f → Reads (set_kc i kc) (record f { kc = bit kc })
unfolding set_kc get_op get_ka get_kb get_kc get_a get_b get_c
set_kc-Reads i kc f (w, o, ra, rb, a, b, rc, c) = let hc : bit kc ≤ 1 = bit_le kc in omega arith

-- On a 32-bit instruction and an offset that fits in 16 signed bits, `GetBx` reads back what
-- `SetBx` wrote, the result is a 32-bit instruction, and its opcode, field A and the flags of A
-- and B are as before.
pub get_bx-set_bx :
    (i : ℕ) (b : ℤ)
    → i < 2 ^ 32
    → negsuc (2 ^ 15 - 1) ≤ℤ b
    → b ≤ℤ pos (2 ^ 15 - 1)
    → (get_bx (set_bx i b) ≡ b)
      × (set_bx i b < 2 ^ 32)
      × (get_op (set_bx i b) ≡ get_op i)
      × (get_ka (set_bx i b) ≡ get_ka i)
      × (get_kb (set_bx i b) ≡ get_kb i)
      × (get_a (set_bx i b) ≡ get_a i)
unfolding set_bx low get_op get_ka get_kb get_a get_bx
get_bx-set_bx i (pos n) w lo hi =
    (ground arith, omega arith, omega arith, omega arith, omega arith, omega arith)
get_bx-set_bx i (negsuc n) w lo hi =
    (ground arith, omega arith, omega arith, omega arith, omega arith, omega arith)
