-- ===== src/Opcode.antt =====
-- rbtlib/opcode.h and rbtlib/opcode.c: how an instruction of the virtual machine is packed into 32
-- bits, and the table that says which of its operands it reads and writes.
pub mod Fields
pub mod Operands
mod Tests
use smart_rabbit_server.Base.{
  ℕ, ◌+◌, ◌-◌, ◌*◌, ◌/◌, ◌%◌, ◌^◌, Bool, true, false, ◌&&◌, Option, none, some, List, [], ◌∷◌, ltb,
  ◌==◌, if◌then◌else◌, get_elem?,
}
use smart_rabbit_server.Base.Int.{ℤ, pos, negsuc, ltb_ℤ}

-- `enum OpCode`
pub data OpCode : Type 0 where
  mov setnil setfalse settrue loadk add minus multi : OpCode
  div remainder and or concatenate gt lt ge : OpCode
  le eq ne not len cmp jmp jtrue : OpCode
  jfalse jgt jlt jge jle jeq jne getglobal : OpCode
  setglobal setglobalnil init_call call return close closure getupval : OpCode
  setupval setupvalnil gettable settable settable_nextnum settable_nil newtable value : OpCode
  foreach_begin foreach foreach_nokey closure_global : OpCode

-- The numbers that C gives to the constants of the enumeration.
unfoldable pub code : OpCode → ℕ
code mov = 0
code setnil = 1
code setfalse = 2
code settrue = 3
code loadk = 4
code add = 5
code minus = 6
code multi = 7
code div = 8
code remainder = 9
code and = 10
code or = 11
code concatenate = 12
code gt = 13
code lt = 14
code ge = 15
code le = 16
code eq = 17
code ne = 18
code not = 19
code len = 20
code cmp = 21
code jmp = 22
code jtrue = 23
code jfalse = 24
code jgt = 25
code jlt = 26
code jge = 27
code jle = 28
code jeq = 29
code jne = 30
code getglobal = 31
code setglobal = 32
code setglobalnil = 33
code init_call = 34
code call = 35
code return = 36
code close = 37
code closure = 38
code getupval = 39
code setupval = 40
code setupvalnil = 41
code gettable = 42
code settable = 43
code settable_nextnum = 44
code settable_nil = 45
code newtable = 46
code value = 47
code foreach_begin = 48
code foreach = 49
code foreach_nokey = 50
code closure_global = 51

-- The low `k` bits of a two's complement number: `x & (2^k - 1)`.
unfoldable pub low : ℕ → ℤ → ℕ
low k (pos n) = n % 2 ^ k
low k (negsuc n) = 2 ^ k - 1 - n % 2 ^ k

abbrev pub bit : Bool → ℕ
bit true = 1
bit false = 0

-- `opcode_assert(x < bound)`, which is `ParseError` when it fails: `none`.
unfoldable pub below : ℤ → ℕ → Bool
below x bound = ltb_ℤ x (pos bound)

-- `SetABC` and `SetABx`. The masked fields do not overlap, so `|` is a sum.
unfoldable pub set_abc : ℤ → ℤ → ℤ → ℤ → Option ℕ
set_abc o a b c =
    if below o 64 && (below a 128 && (below b 128 && below c 128))
    then some (low 6 o * 2 ^ 24 + low 7 a * 2 ^ 16 + low 7 b * 2 ^ 8 + low 7 c)
    else none

unfoldable pub set_abx : ℤ → ℤ → ℤ → Option ℕ
set_abx o a b =
    if below o 64 && below a 128
    then some (low 6 o * 2 ^ 24 + low 7 a * 2 ^ 16 + low 16 b)
    else none

-- `SetOP`, which clears the two flags as well, `SetA`, `SetBx`, `SetB` and `SetC`.
unfoldable pub set_op : ℕ → ℤ → Option ℕ
set_op i op = if below op 64 then some (i % 2 ^ 24 + low 6 op * 2 ^ 24) else none

unfoldable pub set_a : ℕ → ℤ → Option ℕ
set_a i a = if below a 128 then some (i / 2 ^ 24 * 2 ^ 24 + low 7 a * 2 ^ 16 + i % 2 ^ 16) else none

unfoldable pub set_bx : ℕ → ℤ → ℕ
set_bx i b = i / 2 ^ 16 * 2 ^ 16 + low 16 b

unfoldable pub set_b : ℕ → ℤ → Option ℕ
set_b i b = if below b 128 then some (i / 2 ^ 16 * 2 ^ 16 + low 7 b * 2 ^ 8 + i % 2 ^ 8) else none

unfoldable pub set_c : ℕ → ℤ → Option ℕ
set_c i c = if below c 128 then some (i / 2 ^ 8 * 2 ^ 8 + low 7 c) else none

-- `SetKaKb` and `SetKc`, for flags that are 0 or 1.
unfoldable pub set_ka_kb : ℕ → Bool → Bool → ℕ
set_ka_kb i ka kb = i % 2 ^ 30 + bit ka * 2 ^ 31 + bit kb * 2 ^ 30

unfoldable pub set_kc : ℕ → Bool → ℕ
set_kc i kc = i / 2 ^ 8 * 2 ^ 8 + bit kc * 2 ^ 7 + i % 2 ^ 7

-- `GetOP`, `GetKa`, `GetKb`, `GetKc`, `GetA`, `GetBx`, `GetB` and `GetC`
unfoldable pub get_op : ℕ → ℕ
get_op i = i / 2 ^ 24 % 64

unfoldable pub get_ka : ℕ → ℕ
get_ka i = i / 2 ^ 31 % 2

unfoldable pub get_kb : ℕ → ℕ
get_kb i = i / 2 ^ 30 % 2

unfoldable pub get_kc : ℕ → ℕ
get_kc i = i / 2 ^ 7 % 2

unfoldable pub get_a : ℕ → ℕ
get_a i = i / 2 ^ 16 % 128

unfoldable pub get_bx : ℕ → ℤ
get_bx i = if ltb (i % 2 ^ 16) (2 ^ 15) then pos (i % 2 ^ 16) else negsuc (2 ^ 16 - 1 - i % 2 ^ 16)

unfoldable pub get_b : ℕ → ℕ
get_b i = i / 2 ^ 8 % 128

unfoldable pub get_c : ℕ → ℕ
get_c i = i % 128

-- `struct OpInfo`: which operand is the output and which are the inputs, 1 for A, 2 for B, 3 for C,
-- 4 for Bx and 0 for none.
pub record OpInfo : Type 0 where
  pub output : ℕ
  pub output_reg : ℕ
  pub input1 : ℕ
  pub input2 : ℕ
  pub input3 : ℕ

abbrev row : ℕ → ℕ → ℕ → ℕ → ℕ → OpInfo
row o r i j k = record { output = o; output_reg = r; input1 = i; input2 = j; input3 = k }

-- `OpCode_Info`
unfoldable pub opcode_info : List OpInfo
opcode_info =
    row 1 1 2 0 0
    ∷ row 1 1 1 2 0
    ∷ row 1 1 1 0 0
    ∷ row 1 1 1 0 0
    ∷ row 1 1 2 0 0
    ∷ row 1 3 1 2 0
    ∷ row 1 3 1 2 0
    ∷ row 1 3 1 2 0
    ∷ row 1 3 1 2 0
    ∷ row 1 3 1 2 0
    ∷ row 1 3 1 2 0
    ∷ row 1 3 1 2 0
    ∷ row 1 3 1 2 0
    ∷ row 1 3 1 2 0
    ∷ row 1 3 1 2 0
    ∷ row 1 3 1 2 0
    ∷ row 1 3 1 2 0
    ∷ row 1 3 1 2 0
    ∷ row 1 3 1 2 0
    ∷ row 1 1 1 0 0
    ∷ row 1 1 1 0 0
    ∷ row 1 3 1 2 0
    ∷ row 0 0 0 0 0
    ∷ row 0 0 1 0 0
    ∷ row 0 0 1 0 0
    ∷ row 0 0 1 2 0
    ∷ row 0 0 1 2 0
    ∷ row 0 0 1 2 0
    ∷ row 0 0 1 2 0
    ∷ row 0 0 1 2 0
    ∷ row 0 0 1 2 0
    ∷ row 1 3 2 0 0
    ∷ row 0 0 2 0 0
    ∷ row 0 0 2 0 0
    ∷ row 0 0 1 0 0
    ∷ row 0 0 1 0 0
    ∷ row 0 0 1 2 0
    ∷ row 0 0 0 0 0
    ∷ row 1 2 1 0 0
    ∷ row 1 3 2 0 0
    ∷ row 0 0 2 0 0
    ∷ row 0 0 2 0 0
    ∷ row 1 3 1 2 0
    ∷ row 0 0 1 2 3
    ∷ row 0 0 1 2 3
    ∷ row 0 0 1 2 0
    ∷ row 1 3 0 0 0
    ∷ row 1 1 1 0 0
    ∷ row 0 0 1 0 0
    ∷ row 0 0 1 2 3
    ∷ row 0 0 1 2 3
    ∷ []

-- The `switch` of `OpCode_get_output` and `OpCode_get_input1` to `3`.
unfoldable pub operand : ℕ → ℕ → ℤ
operand which i =
    if which == 1
    then pos (get_a i)
    else if which == 2
    then pos (get_b i)
    else if which == 3
    then pos (get_c i)
    else if which == 4
    then get_bx i
    else negsuc 0

-- `OpCode_get_output`; `none` is a read past the end of `OpCode_Info`.
unfoldable pub get_output : ℕ → Option ℤ
get_output i = elim (get_elem? opcode_info (get_op i)) [
  | none ↦ none
  | some r ↦ some (if r.output == 0 then negsuc 0 else operand r.output_reg i)
]

-- `OpCode_get_input1`, `2` and `3`
unfoldable pub get_input : (OpInfo → ℕ) → ℕ → Option ℤ
get_input input i = elim (get_elem? opcode_info (get_op i)) [
  | none ↦ none
  | some r ↦ some (operand (input r) i)
]

unfoldable pub get_input1 : ℕ → Option ℤ
get_input1 i = get_input OpInfo.input1 i

unfoldable pub get_input2 : ℕ → Option ℤ
get_input2 i = get_input OpInfo.input2 i

unfoldable pub get_input3 : ℕ → Option ℤ
get_input3 i = get_input OpInfo.input3 i
