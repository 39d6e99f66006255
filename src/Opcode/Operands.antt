-- ===== src/Opcode/Operands.antt =====
-- The operand table of rbtlib/opcode.c: rows, registers, and the opcode without a row.
use smart_rabbit_server.Base.{
  ℕ, zero, suc, ◌<◌, ◌≤◌, ◌≡◌, refl, ap, ◌∙◌, ◌⊎◌, inl, inr, Bool, true, false, ◌&&◌, Option, none,
  some, List, [], ◌∷◌, leb, ◌==◌, if◌then◌else◌, get_elem?, some-get_elem?, length, arith,
}
use smart_rabbit_server.Base.Int.{ℤ, pos, negsuc}
use smart_rabbit_server.Opcode.{
  OpCode, mov, setnil, setfalse, settrue, loadk, add, minus, multi, div, remainder, and, or,
  concatenate, gt, lt, ge, le, eq, ne, not, len, cmp, jmp, jtrue, jfalse, jgt, jlt, jge, jle, jeq,
  jne, getglobal, setglobal, setglobalnil, init_call, call, return, close, closure, getupval,
  setupval, setupvalnil, gettable, settable, settable_nextnum, settable_nil, newtable, value,
  foreach_begin, foreach, foreach_nokey, closure_global, code, set_abc, get_op, get_a, get_b, get_c,
  OpInfo, opcode_info, operand, get_output, get_input, get_input1, get_input2, get_input3,
}
use smart_rabbit_server.Opcode.Fields.{set_abc-Reads}

-- The opcodes that header comments describe as `RA op RB --> RC`.
abbrev pub binary : OpCode → Bool
binary mov = false
binary setnil = false
binary setfalse = false
binary settrue = false
binary loadk = false
binary add = true
binary minus = true
binary multi = true
binary div = true
binary remainder = true
binary and = true
binary or = true
binary concatenate = true
binary gt = true
binary lt = true
binary ge = true
binary le = true
binary eq = true
binary ne = true
binary not = false
binary len = false
binary cmp = true
binary jmp = false
binary jtrue = false
binary jfalse = false
binary jgt = false
binary jlt = false
binary jge = false
binary jle = false
binary jeq = false
binary jne = false
binary getglobal = false
binary setglobal = false
binary setglobalnil = false
binary init_call = false
binary call = false
binary return = false
binary close = false
binary closure = false
binary getupval = false
binary setupval = false
binary setupvalnil = false
binary gettable = false
binary settable = false
binary settable_nextnum = false
binary settable_nil = false
binary newtable = false
binary value = false
binary foreach_begin = false
binary foreach = false
binary foreach_nokey = false
binary closure_global = false

-- Every opcode but `CLOSURE_GLOBAL` has a row.
pub row-exists : (o : OpCode) → (o ≡ closure_global) ⊎ (code o < length opcode_info)
unfolding code opcode_info
row-exists mov = inr (omega arith)
row-exists setnil = inr (omega arith)
row-exists setfalse = inr (omega arith)
row-exists settrue = inr (omega arith)
row-exists loadk = inr (omega arith)
row-exists add = inr (omega arith)
row-exists minus = inr (omega arith)
row-exists multi = inr (omega arith)
row-exists div = inr (omega arith)
row-exists remainder = inr (omega arith)
row-exists and = inr (omega arith)
row-exists or = inr (omega arith)
row-exists concatenate = inr (omega arith)
row-exists gt = inr (omega arith)
row-exists lt = inr (omega arith)
row-exists ge = inr (omega arith)
row-exists le = inr (omega arith)
row-exists eq = inr (omega arith)
row-exists ne = inr (omega arith)
row-exists not = inr (omega arith)
row-exists len = inr (omega arith)
row-exists cmp = inr (omega arith)
row-exists jmp = inr (omega arith)
row-exists jtrue = inr (omega arith)
row-exists jfalse = inr (omega arith)
row-exists jgt = inr (omega arith)
row-exists jlt = inr (omega arith)
row-exists jge = inr (omega arith)
row-exists jle = inr (omega arith)
row-exists jeq = inr (omega arith)
row-exists jne = inr (omega arith)
row-exists getglobal = inr (omega arith)
row-exists setglobal = inr (omega arith)
row-exists setglobalnil = inr (omega arith)
row-exists init_call = inr (omega arith)
row-exists call = inr (omega arith)
row-exists return = inr (omega arith)
row-exists close = inr (omega arith)
row-exists closure = inr (omega arith)
row-exists getupval = inr (omega arith)
row-exists setupval = inr (omega arith)
row-exists setupvalnil = inr (omega arith)
row-exists gettable = inr (omega arith)
row-exists settable = inr (omega arith)
row-exists settable_nextnum = inr (omega arith)
row-exists settable_nil = inr (omega arith)
row-exists newtable = inr (omega arith)
row-exists value = inr (omega arith)
row-exists foreach_begin = inr (omega arith)
row-exists foreach = inr (omega arith)
row-exists foreach_nokey = inr (omega arith)
row-exists closure_global = inl refl

code_lt : (o : OpCode) → code o < 64
unfolding code
code_lt mov = omega arith
code_lt setnil = omega arith
code_lt setfalse = omega arith
code_lt settrue = omega arith
code_lt loadk = omega arith
code_lt add = omega arith
code_lt minus = omega arith
code_lt multi = omega arith
code_lt div = omega arith
code_lt remainder = omega arith
code_lt and = omega arith
code_lt or = omega arith
code_lt concatenate = omega arith
code_lt gt = omega arith
code_lt lt = omega arith
code_lt ge = omega arith
code_lt le = omega arith
code_lt eq = omega arith
code_lt ne = omega arith
code_lt not = omega arith
code_lt len = omega arith
code_lt cmp = omega arith
code_lt jmp = omega arith
code_lt jtrue = omega arith
code_lt jfalse = omega arith
code_lt jgt = omega arith
code_lt jlt = omega arith
code_lt jge = omega arith
code_lt jle = omega arith
code_lt jeq = omega arith
code_lt jne = omega arith
code_lt getglobal = omega arith
code_lt setglobal = omega arith
code_lt setglobalnil = omega arith
code_lt init_call = omega arith
code_lt call = omega arith
code_lt return = omega arith
code_lt close = omega arith
code_lt closure = omega arith
code_lt getupval = omega arith
code_lt setupval = omega arith
code_lt setupvalnil = omega arith
code_lt gettable = omega arith
code_lt settable = omega arith
code_lt settable_nextnum = omega arith
code_lt settable_nil = omega arith
code_lt newtable = omega arith
code_lt value = omega arith
code_lt foreach_begin = omega arith
code_lt foreach = omega arith
code_lt foreach_nokey = omega arith
code_lt closure_global = omega arith

no_row : get_elem? opcode_info (code closure_global) ≡ none
unfolding code opcode_info
no_row = refl

abbrev binary_row : OpInfo
binary_row = record { output = 1; output_reg = 3; input1 = 1; input2 = 2; input3 = 0 }

row-binary : (o : OpCode) → binary o ≡ true → get_elem? opcode_info (code o) ≡ some binary_row
unfolding code opcode_info
row-binary mov e = ground arith
row-binary setnil e = ground arith
row-binary setfalse e = ground arith
row-binary settrue e = ground arith
row-binary loadk e = ground arith
row-binary add e = refl
row-binary minus e = refl
row-binary multi e = refl
row-binary div e = refl
row-binary remainder e = refl
row-binary and e = refl
row-binary or e = refl
row-binary concatenate e = refl
row-binary gt e = refl
row-binary lt e = refl
row-binary ge e = refl
row-binary le e = refl
row-binary eq e = refl
row-binary ne e = refl
row-binary not e = ground arith
row-binary len e = ground arith
row-binary cmp e = refl
row-binary jmp e = ground arith
row-binary jtrue e = ground arith
row-binary jfalse e = ground arith
row-binary jgt e = ground arith
row-binary jlt e = ground arith
row-binary jge e = ground arith
row-binary jle e = ground arith
row-binary jeq e = ground arith
row-binary jne e = ground arith
row-binary getglobal e = ground arith
row-binary setglobal e = ground arith
row-binary setglobalnil e = ground arith
row-binary init_call e = ground arith
row-binary call e = ground arith
row-binary return e = ground arith
row-binary close e = ground arith
row-binary closure e = ground arith
row-binary getupval e = ground arith
row-binary setupval e = ground arith
row-binary setupvalnil e = ground arith
row-binary gettable e = ground arith
row-binary settable e = ground arith
row-binary settable_nextnum e = ground arith
row-binary settable_nil e = ground arith
row-binary newtable e = ground arith
row-binary value e = ground arith
row-binary foreach_begin e = ground arith
row-binary foreach e = ground arith
row-binary foreach_nokey e = ground arith
row-binary closure_global e = ground arith

get_output-row :
    (i : ℕ) (r : OpInfo)
    → get_elem? opcode_info (get_op i) ≡ some r
    → get_output i ≡ some (if r.output == 0 then negsuc 0 else operand r.output_reg i)
unfolding get_output
get_output-row i r e = rw (e, get_output) refl

get_input-row :
    (input : OpInfo → ℕ) (i : ℕ) (r : OpInfo)
    → get_elem? opcode_info (get_op i) ≡ some r
    → get_input input i ≡ some (operand (input r) i)
unfolding get_input
get_input-row input i r e = rw (e, get_input) refl

inputs-row :
    (i : ℕ) (r : OpInfo)
    → get_elem? opcode_info (get_op i) ≡ some r
    → (get_input1 i ≡ some (operand r.input1 i))
      × (get_input2 i ≡ some (operand r.input2 i))
      × (get_input3 i ≡ some (operand r.input3 i))
unfolding get_input1 get_input2 get_input3
inputs-row i r e = (
  get_input-row OpInfo.input1 i r e,
  get_input-row OpInfo.input2 i r e,
  get_input-row OpInfo.input3 i r e,
)

no-row_input :
    (input : OpInfo → ℕ) (i : ℕ)
    → get_elem? opcode_info (get_op i) ≡ none
    → get_input input i ≡ none
unfolding get_input
no-row_input input i e = rw (e, get_input) refl

no-row :
    (i : ℕ)
    → get_elem? opcode_info (get_op i) ≡ none
    → (get_output i ≡ none) × (get_input1 i ≡ none) × (get_input2 i ≡ none) × (get_input3 i ≡ none)
unfolding get_output get_input1 get_input2 get_input3
no-row i e = (
  rw (e, get_output) refl,
  no-row_input OpInfo.input1 i e,
  no-row_input OpInfo.input2 i e,
  no-row_input OpInfo.input3 i e,
)

binary-row_operands :
    (i a b c : ℕ)
    → get_elem? opcode_info (get_op i) ≡ some binary_row
    → get_a i ≡ a
    → get_b i ≡ b
    → get_c i ≡ c
    → (get_output i ≡ some (pos c))
      × (get_input1 i ≡ some (pos a))
      × (get_input2 i ≡ some (pos b))
      × (get_input3 i ≡ some (negsuc 0))
unfolding operand
binary-row_operands i a b c e ra rb rc =
    let (x, y, z) = inputs-row i binary_row e in
    let p : ℕ → Option ℤ = λ n. some (pos n) in
    (get_output-row i binary_row e ∙ ap p rc, x ∙ ap p ra, y ∙ ap p rb, z)

-- An instruction that `SetABC` makes from a binary opcode and registers below 128 has A and B as
-- its first two inputs, no third input, and C as its output.
pub binary-operands :
    (o : OpCode) (a b c : ℕ)
    → binary o ≡ true
    → a < 128
    → b < 128
    → c < 128
    → (i : ℕ) × (set_abc (pos (code o)) (pos a) (pos b) (pos c) ≡ some i)
      × ((get_output i ≡ some (pos c))
          × (get_input1 i ≡ some (pos a))
          × (get_input2 i ≡ some (pos b))
          × (get_input3 i ≡ some (negsuc 0)))
binary-operands o a b c e ha hb hc =
    let (i, m, (w, ro, ka, kb, ra, rb, kc, rc)) =
      set_abc-Reads (code o) a b c (code_lt o) ha hb hc in
    (i, m, binary-row_operands i a b c (ap (get_elem? opcode_info) ro ∙ row-binary o e) ra rb rc)

-- For an instruction that `SetABC` makes from `CLOSURE_GLOBAL` and registers below 128, each of
-- the four operand functions reads past the end of the table.
pub closure_global-overrun :
    (a b c : ℕ)
    → a < 128
    → b < 128
    → c < 128
    → (i : ℕ) × (set_abc (pos (code closure_global)) (pos a) (pos b) (pos c) ≡ some i)
      × ((get_output i ≡ none)
          × (get_input1 i ≡ none)
          × (get_input2 i ≡ none)
          × (get_input3 i ≡ none))
closure_global-overrun a b c ha hb hc =
    let (i, m, (w, ro, _, _, _, _, _, _)) =
      set_abc-Reads (code closure_global) a b c (code_lt closure_global) ha hb hc in
    (i, m, no-row i (ap (get_elem? opcode_info) ro ∙ no_row))

-- A register that a row names, or -1.
abbrev pub IsOperand : ℕ → ℤ → Type 0
IsOperand i x = (x ≡ negsuc 0) ⊎ ((x ≡ pos (get_a i)) ⊎ ((x ≡ pos (get_b i)) ⊎ (x ≡ pos (get_c i))))

abbrev narrow : OpInfo → Bool
narrow r = leb r.output_reg 3 && (leb r.input1 3 && (leb r.input2 3 && leb r.input3 3))

abbrev all : List OpInfo → Bool
all [] = true
all (r ∷ rs) = narrow r && all rs

all-get_elem? :
    (rs : List OpInfo) (k : ℕ) (r : OpInfo)
    → all rs ≡ true
    → get_elem? rs k ≡ some r
    → narrow r ≡ true
all-get_elem? [] k r h e = ground arith
all-get_elem? (x ∷ rs) zero r h e = ground arith
all-get_elem? (x ∷ rs) (suc k) r h e = all-get_elem? rs k r (ground arith) e

all_narrow : all opcode_info ≡ true
unfolding opcode_info
all_narrow = refl

operand-IsOperand : (which i : ℕ) → which ≤ 3 → IsOperand i (operand which i)
unfolding operand
operand-IsOperand which i h = ground arith

output-IsOperand :
    (i : ℕ) (r : OpInfo)
    → r.output_reg ≤ 3
    → IsOperand i (if r.output == 0 then negsuc 0 else operand r.output_reg i)
unfolding operand
output-IsOperand i r h = ground arith

-- For an instruction whose opcode has a row, each of the four operand functions stays in the
-- table and answers field A, B or C of the instruction, or -1.
pub operands-in_range :
    (i : ℕ)
    → get_op i < length opcode_info
    → (o x y z : ℤ) × (get_output i ≡ some o)
      × (get_input1 i ≡ some x)
      × (get_input2 i ≡ some y)
      × (get_input3 i ≡ some z)
      × IsOperand i o
      × IsOperand i x
      × IsOperand i y
      × IsOperand i z
operands-in_range i h =
    let (r, e) = some-get_elem? opcode_info (get_op i) h in
    let n = all-get_elem? opcode_info (get_op i) r all_narrow e in
    let (x, y, z) = inputs-row i r e in
    (
      (if r.output == 0 then negsuc 0 else operand r.output_reg i),
      operand r.input1 i,
      operand r.input2 i,
      operand r.input3 i,
      get_output-row i r e,
      x,
      y,
      z,
      output-IsOperand i r (ground arith),
      operand-IsOperand r.input1 i (ground arith),
      operand-IsOperand r.input2 i (ground arith),
      operand-IsOperand r.input3 i (ground arith),
    )
