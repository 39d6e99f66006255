-- ===== src/Opcode/Tests.antt =====
-- Instructions of rbtlib/opcode.h at concrete operands.
use smart_rabbit_server.Base.{ℕ, ◌<◌, ◌≡◌, refl, none, some, arith, length, true, ◌^◌}
use smart_rabbit_server.Base.Int.{ℤ, pos, negsuc}
use smart_rabbit_server.Opcode.{
  add, closure_global, code, set_abc, set_abx, set_op, set_bx, set_b, set_c, set_ka_kb, set_kc, low,
  below, get_op, get_ka, get_kb, get_kc, get_a, get_bx, get_b, get_c, opcode_info, get_output,
  get_input1, get_input2, get_input3,
}
use smart_rabbit_server.Opcode.Fields.{Fields, Reads, set_abc-Reads, set_op-Reads, get_bx-set_bx}
use smart_rabbit_server.Opcode.Operands.{
  IsOperand, binary-operands, closure_global-overrun, operands-in_range,
}

-- `ADD RA(3) RB(5) RC(7)`
abbrev sum : ℕ
sum = 84083975

set_abc_run : set_abc (pos (code add)) (pos 3) (pos 5) (pos 7) ≡ some sum
unfolding set_abc below low code
set_abc_run = refl

sum_row : get_op sum < length opcode_info
unfolding get_op opcode_info
sum_row = omega arith

abbrev sum_fields : Fields
sum_fields = record { op = 5; ka = 0; kb = 0; a = 3; b = 5; kc = 0; c = 7 }

sum-Reads : Reads sum sum_fields
unfolding get_op get_ka get_kb get_kc get_a get_b get_c
sum-Reads = (omega arith, refl, refl, refl, refl, refl, refl, refl)

setters_run :
    (set_b sum (pos 1) ≡ some 84082951)
    × (set_c sum (pos 0) ≡ some 84083968)
    × (set_abx (pos 1) (pos 2) (negsuc 0) ≡ some 16973823)
    × (set_kc sum true ≡ 84084103)
    × (set_ka_kb sum true true ≡ 3305309447)
unfolding set_b set_c set_abx set_kc set_ka_kb below low
setters_run = (refl, refl, refl, refl, refl)

set_abc-Reads_example :
    (i : ℕ) × (set_abc (pos 5) (pos 3) (pos 5) (pos 7) ≡ some i)
    × Reads i (record { op = 5; ka = 0; kb = 0; a = 3; b = 5; kc = 0; c = 7 })
set_abc-Reads_example =
    set_abc-Reads 5 3 5 7 (omega arith) (omega arith) (omega arith) (omega arith)

set_op-Reads_example :
    (i : ℕ) × (set_op sum (pos 6) ≡ some i) × Reads i (record sum_fields { op = 6; ka = 0; kb = 0 })
set_op-Reads_example = set_op-Reads sum 6 sum_fields sum-Reads (omega arith)

get_bx-set_bx_example :
    (get_bx (set_bx sum (negsuc 4)) ≡ negsuc 4)
    × (set_bx sum (negsuc 4) < 2 ^ 32)
    × (get_op (set_bx sum (negsuc 4)) ≡ get_op sum)
    × (get_ka (set_bx sum (negsuc 4)) ≡ get_ka sum)
    × (get_kb (set_bx sum (negsuc 4)) ≡ get_kb sum)
    × (get_a (set_bx sum (negsuc 4)) ≡ get_a sum)
get_bx-set_bx_example = get_bx-set_bx sum (negsuc 4) (omega arith) (omega arith) (omega arith)

binary-operands_example :
    (i : ℕ) × (set_abc (pos (code add)) (pos 3) (pos 5) (pos 7) ≡ some i)
    × ((get_output i ≡ some (pos 7))
        × (get_input1 i ≡ some (pos 3))
        × (get_input2 i ≡ some (pos 5))
        × (get_input3 i ≡ some (negsuc 0)))
binary-operands_example = binary-operands add 3 5 7 refl (omega arith) (omega arith) (omega arith)

closure_global-overrun_example :
    (i : ℕ) × (set_abc (pos (code closure_global)) (pos 1) (pos 2) (pos 0) ≡ some i)
    × ((get_output i ≡ none)
        × (get_input1 i ≡ none)
        × (get_input2 i ≡ none)
        × (get_input3 i ≡ none))
closure_global-overrun_example =
    closure_global-overrun 1 2 0 (omega arith) (omega arith) (omega arith)

operands-in_range_example :
    (o x y z : ℤ) × (get_output sum ≡ some o)
    × (get_input1 sum ≡ some x)
    × (get_input2 sum ≡ some y)
    × (get_input3 sum ≡ some z)
    × IsOperand sum o
    × IsOperand sum x
    × IsOperand sum y
    × IsOperand sum z
operands-in_range_example = operands-in_range sum sum_row
