-- ===== src/Tests/Executor.antt =====
-- The executor's properties on a concrete machine.
use mathlib.Core.List.{Perm}
use powdr.Prelude.{
  map, ◌++◌, ◌+◌, ◌-◌, ◌*◌, ◌/◌, ◌^◌, ◌%◌, ◌<◌, ◌≡◌, refl, arith, [], ◌∷◌, none, some,
  if◌then◌else◌, inl, inr, true, List, length, ◌==◌,
}
use powdr.Prelude.Int.{pos, negsuc, ltb_ℤ, ◌-ℤ◌}
use powdr.Executor.Elem.{binary}
use powdr.Executor.Proc.{read_reg}
use powdr.Executor.Names.{Instruction}
use powdr.Executor.State.{State, outcome}
use powdr.Executor.Instr.Words.{exec_add_wrap, exec_sub_wrap_with_offset}
use powdr.Executor.Instr.Arith.{exec_divremu, exec_mul}
use powdr.Executor.Instr.Memory.{exec_mload, exec_mstore}
use powdr.Executor.Instr.Compare.{exec_is_diff_greater_than}
use powdr.Executor.Instr.Jump.{
  exec_jump_dyn, exec_branch_if_diff_nonzero, exec_branch_if_diff_greater_than,
}
use powdr.Executor.Laws.{word, with_reg, Changes}
use powdr.Executor.Laws.Words.{exec_add_wrap_lem, exec_sub_wrap_lem}
use powdr.Executor.Laws.Arith.{exec_divremu_lem, exec_mul_lem}
use powdr.Executor.Laws.Memory.{mstore_lem, exec_mload_lem, with_mem, load_word}
use powdr.Executor.Laws.Compare.{exec_is_diff_greater_than_lem}
use powdr.Executor.Laws.Jump.{jump_dyn_lem, jump_to}
use powdr.Executor.Laws.Branch.{
  exec_branch_if_diff_nonzero_lem, exec_branch_if_diff_greater_than_lem, same_integer,
}
use powdr.Executor.Memory.{Op, Row, finish, last_op, sort_ops, insert_op}
use powdr.Executor.Memory.Sorted.{distinct, fresh, all_fit}
use powdr.Executor.Memory.Rows.{AllFollow, last_change, finish-AllFollow}
use powdr.Executor.Memory.Contents.{row_access, op_access, all_idle, finish-Perm}
use powdr.Executor.Memory.LastRow.{finish-last_change}
use powdr.Tests.Machine.{machine, reads_5, reads_6, reads_7}

-- Register 10 holds the number of a batch.
abbrev at_4 : State
at_4 = record machine { core = with_reg 10 (word 4) machine.core }

exec_add_wrap_lem_example :
    Changes
      (exec_add_wrap (word 5 ∷ word 6 ∷ word 1 ∷ word 8 ∷ []))
      machine
      none
      (with_reg 8 (word ((0xfffffff0 + 100 + 1) % 2 ^ 32)) machine.core)
exec_add_wrap_lem_example =
    exec_add_wrap_lem machine 5 6 8 (omega arith) (omega arith) (omega arith) 0xfffffff0 100 1
      reads_5 reads_6 (omega arith)

exec_sub_wrap_lem_example :
    Changes
      (exec_sub_wrap_with_offset (word 6 ∷ word 5 ∷ binary (negsuc 0) ∷ word 8 ∷ []))
      machine
      none
      (with_reg 8 (word ((100 + 2 ^ 32 - 0xfffffff0 - 1) % 2 ^ 32)) machine.core)
exec_sub_wrap_lem_example =
    exec_sub_wrap_lem machine 6 5 8 (omega arith) (omega arith) (omega arith) 100 0xfffffff0
      (negsuc 0) reads_6 reads_5 (omega arith) (omega arith) (inr refl)

exec_divremu_lem_example :
    Changes (exec_divremu (word 6 ∷ word 7 ∷ word 8 ∷ word 9 ∷ [])) machine none (
      with_reg 9
        (word (if 35 == 0 then 100 else 100 % 35))
        (with_reg 8 (word (if 35 == 0 then 2 ^ 32 - 1 else 100 / 35)) machine.core))
exec_divremu_lem_example =
    exec_divremu_lem machine 6 7 8 9 (omega arith) (omega arith) (omega arith) (omega arith) 100 35
      reads_6 reads_7 (omega arith) (omega arith)

exec_mul_lem_example : Changes (exec_mul (word 5 ∷ word 6 ∷ word 8 ∷ word 9 ∷ [])) machine none (
    with_reg 9
      (word (0xfffffff0 * 100 / 2 ^ 32 % 2 ^ 32))
      (with_reg 8 (word (0xfffffff0 * 100 % 2 ^ 32)) machine.core))
exec_mul_lem_example =
    exec_mul_lem machine 5 6 8 9 (omega arith) (omega arith) (omega arith) (omega arith) 0xfffffff0
      100 reads_5 reads_6 (omega arith) (omega arith)

mstore_lem_example :
    outcome (exec_mstore Instruction.mstore (word 6 ∷ word 0 ∷ word 4 ∷ word 7 ∷ []) machine)
    ≡ some (none, with_mem ((100 + 4 - 0) % 2 ^ 32) 35 machine.core)
mstore_lem_example =
    mstore_lem machine 6 0 7 (omega arith) (omega arith) (omega arith) Instruction.mstore 100 0 4 35
      reads_6 (unfold read_reg in refl) reads_7 (omega arith) (omega arith) (omega arith)
      (omega arith) (omega arith) refl

exec_mload_lem_example :
    Changes (exec_mload (word 6 ∷ word 2 ∷ word 8 ∷ word 9 ∷ [])) machine none (
      with_reg 9
        (word ((100 + 2) % 4))
        (with_reg 8 (word (load_word machine.core ((100 + 2) % 2 ^ 32 / 4 * 4))) machine.core))
exec_mload_lem_example =
    exec_mload_lem machine 6 8 9 (omega arith) (omega arith) (omega arith) 100 2 reads_6
      (omega arith) (omega arith)

exec_is_diff_greater_than_lem_example :
    Changes
      (exec_is_diff_greater_than (word 6 ∷ word 7 ∷ binary (pos 0) ∷ word 8 ∷ []))
      machine
      none
      (with_reg 8 (word (if ltb_ℤ (pos 0) (pos 100 -ℤ pos 35 -ℤ pos 0) then 1 else 0)) machine.core)
exec_is_diff_greater_than_lem_example =
    exec_is_diff_greater_than_lem machine 6 7 8 (omega arith) (omega arith) (omega arith) (pos 100)
      (pos 35) (pos 0) reads_6 reads_7 (omega arith, omega arith) (omega arith, omega arith)

jump_dyn_lem_example :
    outcome (exec_jump_dyn (word 10 ∷ word 1 ∷ []) at_4)
    ≡ some (none, jump_to 4 12 (with_reg 1 (word (2 + 1)) at_4.core))
jump_dyn_lem_example =
    jump_dyn_lem at_4 10 1 4 12 (omega arith) (omega arith) (omega arith) refl 2 refl (omega arith)
      (unfold read_reg in refl)

exec_branch_if_diff_nonzero_lem_example :
    Changes
      (exec_branch_if_diff_nonzero (word 6 ∷ word 7 ∷ word 4 ∷ []))
      machine
      none
      (if same_integer (pos 100) (pos 35) then machine.core else jump_to 4 12 machine.core)
exec_branch_if_diff_nonzero_lem_example =
    exec_branch_if_diff_nonzero_lem machine 6 7 4 12 (omega arith) (omega arith) (omega arith) refl
      (pos 100) (pos 35) reads_6 reads_7 (omega arith, omega arith)

exec_branch_if_diff_greater_than_lem_example :
    Changes
      (exec_branch_if_diff_greater_than (word 6 ∷ word 7 ∷ binary (negsuc 0) ∷ word 4 ∷ []))
      machine
      none
      (if ltb_ℤ (pos 0) (pos 100 -ℤ pos 35 -ℤ negsuc 0)
        then jump_to 4 12 machine.core
        else machine.core)
exec_branch_if_diff_greater_than_lem_example =
    exec_branch_if_diff_greater_than_lem machine 6 7 4 12 (omega arith) (omega arith) (omega arith)
      refl (pos 100) (pos 35) (negsuc 0) reads_6 reads_7 (omega arith, omega arith)
      (omega arith, omega arith)

-- Three memory operations, two of them at one address.
abbrev three_ops : List Op
three_ops =
    record { addr = 8; step = 5; value = 3; write = 1; selector_idx = 0 }
    ∷ record { addr = 4; step = 70009; value = 6; write = 1; selector_idx = 1 }
    ∷ record { addr = 8; step = 2; value = 0; write = 0; selector_idx = 0 }
    ∷ []

three_ops-distinct : distinct three_ops ≡ true
unfolding distinct fresh
three_ops-distinct = refl

three_ops-fit : all_fit three_ops ≡ true
unfolding all_fit
three_ops-fit = refl

step_8-fits : (last_op 2 (sort_ops [] three_ops)).step + 1 + (8 - length three_ops) < 2 ^ 32
unfolding sort_ops last_op insert_op
step_8-fits = omega arith

finish-AllFollow_example :
    (rows : List Row) × (finish 2 three_ops 8 ≡ some rows) × (length rows ≡ 8) × AllFollow rows
finish-AllFollow_example =
    finish-AllFollow 2 three_ops 8 three_ops-distinct three_ops-fit (omega arith) (inr step_8-fits)

finish-last_change_example :
    (rows : List Row) × (finish 2 three_ops 3 ≡ some rows)
    × (last_change rows ≡ (if length three_ops == 3 then 0 else 1))
finish-last_change_example = finish-last_change 2 three_ops 3 (omega arith) (inl refl)

finish-Perm_example :
    (rows more : List Row) × (finish 2 three_ops 8 ≡ some (rows ++ more))
    × Perm (map row_access rows) (map op_access three_ops)
    × (all_idle more ≡ true)
finish-Perm_example = finish-Perm 2 three_ops 8 (omega arith) (inr step_8-fits)
