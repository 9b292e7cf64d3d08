-- ===== src/Riscv/Asm.antt =====
-- riscv/src/large_field/code_gen.rs: the statements that the code generator writes, and its helpers.
--
-- The source prints each statement and the assembly's parser reads it back; here a statement is what
-- is read.
use powdr.Prelude.{ℕ, ◌+◌, List, [], ◌∷◌, if◌then◌else◌}
use powdr.Prelude.Int.{ℤ, pos, negsuc}
use powdr.Executor.Names.{Instruction}
use powdr.Executor.Run.{Expression, Statement, number, minus}
use powdr.Riscv.Instr.{Register, is_zero_register, tmp1}

abbrev pub statement : Instruction → List Expression → Statement
statement i args = record { instruction = i; inputs = args }

-- A literal that the parser reads as a signed number.
abbrev pub signed : ℤ → Expression
signed (pos n) = number n
signed (negsuc n) = minus (number (n + 1))

unfoldable pub only_if_no_write_to_zero_vec : Register → List Statement → List Statement
unfolding is_zero_register
only_if_no_write_to_zero_vec reg statements = if is_zero_register reg then [] else statements

unfoldable pub only_if_no_write_to_zero : Register → Statement → List Statement
unfolding only_if_no_write_to_zero_vec
only_if_no_write_to_zero reg s = only_if_no_write_to_zero_vec reg (s ∷ [])

-- A statement whose arguments are all numbers, such as register addresses.
abbrev pub numbers : List ℕ → List Expression
numbers [] = []
numbers (n ∷ ns) = number n ∷ numbers ns

abbrev pub stm : Instruction → List ℕ → Statement
stm i args = statement i (numbers args)

unfoldable pub push_register : Register → List Statement
push_register reg =
    statement Instruction.add_wrap (number 2 ∷ number 0 ∷ minus (number 4) ∷ number 2 ∷ [])
    ∷ stm Instruction.mstore (2 ∷ 0 ∷ 0 ∷ reg ∷ [])
    ∷ []

unfoldable pub pop_register : Register → List Statement
pop_register reg =
    stm Instruction.mload (2 ∷ 0 ∷ reg ∷ tmp1 ∷ [])
    ∷ stm Instruction.add_wrap (2 ∷ 0 ∷ 4 ∷ 2 ∷ [])
    ∷ []
