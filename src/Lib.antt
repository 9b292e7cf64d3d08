-- ===== src/Lib.antt =====
-- The RISC-V virtual machine of powdr: its field, the interpreter of its assembly, and the code
-- generator that translates RISC-V instructions into that assembly; the trace of its memory machine,
-- the Merkle tree over its memory, and the range constraints with which witnesses are generated.
--
-- A RISC-V program is translated by `process_instruction` into statements of a register machine whose
-- instructions are those of powdr's RISC-V machine; `exec_instruction` of the executor interprets the
-- statements and, in witness mode, records the columns and lookups of which a proof is made. The
-- values of the machine are integers or elements of the Goldilocks field.
--
-- The files and the code they model:
--   Prelude.antt, Prelude/   shared names, tests into Bool, integers with Rust's casts, bit operations
--   Goldilocks.antt          number/src/goldilocks.rs, `to_signed_integer` of number/src/traits.rs;
--                            Arith (the operators), Power (inverse, division, `pow`), Convert
--   Executor/Names.antt      riscv-executor/src/lib.rs: the enumerations made by macros
--   Executor/Elem.antt       `Elem` and its operations
--   Executor/State.antt      the state of `TraceBuilder`, `ExecutionTrace` and `Executor`
--   Executor/Proc.antt       the methods of `TraceBuilder`; `reg_read`, `reg_write`, `instr_link_id`
--   Executor/Instr/          the arms of `exec_instruction`, one function `exec_<instruction>` each
--   Executor/Dispatch.antt   `exec_instruction`
--   Executor/Run.antt        `eval_expression`, an instruction statement of the main loop, `advance`
--   Executor/Laws/           what each arm does to the state
--   Riscv/Instr.antt         the instructions that the code generator takes; Riscv/Register.antt the
--                            text of a register, both of riscv/src/code_gen.rs
--   Riscv/Asm.antt, Blocks.antt, Access.antt, CodeGen.antt
--                            riscv/src/large_field/code_gen.rs: `process_instruction`
--   Riscv/Sequence.antt      straight-line code, and what its statements do
--   Riscv/Spec.antt          RV32IM on 32-bit words, written without the code
--   Riscv/Alu/               the generated code against that specification
--   Riscv/LoadSpec.antt, Load.antt
--                            the loads
--   Riscv/Branch.antt, Branch/
--                            the branches on two registers
--   Executor/Memory.antt, Memory/
--                            riscv-executor/src/memory.rs: the trace of the memory machine (`finish`);
--                            its sort, the added rows (Padding), its rows against the
--                            machine's constraints, its last row, and its rows against the
--                            recorded operations (Contents)
--   Continuations/MerkleTree.antt
--                            riscv/src/continuations/memory_merkle_tree.rs: the tree's state and all
--                            its operations
--   Continuations/MerkleTree/
--                            Nodes (what a node should hold), Levels and Inner (the loops over the
--                            levels), Pages, Words and Updates (the loops over the pages), Batch
--                            (`update`), Proofs (`get`)
--   Witgen/RangeConstraint.antt, Combine.antt
--                            executor/src/witgen/range_constraints.rs, `log2_exact` of number/src/lib.rs
--   Witgen/Masks.antt, Intervals.antt
--                            what a mask and an interval admit; Sums, Intersections, Unions, Multiples,
--                            Splits and Validity use them on the operations
--   Witgen/PaddedBits.antt, PaddedBits/
--                            executor/src/witgen/data_structures/padded_bitvec.rs; Masking (one bit of a
--                            word), Access (positions), Flags (`get` and `set`), Shapes
--   Witgen/Expression.antt, Expression/
--                            executor/src/witgen/jit/symbolic_expression.rs: the operators that build
--                            and simplify expressions, and the values of expressions (Meaning)
--   Tests.antt, Tests/       runs at concrete inputs
--
-- How the code is modelled. A method that changes state is a function of the monad `M`, from the state
-- to a result and a state; `none` is a panic. `Core` is the part of the state on which the further
-- execution depends, `Trace` what is recorded, and `outcome` keeps the former alone, `except_log` all but the latter. The plain operators on
-- i64 and u32 panic when the result does not fit; the field's u64 operators wrap, as in a release
-- build. A hash map is a function into Option. The clock `step` is not bounded to 32 bits. The newest
-- row of `known_cols` stands apart from the finished ones. `pow_loop` runs on fuel 64, enough for an
-- exponent of 64 bits.
--
-- A range constraint is that of the Goldilocks field, its mask a u64. In the Merkle tree an array is a
-- list and a map a function into Option, and `none` is a failed assertion or an index out of range; the
-- depth, the page size and the permutation under `hash_cap0` are arguments, so that what is proved holds
-- for all of them. The columns of the memory machine are kept by rows. The loops over the bits of a u64
-- run on fuel 64.
--
-- Parameters: `links` (identities of lookups), `fixed` and `defined` (columns of the compiled PIL) of
-- the environment, the labels, and `precompile`, which stands for the arms of Poseidon, Poseidon2,
-- Keccak, 256-bit arithmetic and the elliptic curve. `links` and `fixed` are total: where the source
-- panics on a link or a cell that the compiled PIL does not have, they stand for a PIL that has it.
-- Between code generator and executor the source prints and parses text and links batches; here a
-- statement is the parsed one, and straight-line code is run statement by statement, as within a basic
-- block.
--
-- Not modelled: the parser, analyzer and optimizers of PIL and assembly, witness generation of the
-- executor crate beyond its range constraints, symbolic expressions and flags, back ends, pipeline and
-- command line, the bootloader and the driver of continuations, the small field's code generator, the traces of
-- the submachines other than memory, the Poseidon permutation, and the start and end of an execution.
pub mod Prelude
pub mod Goldilocks
pub mod Executor
pub mod Riscv
pub mod Continuations
pub mod Witgen
pub mod Tests
