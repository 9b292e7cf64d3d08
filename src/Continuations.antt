-- ===== src/Continuations.antt =====
-- riscv/src/continuations: the Merkle tree over the memory that is carried from one chunk of a
-- long execution to the next.
pub mod MerkleTree
