-- ===== src/Witgen.antt =====
-- executor/src/witgen: what the witness generator knows about the values of the cells, and the
-- storage of its flags, over the Goldilocks field of the module Goldilocks.
pub mod RangeConstraint
pub mod Combine
pub mod Masks
pub mod Intervals
pub mod Sums
pub mod Intersections
pub mod Unions
pub mod Multiples
pub mod Splits
pub mod Validity
pub mod PaddedBits
pub mod Expression
