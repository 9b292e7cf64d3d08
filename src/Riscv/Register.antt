-- ===== src/Riscv/Register.antt =====
-- riscv/src/code_gen.rs: the text of a register, `Display` and `From<&str>` of `Register`.
--
-- A text is its prefix with the number after it, which a parser reads as a u8.
use powdr.Prelude.{
  ℕ, ◌+◌, ◌-◌, ◌<◌, ◌≡◌, ltb, leb, ◌==◌, ◌&&◌, Option, none, some, if◌then◌else◌, arith,
}
use powdr.Riscv.Instr.{Register}

pub data RegisterName : Type 0 where
  x tmp xtra : ℕ → RegisterName
  lr_sc_reservation : RegisterName

-- `Display`
unfoldable pub display : Register → RegisterName
display r =
    if ltb r 32
    then RegisterName.x r
    else if ltb r 36
    then RegisterName.tmp (r - 31 + 1)
    else if r == 36
    then RegisterName.lr_sc_reservation
    else RegisterName.xtra (r - 37)

-- `From<&str>`; `none` is a failed assertion or an addition that does not fit a u8.
unfoldable pub from_name : RegisterName → Option Register
from_name (RegisterName.x n) = if ltb n 32 then some n else none
from_name (RegisterName.tmp n) = if leb 1 n && leb n 4 then some (n - 1 + 32) else none
from_name (RegisterName.xtra n) = if ltb (n + 37) 256 then some (n + 37) else none
from_name RegisterName.lr_sc_reservation = some 36

-- Printing a register and reading it back gives the register for x0 to x31, lr_sc_reservation and
-- the registers from 37 on; of the four temporary registers, the first three come back as their
-- successors and the last one is not a register name.
pub from_name-display :
    (r : Register)
    → r < 256
    → from_name (display r)
      ≡ (if leb 32 r && ltb r 36 then (if r == 35 then none else some (r + 1)) else some r)
unfolding from_name display
from_name-display r h = ground arith
