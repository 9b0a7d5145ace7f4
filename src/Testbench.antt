-- ===== src/Testbench.antt =====
-- The C++ under testbench/: the reference model that a unit test compares the hardware with, and the
-- tests of the control unit and of the arithmetic unit.
pub mod SignExtend
pub mod Alu
pub mod ControlUnit
pub mod RiscV
pub mod RegFile
pub mod DataMem
pub mod Pc
pub mod FullProgram
