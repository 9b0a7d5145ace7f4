-- ===== src/Examples.antt =====
-- Runs of the models on concrete inputs: the processor of rtl/, and vbuddy/vbuddy.cpp.
mod Processor
mod Pipe
mod Machine
mod Looping
mod Counting
mod Plotting
mod Loading
mod Widths
mod Jumping
mod Windows
mod Keys
mod Benches
mod AluTests
mod Boards
mod Control
mod Link
mod Session
