-- ===== src/Lib.antt =====
-- RISC-V CPU: a pipelined RV32I processor in SystemVerilog (rtl/), its C++ testbenches (testbench/), and
-- the C++ library that connects a testbench to the Vbuddy board over a serial line (vbuddy/vbuddy.cpp).
--
-- The processor. An instruction is fetched at the program counter, decoded by the control unit, executed
-- by the arithmetic unit, whose flags decide the branches, and reads or writes the data memory; the hazard
-- unit forwards results, stalls and flushes.
--   Alu          rtl/alu/alu.sv: `alu` is the combinational block, `select` its case statement.
--   Flags        rtl/flags/flags.sv: `pc_src`; `branch_taken` feeds it the flags of a subtraction.
--   ControlUnit  rtl/control_unit/: `main_decoder`, `alu_decoder`, `control_unit`.
--   SignExtend   rtl/sign_extend/sign_extend.sv: `sign_extend`.
--   Hazard       rtl/hazard_unit/: `forward`, `lwstall`, `hazard_unit`.
--   Pipeline     rtl/pc, rtl/reg_file, rtl/reg_file_d, rtl/reg_file_e and the multiplexers of
--                rtl/risc_v.sv: a `_edge` function is the state after a clock edge, `front_edge` the edge
--                of the first three stages together.
--   Processor    rtl/risc_v.sv as a whole, rtl/reg_file_m, rtl/reg_file_w and rtl/instr_mem:
--                `processor_edge` is a clock cycle, the rising edge and the falling edge that writes the
--                register file. Processor.InOrder, Visible, Cycle, StraightLine and Branching compare it
--                with a machine that executes in order, on arithmetic, branches, `jal` and stores, and
--                Processor.Instructions and Meaning compare that with the instruction set,
--                whose branches, stores and register writes Processor.Manual states on their own.
--                Processor.Registers and Widths are about any sequence of cycles, Processor.Load about a
--                load and the cache and a branch behind it, and Processor.Jump about `jalr`.
--   Programs     programs/counter: `counter` is counter.s, `image` the bytes of instr_mem.mem. The instruction
--                memory is a function from addresses, since the fetch starts at 0 and the array of instr_mem.sv at
--                0xBFC00000: what a simulator answers there is up to it, and the base of the image is a parameter.
--   Cache        rtl/cache/cache.sv: `cache_edge` and `cache_out`.
--   Memory       rtl/data_mem, rtl/we_decoder, rtl/ld_decoder, rtl/data_mem_wrapper: `wrapper_edge` is
--                the clock edge and `wrapper_out` the read. A memory is a function from addresses; what a
--                simulator gives for an address outside the array is a parameter.
-- A signal is a Boolean, a bus its number; widths are written out (`% 2 ^ 32`).
--
-- The testbenches.
--   Testbench.SignExtend   testbench/sign_extend/sign_extend_tb.cpp: `expected_value`, the model that the
--                          hardware is tested against, and in Testbench.SignExtend.Tests the tests. The
--                          random instruction is an argument.
--   Testbench.Pc           testbench/pc/pc_tb.cpp: its tests; what counts as an edge of the clock is a parameter.
--   Testbench.Alu          testbench/alu/alu_tb.cpp: its tests.
--   Testbench.ControlUnit  testbench/control_unit/control_unit_tb.cpp: the fixture (`process_instruction`,
--                          `assert_control_signals`) and, in Testbench.ControlUnit.Cases, its tests.
--                          It uses ports that the control unit does not have, so that the module under test is an
--                          argument; `connected` is the control unit with the flags unit on its outputs.
--   Testbench.RiscV        testbench/risc_v/versions/risc_v_single_instructions.h: the fixture (`reset`, `cycles`,
--                          `holds`) and, in Testbench.RiscV.Tests, its tests. The program in the instruction
--                          memory is a parameter, since the build assembles it.
--   Testbench.RegFile      testbench/reg_file/reg_file_tb.cpp: its tests, from any contents of the registers.
--   Testbench.DataMem      testbench/data_mem_wrapper/data_mem_wrapper_tb.cpp: its tests, from any contents.
--   Testbench.FullProgram  testbench/risc_v/versions/risc_v_full_program_tb.h: `full_program` is main with VBUDDY
--                          set, `simulate` its loop. Testbench.FullProgram.Counting runs the counter program
--                          in it. `full_program` calls the models of vbuddy/vbuddy.cpp; what is typed
--                          before each cycle is an argument.
--
-- The serial line and the board, as compiled for Linux and macOS.
--   Serial         the operating system: a `World` holds the answers of `read` to come, those that follow
--                  each `tcflush`, the readings of the clock, and what was written. An `Outcome` is a
--                  result, a wait for the port, an access outside an array, or fuel that ran out.
--   Serial.Timer   `class timeOut`: `elapsed_ms`.
--   Serial.Device  `openDevice`, `isDeviceOpen`, `closeDevice`; in Serial.Windows as compiled for Windows,
--                  with Serial.Windows.Transfer for the calls that read and write.
--   Serial.Read    `readChar`, `readStringNoTimeOut`, and in Serial.Read.Timed `readString`.
--   Serial.Bytes   `writeChar`, `writeBytes` and `readBytes`, which the board's functions do not use.
--   Vbuddy         `ack`, the `vbd` functions; Vbuddy.Message has their texts, Vbuddy.Reply the parsing of a
--                  reply, Vbuddy.Commands and Vbuddy.Session the calls as a client makes them. Vbuddy.Keyboard is
--                  `vbdGetkey` and Vbuddy.Config the reading of vbuddy.cfg in `vbdOpen`: the contents of the
--                  file, what `open` returns for a name, and what the terminal counts are parameters.
-- The loop of `readChar` uses up one answer of the port a round and needs no fuel. That of
-- `readStringNoTimeOut` has one more than `maxNbBytes`, which is enough because a round without a character
-- ends the call. The loops that wait for the board (`ack`, and the replies) and `readString` take their fuel
-- as an argument; the theorems about them give the number of rounds that is enough. The loop of a testbench
-- runs for the number of cycles that it is given.
--
-- Not modelled: `available`, which asks the operating system for what is waiting; the gtest drivers; the
-- other programs of programs/; and rtl/pipeline_risc_v_draft.sv, which nothing uses.
-- Base has the shared lists, words, integers and the laws of the bit operations; Examples has runs on
-- concrete inputs.
pub mod Base
pub mod Alu
pub mod Flags
pub mod SignExtend
pub mod ControlUnit
pub mod Hazard
pub mod Pipeline
pub mod Memory
pub mod Cache
pub mod Processor
pub mod Programs
pub mod Serial
pub mod Vbuddy
pub mod Testbench
pub mod Examples
