-- ===== src/Testbench/RegFile.antt =====
-- testbench/reg_file/reg_file_tb.cpp: the three tests of the register file, whose contents at the start, which no
-- reset clears, are an argument.
pub mod Agreement
use risc_v_cpu.Base.{ℕ, zero, suc, ◌+◌, ◌%◌, Bool, true, false, ◌&&◌, ◌==◌}
use risc_v_cpu.Pipeline.{reg_file_edge}

-- Each tick has one falling edge, with WE3, A3 and WD3 as they are set.
unfoldable pub clock_ticks : ℕ → Bool → ℕ → ℕ → (ℕ → ℕ) → ℕ → ℕ
clock_ticks zero we3 a3 wd3 registers = registers
clock_ticks (suc n) we3 a3 wd3 registers =
    clock_ticks n we3 a3 wd3 (reg_file_edge we3 a3 wd3 registers)

-- The loops, from index `i` for `n` rounds.
unfoldable pub write_loop : ℕ → ℕ → (ℕ → ℕ) → ℕ → ℕ
write_loop zero i registers = registers
write_loop (suc n) i registers = write_loop n (i + 1) (clock_ticks 1 true i i registers)

unfoldable pub read_loop_32 : ℕ → ℕ → (ℕ → ℕ) → Bool
read_loop_32 zero i registers = true
read_loop_32 (suc n) i registers =
    registers i == i && registers ((i + 1) % 32) == (i + 1) % 32 && read_loop_32 n (i + 1) registers

unfoldable pub async_read : (ℕ → ℕ) → Bool
async_read registers = read_loop_32 32 0 (write_loop 32 0 registers)

unfoldable pub sync_loop : ℕ → ℕ → (ℕ → ℕ) → Bool
sync_loop zero i registers = true
sync_loop (suc n) i registers =
    let next = clock_ticks 1 true i i registers in next i == i && sync_loop n (i + 1) next

unfoldable pub sync_write : (ℕ → ℕ) → Bool
sync_write registers = sync_loop 32 0 registers

unfoldable pub zero_loop : ℕ → ℕ → (ℕ → ℕ) → Bool
zero_loop zero i registers = true
zero_loop (suc n) i registers =
    let next = clock_ticks 1 true 0 i registers in next 0 == 0 && zero_loop n (i + 1) next

unfoldable pub reg_0 : (ℕ → ℕ) → Bool
reg_0 registers = zero_loop 32 0 registers
