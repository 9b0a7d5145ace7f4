-- ===== src/Testbench/RegFile/Agreement.antt =====
-- When the tests of the register file pass.
use risc_v_cpu.Base.{
  ℕ, zero, suc, ◌+◌, ◌%◌, ◌≤◌, ◌<◌, ◌≡◌, ◌↔◌, ◌∙◌, sym, refl, true, ◌&&◌, ◌==◌, not, leb, ltb,
  if◌then◌else◌, arith,
}
use risc_v_cpu.Pipeline.{reg_file_edge}
use risc_v_cpu.Testbench.RegFile.{
  clock_ticks, write_loop, read_loop_32, async_read, sync_loop, sync_write, zero_loop, reg_0,
}

-- One tick that writes: register 0 stays, another is written.
tick_lem :
    (a wd j : ℕ) (registers : ℕ → ℕ)
    → clock_ticks 1 true a wd registers j ≡ (if not (a == 0) && a == j then wd else registers j)
unfolding clock_ticks reg_file_edge
tick_lem a wd j registers = refl

write_loop_lem :
    (n i j : ℕ) (registers : ℕ → ℕ)
    → write_loop n i registers j
      ≡ (if leb i j && ltb j (i + n) && not (j == 0) then j else registers j)
unfolding write_loop
write_loop_lem zero i j registers = ground arith
write_loop_lem (suc n) i j registers =
    write_loop_lem n (i + 1) j (clock_ticks 1 true i i registers)
    ∙ rw (tick_lem i i j registers) (ground arith)

read_loop-true :
    (n i : ℕ) (registers : ℕ → ℕ)
    → ((j : ℕ) → j < 32 → registers j ≡ j)
    → i + n ≤ 32
    → read_loop_32 n i registers ≡ true
unfolding read_loop_32
read_loop-true zero i registers h le = refl
read_loop-true (suc n) i registers h le =
    rw
      (
        h i (omega arith),
        h ((i + 1) % 32) (omega arith),
        read_loop-true n (i + 1) registers h (omega arith),
      )
      (ground arith)

read_loop_self :
    (n i : ℕ) (registers : ℕ → ℕ) → read_loop_32 (suc n) i registers ≡ true → registers i ≡ i
unfolding read_loop_32
read_loop_self n i registers h = ground arith

sync_loop-true : (n i : ℕ) (registers : ℕ → ℕ) → registers 0 ≡ 0 → sync_loop n i registers ≡ true
unfolding sync_loop
sync_loop-true zero i registers h = refl
sync_loop-true (suc n) i registers h =
    rw
      (
        tick_lem i i i registers,
        sync_loop-true n (i + 1) (clock_ticks 1 true i i registers)
            (tick_lem i i 0 registers ∙ rw h (ground arith)),
      )
      (ground arith)

zero_loop-true : (n i : ℕ) (registers : ℕ → ℕ) → registers 0 ≡ 0 → zero_loop n i registers ≡ true
unfolding zero_loop
zero_loop-true zero i registers h = refl
zero_loop-true (suc n) i registers h =
    rw
      (
        tick_lem 0 i 0 registers,
        zero_loop-true n (i + 1) (clock_ticks 1 true 0 i registers) (tick_lem 0 i 0 registers ∙ h),
      )
      (ground arith)

first_sync : (n : ℕ) (registers : ℕ → ℕ) → sync_loop (suc n) 0 registers ≡ true → registers 0 ≡ 0
unfolding sync_loop
first_sync n registers h = sym (tick_lem 0 0 0 registers) ∙ ground arith

first_zero : (n : ℕ) (registers : ℕ → ℕ) → zero_loop (suc n) 0 registers ≡ true → registers 0 ≡ 0
unfolding zero_loop
first_zero n registers h = sym (tick_lem 0 0 0 registers) ∙ ground arith

-- Each of the three tests of the register file passes exactly when register 0 holds 0 at the
-- start, whatever the other registers hold then.
pub reg_file_tests-pass :
    (registers : ℕ → ℕ)
    → ((async_read registers ≡ true) ↔ (registers 0 ≡ 0))
      × ((sync_write registers ≡ true) ↔ (registers 0 ≡ 0))
      × ((reg_0 registers ≡ true) ↔ (registers 0 ≡ 0))
unfolding async_read sync_write reg_0
reg_file_tests-pass registers = (
  (
    λ h. sym (write_loop_lem 32 0 0 registers) ∙ read_loop_self 31 0 (write_loop 32 0 registers) h,
    λ h.
        read_loop-true 32 0 (write_loop 32 0 registers)
          (λ j lt. write_loop_lem 32 0 j registers ∙ ground arith) (omega arith),
  ),
  (first_sync 31 registers, sync_loop-true 32 0 registers),
  (first_zero 31 registers, zero_loop-true 32 0 registers),
)
