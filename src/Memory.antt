-- ===== src/Memory.antt =====
-- The data memory: rtl/data_mem/data_mem.sv, rtl/we_decoder/we_decoder.sv, rtl/ld_decoder/ld_decoder.sv and
-- rtl/data_mem_wrapper/data_mem_wrapper.sv.
pub mod Laws
use risc_v_cpu.Base.{
  ℕ, ◌+◌, ◌-◌, ◌*◌, ◌/◌, ◌%◌, ◌^◌, Bool, true, false, ◌&&◌, ◌==◌, if◌then◌else◌, bit, slice, ltb,
  leb,
}

-- Bytes by address.
abbrev pub Ram : Type 0
Ram = ℕ → ℕ

-- The four write enables, of the lowest byte first.
pub record Enables : Type 0 where
  pub we0 : Bool
  pub we1 : Bool
  pub we2 : Bool
  pub we3 : Bool

abbrev pub enables : Bool → Bool → Bool → Bool → Enables
enables e0 e1 e2 e3 = record { we0 = e0; we1 = e1; we2 = e2; we3 = e3 }

unfoldable pub we_decoder : ℕ → Bool → Enables
we_decoder funct3 mem_write =
    if mem_write
    then (if funct3 == 0b000
        then enables true false false false
        else if funct3 == 0b001
        then enables true true false false
        else if funct3 == 0b010
        then enables true true true true
        else enables false false false false)
    else enables false false false false

-- `{k{RD[i]}}`.
abbrev fill : Bool → ℕ → ℕ
fill sign k = if sign then 2 ^ k - 1 else 0

unfoldable pub ld_decoder : ℕ → ℕ → ℕ
ld_decoder rd funct3 =
    if funct3 == 0b000
    then fill (bit rd 7) 24 * 2 ^ 8 + slice rd 0 8
    else if funct3 == 0b001
    then fill (bit rd 15) 16 * 2 ^ 16 + slice rd 8 8 * 2 ^ 8 + slice rd 0 8
    else if funct3 == 0b010
    then slice rd 24 8 * 2 ^ 24 + slice rd 16 8 * 2 ^ 16 + slice rd 8 8 * 2 ^ 8 + slice rd 0 8
    else if funct3 == 0b100
    then slice rd 0 8
    else if funct3 == 0b101
    then slice rd 8 8 * 2 ^ 8 + slice rd 0 8
    else 0

-- `ram_array` has 2^width bytes. A write outside it is lost and a read outside it gives `unknown`, the
-- simulator's value there.
module _ (width unknown : ℕ) where
  abbrev write_byte : Bool → ℕ → ℕ → Ram → Ram
  write_byte enable i b ram j = if enable && ltb i (2 ^ width) && i == j then b else ram j

  abbrev read_byte : Ram → ℕ → ℕ
  read_byte ram i = if ltb i (2 ^ width) then ram i else unknown

  -- The `always_ff` block.
  unfoldable pub data_mem_write : Enables → ℕ → ℕ → Ram → Ram
  data_mem_write e a wd ram = write_byte e.we3 (a + 3) (slice wd 24 8) (
      write_byte e.we2 (a + 2) (slice wd 16 8)
        (write_byte e.we1 (a + 1) (slice wd 8 8) (write_byte e.we0 a (slice wd 0 8) ram)))

  -- `RD`.
  unfoldable pub data_mem_read : ℕ → Ram → ℕ
  data_mem_read a ram =
      read_byte ram (a + 3) * 2 ^ 24
      + read_byte ram (a + 2) * 2 ^ 16
      + read_byte ram (a + 1) * 2 ^ 8
      + read_byte ram a

-- data_mem_wrapper.sv has a memory of 2^9 bytes. The state at a clock edge, and the output.
module _ (unknown : ℕ) where
  pub wrapper_edge : ℕ → ℕ → ℕ → Bool → Ram → Ram
  wrapper_edge alu_result write_data funct3 mem_write =
      data_mem_write 9 unknown (we_decoder funct3 mem_write) (slice alu_result 0 9) write_data

  unfoldable pub wrapper_out : ℕ → ℕ → Ram → ℕ
  wrapper_out alu_result funct3 ram =
      ld_decoder (data_mem_read 9 unknown (slice alu_result 0 9) ram) funct3
