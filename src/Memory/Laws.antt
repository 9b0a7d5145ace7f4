-- ===== src/Memory/Laws.antt =====
-- Stores and loads of the data memory.
use risc_v_cpu.Base.{
  ℕ, ◌+◌, ◌-◌, ◌*◌, ◌%◌, ◌^◌, ◌≤◌, ◌<◌, Bool, true, false, ◌&&◌, ◌==◌, if◌then◌else◌, bit, slice,
  ◌≡◌, refl, ap, ◌∙◌, ◌⊎◌, IsWord, arith, lt→ltb,
}
use risc_v_cpu.Memory.{
  Ram, Enables, enables, we_decoder, ld_decoder, data_mem_write, data_mem_read, wrapper_edge,
  wrapper_out,
}

-- The width of an access in bytes.
unfoldable pub access_size : ℕ → ℕ
access_size funct3 =
    if funct3 == 0 then 1 else if funct3 == 1 then 2 else if funct3 == 2 then 4 else 0

-- What a load gives of the word that was stored: its low bytes, with zeros or with copies of their
-- sign bit above.
unfoldable pub loaded : ℕ → ℕ → ℕ
loaded funct3 wd =
    if funct3 == 0
    then wd % 2 ^ 8 + (if bit wd 7 then 2 ^ 32 - 2 ^ 8 else 0)
    else if funct3 == 1
    then wd % 2 ^ 16 + (if bit wd 15 then 2 ^ 32 - 2 ^ 16 else 0)
    else if funct3 == 2
    then wd
    else if funct3 == 4
    then wd % 2 ^ 8
    else wd % 2 ^ 16

module _ (width unknown : ℕ) where
  -- The bytes a store writes.
  written_0 :
      (e0 e1 e2 e3 : Bool) (a wd : ℕ) (ram : Ram)
      → a + 3 < 2 ^ width
      → data_mem_write width unknown (enables e0 e1 e2 e3) a wd ram a
        ≡ (if e0 then slice wd 0 8 else ram a)
  unfolding data_mem_write
  written_0 e0 e1 e2 e3 a wd ram fits = ground arith

  written_1 :
      (e0 e1 e2 e3 : Bool) (a wd : ℕ) (ram : Ram)
      → a + 3 < 2 ^ width
      → data_mem_write width unknown (enables e0 e1 e2 e3) a wd ram (a + 1)
        ≡ (if e1 then slice wd 8 8 else ram (a + 1))
  unfolding data_mem_write
  written_1 e0 e1 e2 e3 a wd ram fits = ground arith

  written_2 :
      (e0 e1 e2 e3 : Bool) (a wd : ℕ) (ram : Ram)
      → a + 3 < 2 ^ width
      → data_mem_write width unknown (enables e0 e1 e2 e3) a wd ram (a + 2)
        ≡ (if e2 then slice wd 16 8 else ram (a + 2))
  unfolding data_mem_write
  written_2 e0 e1 e2 e3 a wd ram fits = ground arith

  written_3 :
      (e0 e1 e2 e3 : Bool) (a wd : ℕ) (ram : Ram)
      → a + 3 < 2 ^ width
      → data_mem_write width unknown (enables e0 e1 e2 e3) a wd ram (a + 3)
        ≡ (if e3 then slice wd 24 8 else ram (a + 3))
  unfolding data_mem_write
  written_3 e0 e1 e2 e3 a wd ram fits = ground arith

  read_back :
      (e0 e1 e2 e3 : Bool) (a wd : ℕ) (ram : Ram)
      → a + 3 < 2 ^ width
      → data_mem_read width unknown a (data_mem_write width unknown (enables e0 e1 e2 e3) a wd ram)
        ≡ (if e3 then slice wd 24 8 else ram (a + 3)) * 2 ^ 24
          + (if e2 then slice wd 16 8 else ram (a + 2)) * 2 ^ 16
          + (if e1 then slice wd 8 8 else ram (a + 1)) * 2 ^ 8
          + (if e0 then slice wd 0 8 else ram a)
  unfolding data_mem_read
  read_back e0 e1 e2 e3 a wd ram fits =
      rw
        (
          lt→ltb (a + 3) (2 ^ width) fits,
          lt→ltb (a + 2) (2 ^ width) (omega arith),
          lt→ltb (a + 1) (2 ^ width) (omega arith),
          lt→ltb a (2 ^ width) (omega arith),
          written_0 e0 e1 e2 e3 a wd ram fits,
          written_1 e0 e1 e2 e3 a wd ram fits,
          written_2 e0 e1 e2 e3 a wd ram fits,
          written_3 e0 e1 e2 e3 a wd ram fits,
        )
        refl

load_byte :
    (r3 r2 r1 wd : ℕ)
    → ld_decoder (r3 * 2 ^ 24 + r2 * 2 ^ 16 + r1 * 2 ^ 8 + slice wd 0 8) 0 ≡ loaded 0 wd
unfolding ld_decoder loaded
load_byte r3 r2 r1 wd = ground arith

load_byte_u :
    (r3 r2 r1 wd : ℕ)
    → ld_decoder (r3 * 2 ^ 24 + r2 * 2 ^ 16 + r1 * 2 ^ 8 + slice wd 0 8) 4 ≡ loaded 4 wd
unfolding ld_decoder loaded
load_byte_u r3 r2 r1 wd = ground arith

load_half :
    (r3 r2 wd : ℕ)
    → ld_decoder (r3 * 2 ^ 24 + r2 * 2 ^ 16 + slice wd 8 8 * 2 ^ 8 + slice wd 0 8) 1 ≡ loaded 1 wd
unfolding ld_decoder loaded
load_half r3 r2 wd = ground arith

load_half_u :
    (r3 r2 wd : ℕ)
    → ld_decoder (r3 * 2 ^ 24 + r2 * 2 ^ 16 + slice wd 8 8 * 2 ^ 8 + slice wd 0 8) 5 ≡ loaded 5 wd
unfolding ld_decoder loaded
load_half_u r3 r2 wd = ground arith

load_word :
    (wd : ℕ)
    → IsWord wd
    → ld_decoder
        (slice wd 24 8 * 2 ^ 24 + slice wd 16 8 * 2 ^ 16 + slice wd 8 8 * 2 ^ 8 + slice wd 0 8)
        2
      ≡ loaded 2 wd
unfolding ld_decoder loaded
load_word wd h = ground arith

module _ (unknown a wd : ℕ) (ram : Ram) (fits : slice a 0 9 + 3 < 2 ^ 9) where
  byte_round : wrapper_out unknown a 0 (wrapper_edge unknown a wd 0 true ram) ≡ loaded 0 wd
  unfolding wrapper_out wrapper_edge we_decoder
  byte_round =
      ap (λ (r : ℕ). ld_decoder r 0)
        (read_back 9 unknown true false false false (slice a 0 9) wd ram fits)
      ∙ load_byte _ _ _ wd

  byte_u_round : wrapper_out unknown a 4 (wrapper_edge unknown a wd 0 true ram) ≡ loaded 4 wd
  unfolding wrapper_out wrapper_edge we_decoder
  byte_u_round =
      ap (λ (r : ℕ). ld_decoder r 4)
        (read_back 9 unknown true false false false (slice a 0 9) wd ram fits)
      ∙ load_byte_u _ _ _ wd

  half_round : wrapper_out unknown a 1 (wrapper_edge unknown a wd 1 true ram) ≡ loaded 1 wd
  unfolding wrapper_out wrapper_edge we_decoder
  half_round =
      ap (λ (r : ℕ). ld_decoder r 1)
        (read_back 9 unknown true true false false (slice a 0 9) wd ram fits)
      ∙ load_half _ _ wd

  half_u_round : wrapper_out unknown a 5 (wrapper_edge unknown a wd 1 true ram) ≡ loaded 5 wd
  unfolding wrapper_out wrapper_edge we_decoder
  half_u_round =
      ap (λ (r : ℕ). ld_decoder r 5)
        (read_back 9 unknown true true false false (slice a 0 9) wd ram fits)
      ∙ load_half_u _ _ wd

  word_round :
      IsWord wd → wrapper_out unknown a 2 (wrapper_edge unknown a wd 2 true ram) ≡ loaded 2 wd
  unfolding wrapper_out wrapper_edge we_decoder
  word_round word =
      ap (λ (r : ℕ). ld_decoder r 2)
        (read_back 9 unknown true true true true (slice a 0 9) wd ram fits)
      ∙ load_word wd word

-- The store and load instructions of one access size: funct3 of the store, then of the load.
pub data Access : ℕ → ℕ → Type 0 where
  sb_lb : Access 0 0
  sb_lbu : Access 0 4
  sh_lh : Access 1 1
  sh_lhu : Access 1 5
  sw_lw : Access 2 2

-- A load after a store of the same address and size gives the stored word's low bytes, extended as
-- the load's funct3 says, when the four bytes at the address are inside the memory.
pub wrapper_out-wrapper_edge :
    {store load : ℕ} (kind : Access store load) (unknown a wd : ℕ) (ram : Ram)
    → IsWord wd
    → slice a 0 9 + 3 < 2 ^ 9
    → wrapper_out unknown a load (wrapper_edge unknown a wd store true ram) ≡ loaded load wd
wrapper_out-wrapper_edge sb_lb unknown a wd ram word fits = byte_round unknown a wd ram fits
wrapper_out-wrapper_edge sb_lbu unknown a wd ram word fits = byte_u_round unknown a wd ram fits
wrapper_out-wrapper_edge sh_lh unknown a wd ram word fits = half_round unknown a wd ram fits
wrapper_out-wrapper_edge sh_lhu unknown a wd ram word fits = half_u_round unknown a wd ram fits
wrapper_out-wrapper_edge sw_lw unknown a wd ram word fits = word_round unknown a wd ram fits word

module _ (a funct3 j : ℕ) (outside : (j < a) ⊎ (a + access_size funct3 ≤ j)) where
  untouched_0 : ((we_decoder funct3 true).we0 && a == j) ≡ false
  unfolding we_decoder access_size
  untouched_0 = ground arith

  untouched_1 : ((we_decoder funct3 true).we1 && a + 1 == j) ≡ false
  unfolding we_decoder access_size
  untouched_1 = ground arith

  untouched_2 : ((we_decoder funct3 true).we2 && a + 2 == j) ≡ false
  unfolding we_decoder access_size
  untouched_2 = ground arith

  untouched_3 : ((we_decoder funct3 true).we3 && a + 3 == j) ≡ false
  unfolding we_decoder access_size
  untouched_3 = ground arith

kept :
    (width unknown : ℕ) (e : Enables) (a wd j : ℕ) (ram : Ram)
    → (e.we0 && a == j) ≡ false
    → (e.we1 && a + 1 == j) ≡ false
    → (e.we2 && a + 2 == j) ≡ false
    → (e.we3 && a + 3 == j) ≡ false
    → data_mem_write width unknown e a wd ram j ≡ ram j
unfolding data_mem_write
kept width unknown e a wd j ram h0 h1 h2 h3 = ground arith

-- A store leaves every byte outside its access as it was.
pub wrapper_edge-frame :
    (unknown a wd funct3 j : ℕ) (ram : Ram)
    → (j < slice a 0 9) ⊎ (slice a 0 9 + access_size funct3 ≤ j)
    → wrapper_edge unknown a wd funct3 true ram j ≡ ram j
unfolding wrapper_edge
wrapper_edge-frame unknown a wd funct3 j ram outside =
    let b = slice a 0 9 in
    kept 9 unknown (we_decoder funct3 true) b wd j ram (untouched_0 b funct3 j outside)
      (untouched_1 b funct3 j outside) (untouched_2 b funct3 j outside)
      (untouched_3 b funct3 j outside)
