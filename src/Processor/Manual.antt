-- ===== src/Processor/Manual.antt =====
-- What the instruction set says of a conditional branch and of a store, with the branch decision and the data memory of
-- rtl/ against it.
use risc_v_cpu.Base.{
  false, ◌||◌, ℕ, ◌+◌, ◌-◌, ◌*◌, ◌^◌, ◌<◌, ◌≤◌, ◌≡◌, ◌⊎◌, sym, inl, inr, Bool, true, not, ◌&&◌,
  ◌==◌, if◌then◌else◌, slice, ltb, leb, IsWord, arith,
}
use risc_v_cpu.Base.Int.{signed32, ltb_ℤ}
use mathlib.Core.Path.{subst, fun_ext}
use risc_v_cpu.Pipeline.{reg_file_edge}
use risc_v_cpu.Alu.{alu}
use risc_v_cpu.Flags.{pc_src, branch_taken}
use risc_v_cpu.Flags.Branch.{Misjudged}
use risc_v_cpu.Memory.{Ram, enables, we_decoder, data_mem_write}

-- The registers with a value in register `rd`; register 0 keeps what it has.
unfoldable pub updated : ℕ → ℕ → (ℕ → ℕ) → ℕ → ℕ
updated rd value file r = if rd == 0 then file r else if r == rd then value else file r

-- Whether a branch with this funct3 is taken: beq, bne, blt, bge, bltu and bgeu.
unfoldable pub compares : ℕ → ℕ → ℕ → Bool
compares funct3 a b =
    if funct3 == 0
    then a == b
    else if funct3 == 1
    then not (a == b)
    else if funct3 == 4
    then ltb_ℤ (signed32 a) (signed32 b)
    else if funct3 == 5
    then not (ltb_ℤ (signed32 a) (signed32 b))
    else if funct3 == 6
    then ltb a b
    else leb b a

-- The bytes that sb, sh and sw write, by funct3.
unfoldable pub store_size : ℕ → ℕ
store_size funct3 = if funct3 == 0 then 1 else if funct3 == 1 then 2 else 4

-- The memory with the lowest bytes of `value` from `a` on, the lowest first.
unfoldable pub stored : ℕ → ℕ → ℕ → Ram → Ram
stored size a value memory j =
    if leb a j && ltb j (a + size) then slice value (8 * (j - a)) 8 else memory j

module _ (a b : ℕ) (ha : IsWord a) (hb : IsWord b) where
  unsigned_ones :
      (branch_taken 0 a b ≡ compares 0 a b)
      × (branch_taken 1 a b ≡ compares 1 a b)
      × (branch_taken 6 a b ≡ compares 6 a b)
      × (branch_taken 7 a b ≡ compares 7 a b)
  unfolding branch_taken pc_src alu compares
  unsigned_ones = (ground arith, ground arith, ground arith, ground arith)

  signed_ones :
      (¬ Misjudged a b)
      → (branch_taken 4 a b ≡ compares 4 a b) × (branch_taken 5 a b ≡ compares 5 a b)
  unfolding branch_taken pc_src alu compares
  signed_ones judged = (ground arith, ground arith)

  which :
      (f : ℕ)
      → (f < 2) ⊎ ((4 ≤ f) × (f < 8))
      → (f < 4) ⊎ (6 ≤ f) ⊎ (¬ Misjudged a b)
      → ((f ≡ 0) ⊎ (f ≡ 1) ⊎ (f ≡ 6) ⊎ (f ≡ 7)) ⊎ (((f ≡ 4) ⊎ (f ≡ 5)) × (¬ Misjudged a b))
  which f known (inl low) = ground (arith, known, low)
  which f known (inr (inl high)) = ground (arith, known, high)
  which f known (inr (inr judged)) = elim (split f known) [
    | inl u ↦ inl u
    | inr g ↦ inr (g, judged)
  ]
    where
      split :
          (f : ℕ)
          → (f < 2) ⊎ ((4 ≤ f) × (f < 8))
          → ((f ≡ 0) ⊎ (f ≡ 1) ⊎ (f ≡ 6) ⊎ (f ≡ 7)) ⊎ ((f ≡ 4) ⊎ (f ≡ 5))
      split f known = ground (arith, known)

  -- The decision of the processor is that of the instruction set, but for the signed comparisons on `Misjudged`.
  pub branch_taken-compares :
      (f : ℕ)
      → (f < 2) ⊎ ((4 ≤ f) × (f < 8))
      → (f < 4) ⊎ (6 ≤ f) ⊎ (¬ Misjudged a b)
      → branch_taken f a b ≡ compares f a b
  branch_taken-compares f known judged = elim (which f known judged) [
    | inl (inl e) ↦ rw e unsigned_ones.0
    | inl (inr (inl e)) ↦ rw e unsigned_ones.1
    | inl (inr (inr (inl e))) ↦ rw e unsigned_ones.2
    | inl (inr (inr (inr e))) ↦ rw e unsigned_ones.3
    | inr (inl e, right) ↦ rw e (signed_ones right).0
    | inr (inr e, right) ↦ rw e (signed_ones right).1
  ]

byte_of : (a j : ℕ) → (j < a) ⊎ (a + 4 ≤ j) ⊎ (j ≡ a) ⊎ (j ≡ a + 1) ⊎ (j ≡ a + 2) ⊎ (j ≡ a + 3)
byte_of a j = ground arith

-- The bytes of a store inside the memory.
abbrev size_of : Bool → Bool → ℕ
size_of half word = if word then 4 else if half then 2 else 1

module _ (unknown a v : ℕ) (memory : Ram) (j : ℕ) where
  store_bytes :
      (half word : Bool)
      → a + size_of half word ≤ 2 ^ 17
      → data_mem_write 17 unknown (enables true (half || word) word word) a v memory j
        ≡ stored (size_of half word) a v memory j
  unfolding data_mem_write stored
  store_bytes half word fits = elim (byte_of a j) [
    | inl low ↦ ground arith
    | inr (inl high) ↦ ground arith
    | inr (inr (inl e)) ↦ let d : a - a ≡ 0 = omega arith in rw (e, d) (ground arith)
    | inr (inr (inr (inl e))) ↦ let d : a + 1 - a ≡ 1 = omega arith in rw (e, d) (ground arith)
    | inr (inr (inr (inr (inl e)))) ↦
        let d : a + 2 - a ≡ 2 = omega arith in rw (e, d) (ground arith)
    | inr (inr (inr (inr (inr e)))) ↦
        let d : a + 3 - a ≡ 3 = omega arith in rw (e, d) (ground arith)
  ]

-- A register write of the processor is that of the instruction set.
pub reg_file_edge-updated :
    (rd value : ℕ) (file : ℕ → ℕ) → reg_file_edge true rd value file ≡ updated rd value file
unfolding reg_file_edge updated
reg_file_edge-updated rd value file = fun_ext (λ r. ground arith)

module _ (unknown a v : ℕ) (memory : Ram) where
  abbrev Stores : ℕ → Type 0
  Stores f =
      data_mem_write 17 unknown (we_decoder f true) a v memory ≡ stored (store_size f) a v memory

  -- A store inside the memory of 2^17 bytes writes the bytes that the instruction set says, and no others.
  pub data_mem_write-stored : (f : ℕ) → f < 3 → a + store_size f ≤ 2 ^ 17 → Stores f
  unfolding store_size we_decoder
  data_mem_write-stored f known fits = elim (which_store f known) [
    | inl e ↦
        subst Stores (sym e)
          (fun_ext (λ j. store_bytes unknown a v memory j false false (ground (arith, fits, e))))
    | inr (inl e) ↦
        subst Stores (sym e)
          (fun_ext (λ j. store_bytes unknown a v memory j true false (ground (arith, fits, e))))
    | inr (inr e) ↦
        subst Stores (sym e)
          (fun_ext (λ j. store_bytes unknown a v memory j true true (ground (arith, fits, e))))
  ]
    where
      which_store : (f : ℕ) → f < 3 → (f ≡ 0) ⊎ (f ≡ 1) ⊎ (f ≡ 2)
      which_store f known = ground (arith, known)

pub store_size-positive : (f : ℕ) → 1 ≤ store_size f
unfolding store_size
store_size-positive f = ground arith

pub updated-IsWord :
    (rd value : ℕ) (file : ℕ → ℕ)
    → IsWord value
    → ((r : ℕ) → IsWord (file r))
    → (r : ℕ) → IsWord (updated rd value file r)
unfolding updated
updated-IsWord rd value file word words r = ground (arith, words r)
