-- ===== src/Processor/Meaning/Steps.antt =====
-- A step of the machine in order is what the instruction set says of the instruction.
use risc_v_cpu.Base.{
  ℕ, ◌∙◌, ap, Bool, ◌+◌, ◌*◌, ◌^◌, ◌≡◌, refl, inl, inr, true, false, slice, add32, IsWord,
  if◌then◌else◌, arith,
}
use risc_v_cpu.Alu.{alu}
use risc_v_cpu.Flags.{pc_src, branch_taken}
use risc_v_cpu.ControlUnit.{control_unit}
use risc_v_cpu.ControlUnit.Execute.{funct3_of, funct7_of, executes}
use risc_v_cpu.SignExtend.RoundTrip.{
  sign_extend-encode_s, sign_extend-encode_b, sign_extend-encode_u, sign_extend-encode_j,
}
use risc_v_cpu.Memory.{Ram, we_decoder, data_mem_write}
use risc_v_cpu.Pipeline.{StageD, reg_file_edge}
use risc_v_cpu.Processor.{instr_mem, decode, alu_of, pc_src_of, execute}
use risc_v_cpu.Processor.InOrder.{retire, retire_e, result_of, jal-pc_src}
use risc_v_cpu.Processor.Visible.{store_e, store_m}
use risc_v_cpu.Processor.Instructions.{
  funct3-lt, fields_r, fields_i, retire-encode_r, retire-encode_i,
}
use risc_v_cpu.Processor.Branching.{InOrder, fetch, step, redirects, target}
use risc_v_cpu.Processor.Manual.{
  updated, compares, store_size-positive, reg_file_edge-updated, branch_taken-compares,
  data_mem_write-stored,
}
use risc_v_cpu.Processor.Meaning.{
  IsHandled, Instruction, register, immediate, lui, jal, branch, store, middle, encode, IsValid,
  fields_u, fields_j, fields_b, fields_s, alu_add, meaning,
}
use risc_v_cpu.Processor.Meaning.Parts.{step-parts, no_store, step-plain}

module _ (unknown : ℕ) (rom : Ram) (q : InOrder) where
  abbrev here : StageD
  here = fetch unknown rom q.counter

  abbrev file : ℕ → ℕ
  file = q.state.file

  module _ (rd imm : ℕ) (e : instr_mem rom q.counter ≡ encode (lui rd imm))
      (valid : IsValid (lui rd imm)) where
    lui-retire : retire here file ≡ reg_file_edge true rd imm file
    unfolding retire retire_e result_of decode alu_of alu control_unit
    lui-retire =
        let f = fields_u rd imm valid.0 in
        rw
          (
            e,
            f.0,
            f.1,
            sign_extend-encode_u imm (rd * 2 ^ 7 + 0b0110111) valid.1 valid.2
                (omega (arith, valid.0)),
          )
          refl

    lui_lem : step unknown rom q ≡ meaning (lui rd imm) q
    unfolding meaning
    lui_lem =
        step-plain unknown rom q (inr (inr (inl (rw e (fields_u rd imm valid.0).0))))
          (updated rd imm file) (lui-retire ∙ reg_file_edge-updated rd imm file)

  module _ (rd imm : ℕ) (e : instr_mem rom q.counter ≡ encode (jal rd imm))
      (valid : IsValid (jal rd imm)) where
    jal-op : slice here.instr_d 0 7 ≡ 0b1101111
    jal-op = rw e (fields_j rd imm valid.0).0

    jal-retire : retire here file ≡ reg_file_edge true rd (add32 q.counter 4) file
    unfolding retire retire_e result_of decode control_unit
    jal-retire = let f = fields_j rd imm valid.0 in rw (e, f.0, f.1) refl

    jal-counter :
        (if redirects (decode file here) file then target (decode file here) else add32 q.counter 4)
        ≡ add32 q.counter imm
    unfolding redirects target decode pc_src_of control_unit
    jal-counter =
        let f = fields_j rd imm valid.0 in
        rw (jal-pc_src _ _ _ _ _ _ _ jal-op) (
          rw
            (
              e,
              f.0,
              sign_extend-encode_j imm (rd * 2 ^ 7 + 0b1101111) valid.1 valid.2
                  (omega (arith, valid.0)),
            )
            refl)

    jal-quiet : (decode file here).mem_write_e ≡ false
    unfolding decode control_unit
    jal-quiet = rw jal-op refl

    jal_lem : step unknown rom q ≡ meaning (jal rd imm) q
    unfolding meaning
    jal_lem =
        step-parts unknown rom q (add32 q.counter imm) (updated rd (add32 q.counter 4) file)
          q.state.memory jal-counter
          (jal-retire ∙ reg_file_edge-updated rd (add32 q.counter 4) file)
          (no_store unknown rom q jal-quiet)

  module _ (f rs1 rs2 imm : ℕ) (e : instr_mem rom q.counter ≡ encode (branch f rs1 rs2 imm))
      (valid : IsValid (branch f rs1 rs2 imm)) where
    branch-retire : retire here file ≡ file
    unfolding retire retire_e decode control_unit reg_file_edge
    branch-retire = let w = fields_b f rs1 rs2 imm valid.0 valid.1 valid.2 in rw (e, w.0) refl

    branch-counter :
        (if redirects (decode file here) file then target (decode file here) else add32 q.counter 4)
        ≡ (if branch_taken f (file rs1) (file rs2) then add32 q.counter imm else add32 q.counter 4)
    unfolding redirects target decode pc_src_of alu_of control_unit branch_taken
    branch-counter =
        let w = fields_b f rs1 rs2 imm valid.0 valid.1 valid.2 in
        rw
          (
            e,
            w.0,
            w.1,
            w.2,
            w.3,
            sign_extend-encode_b imm (middle f rs1 rs2) 0b1100011 valid.3 valid.4
                (omega (arith, valid.0, valid.1, valid.2)) (omega arith),
          )
          refl

    branch-quiet : (decode file here).mem_write_e ≡ false
    unfolding decode control_unit
    branch-quiet = let w = fields_b f rs1 rs2 imm valid.0 valid.1 valid.2 in rw (e, w.0) refl

    module _ (words : (r : ℕ) → IsWord (file r))
        (handled : IsHandled (branch f rs1 rs2 imm) q) where
      branch-compares : branch_taken f (file rs1) (file rs2) ≡ compares f (file rs1) (file rs2)
      branch-compares =
          branch_taken-compares (file rs1) (file rs2) (words rs1) (words rs2) f valid.5 handled

      branch_lem : step unknown rom q ≡ meaning (branch f rs1 rs2 imm) q
      unfolding meaning
      branch_lem =
          step-parts unknown rom q
            (if compares f (file rs1) (file rs2) then add32 q.counter imm else add32 q.counter 4)
            file q.state.memory
            (branch-counter
              ∙ ap (λ (taken : Bool). if taken then add32 q.counter imm else add32 q.counter 4)
                  branch-compares)
            branch-retire (no_store unknown rom q branch-quiet)

  module _ (f rs1 rs2 imm : ℕ) (e : instr_mem rom q.counter ≡ encode (store f rs1 rs2 imm))
      (valid : IsValid (store f rs1 rs2 imm)) where
    store-retire : retire here file ≡ file
    unfolding retire retire_e decode control_unit reg_file_edge
    store-retire =
        let w = fields_s f rs1 rs2 imm (omega (arith, valid.0)) valid.1 valid.2 in rw (e, w.0) refl

    store-straight : redirects (decode file here) file ≡ false
    unfolding redirects decode pc_src_of pc_src
    store-straight =
        let w = fields_s f rs1 rs2 imm (omega (arith, valid.0)) valid.1 valid.2 in rw (e, w.0) refl

    store-memory :
        store_e unknown (decode file here) file q.state.memory
        ≡ data_mem_write 17 unknown
            (we_decoder f true)
            (slice (add32 (file rs1) imm) 0 17)
            (file rs2)
            q.state.memory
    unfolding store_e store_m decode execute alu_of control_unit
    store-memory =
        let w = fields_s f rs1 rs2 imm (omega (arith, valid.0)) valid.1 valid.2 in
        rw
          (
            e,
            w.0,
            w.1,
            w.2,
            w.3,
            sign_extend-encode_s imm (middle f rs1 rs2) 0b0100011 valid.3
                (omega (arith, valid.0, valid.1, valid.2)) (omega arith),
            alu_add (file rs1) imm,
          )
          refl

    store_lem :
        IsHandled (store f rs1 rs2 imm) q → step unknown rom q ≡ meaning (store f rs1 rs2 imm) q
    unfolding meaning
    store_lem inside =
        let a = add32 (file rs1) imm in
        let low : slice a 0 17 ≡ a = omega (arith, inside, store_size-positive f) in
        step-parts unknown rom q (add32 q.counter 4) file _ (rw store-straight refl) store-retire (
          store-memory
          ∙ rw low (data_mem_write-stored unknown a (file rs2) q.state.memory f valid.0 inside))

  -- In a state whose registers hold words, a step at an instruction that the processor handles is its meaning.
  pub step-meaning :
      (i : Instruction)
      → instr_mem rom q.counter ≡ encode i
      → IsValid i
      → ((r : ℕ) → IsWord (file r))
      → IsHandled i q
      → step unknown rom q ≡ meaning i q
  unfolding meaning
  step-meaning (register op rd rs1 rs2) e (d, h1, h2) words handled =
      step-plain unknown rom q
        (inl (rw e (fields_r (funct3_of op) (funct7_of op) rd rs1 rs2 (funct3-lt op) d h1 h2).0))
        (updated rd (executes op (file rs1) (file rs2)) file)
        (rw e (
          retire-encode_r op rd rs1 rs2 q.counter (add32 q.counter 4) file d h1 h2 (words rs1)
            (words rs2)
          ∙ reg_file_edge-updated rd (executes op (file rs1) (file rs2)) file))
  step-meaning (immediate op rd rs1 imm) e (d, h1, signed, ne, fits) words handled =
      step-plain unknown rom q
        (inr (inl (rw e (fields_i (funct3_of op) imm rd rs1 (funct3-lt op) d h1 signed).0)))
        (updated rd (executes op (file rs1) imm) file)
        (rw e (
          retire-encode_i op imm rd rs1 q.counter (add32 q.counter 4) file ne fits signed d h1
            (words rs1)
          ∙ reg_file_edge-updated rd (executes op (file rs1) imm) file))
  step-meaning (lui rd imm) e valid words handled = lui_lem rd imm e valid
  step-meaning (jal rd imm) e valid words handled = jal_lem rd imm e valid
  step-meaning (branch f rs1 rs2 imm) e valid words handled =
      branch_lem f rs1 rs2 imm e valid words handled
  step-meaning (store f rs1 rs2 imm) e valid words handled = store_lem f rs1 rs2 imm e valid handled
