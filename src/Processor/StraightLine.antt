-- ===== src/Processor/StraightLine.antt =====
-- Straight-line arithmetic programs on the processor of rtl/risc_v.sv: the pipeline computes what a machine
-- computes that executes one instruction after the other.
use risc_v_cpu.Base.{ℕ, zero, suc, ◌≡◌, ◌∙◌, ap, refl, inl, inr, arith, false, slice, add32}
use risc_v_cpu.Memory.{Ram}
use risc_v_cpu.Pipeline.{StageD, Front}
use risc_v_cpu.Processor.{Machine, decode, instr_mem, processor_edge}
use risc_v_cpu.Processor.Cycle.{
  no_branch, next-front, next-IsReady, next-architectural, next-ram, next-store,
}
use risc_v_cpu.Processor.Visible.{store_m-off}
use risc_v_cpu.Processor.InOrder.{IsPlain, IsReady, architectural, retire}

module _ (unknown : ℕ) (rom : Ram) where
  -- A cycle with the instruction memory, and a number of them.
  unfoldable pub cycle : Machine → Machine
  cycle s = processor_edge unknown false (instr_mem rom s.front.pc) s

  unfoldable pub cycles : ℕ → Machine → Machine
  cycles zero s = s
  cycles (suc n) s = cycles n (cycle s)

  -- The machine that executes in order: a program counter and the registers.
  unfoldable pub in_order : ℕ → ℕ → (ℕ → ℕ) → ℕ → ℕ
  in_order zero pc registers = registers
  in_order (suc n) pc registers =
      in_order n (add32 pc 4) (
        retire (record { instr_d = instr_mem rom pc; pc_d = pc; pc_plus4_d = add32 pc 4 })
          registers)

  -- The next `n` instructions from `pc` are arithmetic.
  abbrev pub ArePlain : ℕ → ℕ → Type 0
  ArePlain zero pc = Unit
  ArePlain (suc n) pc = IsPlain (slice (instr_mem rom pc) 0 7) × ArePlain n (add32 pc 4)

  IsPlain-decode :
      (d : StageD) (registers : ℕ → ℕ)
      → IsPlain (slice d.instr_d 0 7)
      → IsPlain (decode registers d).op_e
  unfolding decode
  IsPlain-decode d registers plain = plain

  IsPlain-store :
      (old : ℕ → ℕ) (s : Machine)
      → IsReady old s
      → IsPlain s.front.e.op_e
      → s.front.e.mem_write_e ≡ false
  IsPlain-store old s ready plain = elim ready.simple_e.store_e [
    | inl off ↦ off
    | inr store ↦ absurd (ground (arith, store, plain))
  ]

  -- The same, for a program counter that is known by an equation.
  cycles-from :
      (n : ℕ) (old : ℕ → ℕ) (s : Machine) (pc : ℕ)
      → IsReady old s
      → IsPlain s.front.e.op_e
      → IsPlain (slice s.front.d.instr_d 0 7)
      → s.m.mem_write_m ≡ false
      → s.front.pc ≡ pc
      → ArePlain n pc
      → (architectural (cycles n s) ≡ in_order n pc (architectural s))
        × ((cycles n s).ram ≡ s.ram)
        × ((new : ℕ → ℕ) × IsReady new (cycles n s))
  unfolding cycles in_order cycle
  cycles-from zero old s pc ready e d m at plain = (refl, refl, (old, ready))
  cycles-from (suc n) old s pc ready e d m at (plain, rest) =
      let instr = instr_mem rom s.front.pc in
      let here : IsPlain (slice instr 0 7) = rw at plain in
      let on = no_branch old s ready e in
      let front = next-front old s ready unknown instr on in
      let (same, ram, again) =
        cycles-from n s.registers (cycle s) (add32 pc 4)
          (next-IsReady old s ready unknown instr (inl here))
          (rw front (IsPlain-decode s.front.d s.registers d)) (rw front here)
          (next-store old s ready unknown instr (IsPlain-store old s ready e))
          (ap (λ (f : Front). f.pc) front ∙ rw at refl) rest in
      (
        same
            ∙ ap (in_order n (add32 pc 4)) (next-architectural old s ready unknown instr on)
            ∙ rw at refl,
        ram ∙ next-ram old s ready unknown instr ∙ store_m-off unknown s.m s.ram m,
        again,
      )

  -- From a ready state with only arithmetic in stages D and E and no store in stage M, `n` cycles over `n` arithmetic
  -- instructions retire them in order behind those in flight, whatever registers they share, so
  -- that there is one a cycle; the memory is unchanged, and the state is ready again.
  pub cycles-in_order :
      (n : ℕ) (old : ℕ → ℕ) (s : Machine)
      → IsReady old s
      → IsPlain s.front.e.op_e
      → IsPlain (slice s.front.d.instr_d 0 7)
      → s.m.mem_write_m ≡ false
      → ArePlain n s.front.pc
      → (architectural (cycles n s) ≡ in_order n s.front.pc (architectural s))
        × ((cycles n s).ram ≡ s.ram)
        × ((new : ℕ → ℕ) × IsReady new (cycles n s))
  cycles-in_order n old s ready e d m plain = cycles-from n old s s.front.pc ready e d m refl plain
