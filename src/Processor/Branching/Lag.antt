-- ===== src/Processor/Branching/Lag.antt =====
-- What is in flight reaches the register file and the data memory of rtl/risc_v.sv within three cycles.
use risc_v_cpu.Base.{ℕ, ◌≡◌, ◌∙◌, refl, inl, inr, slice, Bool-cases}
use risc_v_cpu.Memory.{Ram}
use risc_v_cpu.Processor.{Machine, decode, instr_mem}
use risc_v_cpu.Processor.InOrder.{IsSimple, IsReady}
use risc_v_cpu.Processor.Cycle.{next-registers, next-ram, commit-next}
use risc_v_cpu.Processor.StraightLine.{cycle, cycles}
use risc_v_cpu.Processor.Visible.{Visible, commit_m, commit_e-bubble, commit-decode}
use risc_v_cpu.Processor.Branching.{redirects, view, behind_e-taken, behind_e-on-taken, behind_e-on}
use risc_v_cpu.Processor.Branching.Steps.{
  AreSimple, here_m, here_e, front-taken, front-on, cycle-IsReady,
}

-- The registers and the memory of a machine.
abbrev pub held : Machine → Visible
held s = record { file = s.registers; memory = s.ram }

module _ (old : ℕ → ℕ) (s : Machine) (ready : IsReady old s) (unknown : ℕ) (rom : Ram) where
  held-next : held (cycle unknown rom s) ≡ here_m old s ready unknown rom
  unfolding cycle commit_m
  held-next =
      rw
        (
          next-registers old s ready unknown (instr_mem rom s.front.pc),
          next-ram old s ready unknown (instr_mem rom s.front.pc),
        )
        refl

  module _ (fetched : IsSimple (slice (instr_mem rom s.front.pc) 0 7)) where
    ready_1 : IsReady s.registers (cycle unknown rom s)
    ready_1 = cycle-IsReady unknown rom old s ready fetched

    here_m-next :
        here_m s.registers (cycle unknown rom s) ready_1 unknown rom
        ≡ here_e old s ready unknown rom
    unfolding cycle
    here_m-next = commit-next old s ready unknown (instr_mem rom s.front.pc)

    -- The instruction that is in stage E one cycle later, behind those before it.
    here_e-next :
        here_e s.registers (cycle unknown rom s) ready_1 unknown rom ≡ (view unknown s).state
    unfolding view
    here_e-next =
        let v = here_m old s ready unknown rom in
        rw here_m-next (elim (Bool-cases (redirects s.front.e v.file)) [
          | inl taken ↦
              rw
                (
                  front-taken old s ready unknown rom taken,
                  (behind_e-taken unknown v s.front taken).0,
                  commit_e-bubble unknown,
                )
                refl
          | inr on ↦
              let v_e = here_e old s ready unknown rom in
              elim (Bool-cases (redirects (decode v_e.file s.front.d) v_e.file)) [
                | inl taken ↦
                    rw
                      (
                        front-on old s ready unknown rom on,
                        (behind_e-on-taken unknown v s.front on taken).0,
                        commit-decode unknown,
                      )
                      refl
                | inr straight ↦
                    rw
                      (
                        front-on old s ready unknown rom on,
                        (behind_e-on unknown v s.front on straight).0,
                        commit-decode unknown,
                      )
                      refl
              ]
        ])

-- From a ready state that fetches arithmetic, conditional branches, `jal` or stores in two cycles, the registers and
-- the memory themselves are three cycles later what they are now behind what is in flight.
pub held-view :
    (old : ℕ → ℕ) (s : Machine) (unknown : ℕ) (rom : Ram)
    → IsReady old s
    → AreSimple unknown rom 2 s
    → held (cycles unknown rom 3 s) ≡ (view unknown s).state
unfolding cycles
held-view old s unknown rom ready (first, (second, rest)) =
    let s_1 = cycle unknown rom s in
    let r_1 = ready_1 old s ready unknown rom first in
    held-next s_1.registers (cycle unknown rom s_1) (ready_1 s.registers s_1 r_1 unknown rom second)
      unknown rom
    ∙ here_m-next s.registers s_1 r_1 unknown rom second
    ∙ here_e-next old s ready unknown rom first
