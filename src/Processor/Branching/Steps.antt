-- ===== src/Processor/Branching/Steps.antt =====
-- Each cycle of rtl/risc_v.sv, on arithmetic, conditional branches, `jal` and stores, is a step in order or pays for a
-- taken branch.
use risc_v_cpu.Base.{
  ℕ, zero, suc, ◌+◌, ◌*◌, ◌≤◌, ◌≡◌, ◌∙◌, ◌⊎◌, ap, refl, sym, inl, inr, true, false, slice, add32,
  arith, Bool-cases,
}
use risc_v_cpu.Memory.{Ram}
use risc_v_cpu.Pipeline.{bubble, empty_d}
use risc_v_cpu.Processor.{Machine, decode, pc_src_e, instr_mem}
use risc_v_cpu.Processor.InOrder.{IsSimple, IsReady}
use risc_v_cpu.Processor.Cycle.{
  src_a-retire, write_data_e-retire, next-front, next-front-taken, next-IsReady, commit-next,
}
use risc_v_cpu.Processor.StraightLine.{cycle, cycles}
use risc_v_cpu.Processor.Visible.{Visible, commit_m, commit_e, commit-decode}
use risc_v_cpu.Processor.Branching.{
  redirects, target, step, steps, behind_e, behind_d, delay, penalty, view, fetch, redirects-decode,
  target-decode, behind_e-empty, behind_e-decode, behind_e-taken, behind_e-on-taken, behind_e-on,
  delay-empty, penalty-≤2,
}

module _ (old : ℕ → ℕ) (s : Machine) (ready : IsReady old s) (unknown : ℕ) (rom : Ram) where
  abbrev pub here_m : Visible
  here_m = commit_m unknown s.m (record { file = s.registers; memory = s.ram })

  abbrev pub here_e : Visible
  here_e = commit_e unknown s.front.e here_m

  abbrev pub next : Machine
  next = cycle unknown rom s

  redirects-pc_src : redirects s.front.e here_m.file ≡ pc_src_e s
  unfolding redirects pc_src_e commit_m
  redirects-pc_src = rw (src_a-retire old s ready, write_data_e-retire old s ready) refl

  view-next : view unknown next ≡ behind_e unknown here_e next.front
  unfolding view cycle
  view-next = rw (commit-next old s ready unknown (instr_mem rom s.front.pc)) refl

  penalty-next : penalty unknown next ≡ delay unknown here_e next.front
  unfolding penalty cycle
  penalty-next = rw (commit-next old s ready unknown (instr_mem rom s.front.pc)) refl

  view-here : view unknown s ≡ behind_e unknown here_m s.front
  unfolding view
  view-here = refl

  penalty-here : penalty unknown s ≡ delay unknown here_m s.front
  unfolding penalty
  penalty-here = refl

  pub front-taken :
      redirects s.front.e here_m.file ≡ true
      → next.front ≡ record { pc = target s.front.e; d = empty_d; e = bubble }
  unfolding cycle target
  front-taken taken =
      next-front-taken old s ready unknown (instr_mem rom s.front.pc) (sym redirects-pc_src ∙ taken)

  pub front-on :
      redirects s.front.e here_m.file ≡ false
      → next.front ≡ record {
        pc = add32 s.front.pc 4;
        d = fetch unknown rom s.front.pc;
        e = decode s.registers s.front.d;
      }
  unfolding cycle
  front-on on =
      next-front old s ready unknown (instr_mem rom s.front.pc) (sym redirects-pc_src ∙ on)

  -- A taken branch in stage E, one in stage D, and none.
  view-taken :
      redirects s.front.e here_m.file ≡ true
      → (view unknown next ≡ view unknown s) × (penalty unknown s ≡ suc (penalty unknown next))
  view-taken taken =
      let front = front-taken taken in
      let (here, cost) = behind_e-taken unknown here_m s.front taken in
      (
        view-next
            ∙ rw front (behind_e-empty unknown here_e (target s.front.e))
            ∙ sym here
            ∙ sym view-here,
        rw (penalty-here, cost, penalty-next, front, delay-empty unknown) refl,
      )

  module _ (on : redirects s.front.e here_m.file ≡ false) where
    view-on-taken :
        redirects (decode here_e.file s.front.d) here_e.file ≡ true
        → (view unknown next ≡ view unknown s) × (penalty unknown s ≡ suc (penalty unknown next))
    view-on-taken taken =
        let (here, cost) = behind_e-on-taken unknown here_m s.front on taken in
        let (there, rest) =
          behind_e-taken unknown here_e
            (record {
              pc = add32 s.front.pc 4;
              d = fetch unknown rom s.front.pc;
              e = decode s.registers s.front.d;
            })
            (redirects-decode s.registers here_e.file s.front.d ∙ taken) in
        (
          view-next
              ∙ rw
                  (
                    front-on on,
                    there,
                    target-decode s.registers here_e.file s.front.d,
                    commit-decode unknown s.registers here_e s.front.d,
                    view-here,
                    here,
                  )
                  refl,
          rw (penalty-here, cost, penalty-next, front-on on, rest) refl,
        )

    view-on :
        redirects (decode here_e.file s.front.d) here_e.file ≡ false
        → (view unknown next ≡ step unknown rom (view unknown s)) × (penalty unknown s ≡ 0)
    unfolding step behind_d
    view-on straight =
        let (here, cost) = behind_e-on unknown here_m s.front on straight in
        (
          view-next
              ∙ rw
                  (
                    front-on on,
                    behind_e-decode unknown s.registers here_e s.front.d
                        (fetch unknown rom s.front.pc) (add32 s.front.pc 4),
                    straight,
                    view-here,
                    here,
                  )
                  refl,
          penalty-here ∙ cost,
        )

  -- A cycle either retires one more instruction or pays for a branch.
  pub cycle-view :
      ((view unknown next ≡ step unknown rom (view unknown s)) × (penalty unknown s ≡ 0))
      ⊎ ((view unknown next ≡ view unknown s) × (penalty unknown s ≡ suc (penalty unknown next)))
  cycle-view = elim (Bool-cases (redirects s.front.e here_m.file)) [
    | inl taken ↦ inr (view-taken taken)
    | inr on ↦ elim (Bool-cases (redirects (decode here_e.file s.front.d) here_e.file)) [
      | inl taken ↦ inr (view-on-taken on taken)
      | inr straight ↦ inl (view-on on straight)
    ]
  ]

pub cycle-IsReady :
    (unknown : ℕ) (rom : Ram) (old : ℕ → ℕ) (s : Machine)
    → IsReady old s
    → IsSimple (slice (instr_mem rom s.front.pc) 0 7)
    → IsReady s.registers (cycle unknown rom s)
unfolding cycle
cycle-IsReady unknown rom old s ready here =
    next-IsReady old s ready unknown (instr_mem rom s.front.pc) here

module _ (unknown : ℕ) (rom : Ram) where
  -- What is fetched in the next `n` cycles is arithmetic, a conditional branch, a store or `jal`.
  abbrev pub AreSimple : ℕ → Machine → Type 0
  AreSimple zero s = Unit
  AreSimple (suc n) s =
      IsSimple (slice (instr_mem rom s.front.pc) 0 7) × AreSimple n (cycle unknown rom s)

  -- From a ready state, with only arithmetic, conditional branches, `jal` and stores in flight, `n` cycles that fetch
  -- only such instructions leave the registers, the memory and the program counter, as they stand behind what is
  -- in flight, as `k` steps of the machine that executes in order do: what was fetched behind a
  -- taken branch has no effect. `k` is at most `n`, and `n` is at most three times `k` plus what
  -- the branches in flight at the start still cost.
  pub cycles-steps :
      (n : ℕ) (old : ℕ → ℕ) (s : Machine)
      → IsReady old s
      → AreSimple n s
      → (k : ℕ) × (view unknown (cycles unknown rom n s) ≡ steps unknown rom k (view unknown s))
        × (k ≤ n)
        × (n ≤ 3 * k + penalty unknown s)
  unfolding cycles steps
  cycles-steps zero old s ready simple = (0, refl, omega arith, omega arith)
  cycles-steps (suc n) old s ready (here, simple) =
      let (k, same, less, enough) =
        cycles-steps n s.registers (cycle unknown rom s)
          (cycle-IsReady unknown rom old s ready here) simple in
      let bound = penalty-≤2 unknown (cycle unknown rom s) in
      elim (cycle-view old s ready unknown rom) [
        | inl (moved, free) ↦
            (suc k, same ∙ ap (steps unknown rom k) moved, omega arith, omega arith)
        | inr (stayed, paid) ↦ (k, same ∙ ap (steps unknown rom k) stayed, omega arith, omega arith)
      ]
