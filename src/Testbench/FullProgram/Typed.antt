-- ===== src/Testbench/FullProgram/Typed.antt =====
-- The loop of the testbench of whole programs with a keyboard.
use risc_v_cpu.Base.{ℕ, zero, suc, ◌≡◌, ◌∙◌, refl, Bool, some, List, ◌++◌, drop}
use risc_v_cpu.Memory.{Ram}
use risc_v_cpu.Processor.{Machine}
use risc_v_cpu.Vbuddy.Keyboard.{
  Keyboard, IsSetUp, CountsBytes, type_in, type_in-IsSetUp, get_key, get_key_lem, behind,
  behind-IsSetUp, queue_at, key_at,
}
use risc_v_cpu.Testbench.FullProgram.{Program, shown, sim_cycle, simulate}
use risc_v_cpu.Testbench.FullProgram.Simulated.{simulate_keys}

module _ (bytes_waiting : Bool → List ℕ → ℕ) (counts : CountsBytes bytes_waiting) (start : List ℕ)
    (arrive : ℕ → List ℕ) where
  -- The key of a cycle, and the keyboard behind it.
  next_key :
      (i : ℕ) (k : Keyboard)
      → IsSetUp k
      → k.typed ++ arrive i ≡ queue_at start arrive i
      → get_key bytes_waiting (type_in (arrive i) k)
        ≡ some (key_at start arrive i, behind (drop 1 (queue_at start arrive i)))
  unfolding key_at type_in
  next_key i k h at =
      get_key_lem bytes_waiting counts (type_in (arrive i) k) (type_in-IsSetUp (arrive i) k h)
      ∙ rw at refl

  module _ (unknown : ℕ) (rom : Ram) (fuel : ℕ) (stack : List ℕ) (program : Program) where
    pub simulate-simulate_keys :
        (n simcyc : ℕ) (started : Bool) (s : Machine) (k : Keyboard)
        → IsSetUp k
        → k.typed ++ arrive simcyc ≡ queue_at start arrive simcyc
        → simulate unknown rom fuel stack program bytes_waiting arrive n simcyc started s k
          ≡ simulate_keys unknown rom fuel stack program (key_at start arrive) n simcyc started s
    unfolding simulate_keys simulate key_at
    simulate-simulate_keys zero simcyc started s k h at = refl
    simulate-simulate_keys (suc n) simcyc started s k h at =
        rw (simulate, next_key simcyc k h at)
          (rw
            (simulate-simulate_keys n (suc simcyc) (shown unknown rom program simcyc started s).0
              (sim_cycle unknown rom simcyc s) (behind (drop 1 (queue_at start arrive simcyc)))
              (behind-IsSetUp (drop 1 (queue_at start arrive simcyc))) (unfold queue_at in refl))
            refl)
