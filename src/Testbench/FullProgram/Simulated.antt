-- ===== src/Testbench/FullProgram/Simulated.antt =====
-- The loop of the testbench of whole programs on a board that acknowledges what it is told.
use risc_v_cpu.Base.{
  ℕ, zero, suc, ◌+◌, ◌^◌, ◌≤◌, ◌<◌, ◌≡◌, refl, ◌∙◌, sym, Bool, Bool-cases, true, false, ◌==◌,
  if◌then◌else◌, List, [], ◌++◌, map, length, length-append, inl, inr, arith,
}
use mathlib.Core.Path.{subst}
use mathlib.Core.List.{append_assoc, append-nil}
use risc_v_cpu.Memory.{Ram}
use risc_v_cpu.Serial.{Rx, World, Outcome, done, >>=-done, ◌>>◌, pure}
use risc_v_cpu.Processor.{Machine}
use risc_v_cpu.Vbuddy.Commands.{Call, message}
use risc_v_cpu.Testbench.FullProgram.{Program, run_all, before_edge, sim_cycle, shown}
use risc_v_cpu.Testbench.FullProgram.Session.{
  Answers, AreAllowed, reg_output-IsInt, calls_of-AreAllowed, map-append, run_all_lem, session,
}

-- The loop with what vbdGetkey returns in each cycle.
module _ (unknown : ℕ) (rom : Ram) (fuel : ℕ) (stack : List ℕ) (program : Program)
    (keys : ℕ → ℕ) where
  unfoldable pub simulate_keys : ℕ → ℕ → Bool → Machine → World → Outcome (Unit {0})
  simulate_keys zero simcyc started s = pure tt
  simulate_keys (suc n) simcyc started s =
      let rest =
        simulate_keys n (suc simcyc) (shown unknown rom program simcyc started s).0
          (sim_cycle unknown rom simcyc s) in
      if keys simcyc == b'q'
      then pure tt
      else (run_all fuel stack (shown unknown rom program simcyc started s).1 >> rest)

module _ (rest : List Rx) (fuel : ℕ) (stack : List ℕ) (size : length stack ≡ 80) where
  module _ (unknown : ℕ) (rom : Ram) (program : Program) (keys : ℕ → ℕ) where
    abbrev told : ℕ → ℕ → Bool → Machine → List Call
    told = session unknown rom program keys

    abbrev simulated : ℕ → ℕ → Bool → Machine → World → Outcome (Unit {0})
    simulated = simulate_keys unknown rom (suc fuel) stack program keys

    module _ (n simcyc : ℕ) (started : Bool) (s : Machine) where
      abbrev now : List Call
      now = (shown unknown rom program simcyc started s).1

      abbrev later : Bool
      later = (shown unknown rom program simcyc started s).0

      quits :
          (w : World)
          → (keys simcyc == b'q') ≡ true
          → (simulated (suc n) simcyc started s w ≡ done tt w)
            × (told (suc n) simcyc started s ≡ [])
      unfolding simulate_keys session
      quits w quit = (rw quit refl, rw quit refl)

      goes_on :
          (w : World)
          → (keys simcyc == b'q') ≡ false
          → (simulated (suc n) simcyc started s w
              ≡ (run_all (suc fuel) stack now
                    >> simulated n (suc simcyc) later (sim_cycle unknown rom simcyc s))
                  w)
            × (told (suc n) simcyc started s
                ≡ now ++ told n (suc simcyc) later (sim_cycle unknown rom simcyc s))
      unfolding simulate_keys session
      goes_on w on = (rw on refl, rw on refl)

      now-AreAllowed : simcyc < 2 ^ 31 → AreAllowed now
      unfolding shown
      now-AreAllowed small =
          calls_of-AreAllowed program simcyc started _ _ small
            (reg_output-IsInt (before_edge simcyc s))

    abbrev Shows : ℕ → ℕ → Bool → Machine → ℕ → World → Type 0
    Shows n simcyc started s k w =
        (v : World) × (simulated n simcyc started s w ≡ done tt v)
        × (v.sent ≡ w.sent ++ map message (told n simcyc started s))
        × Answers rest k v.rx

    pub simulate_keys_lem :
        (n simcyc : ℕ) (started : Bool) (s : Machine) (k : ℕ) (w : World)
        → simcyc + n ≤ 2 ^ 31
        → Answers rest (length (told n simcyc started s) + k) w.rx
        → Shows n simcyc started s k w
    simulate_keys_lem zero simcyc started s k w small answers =
        unfold simulate_keys session in
        (w, refl, sym (append-nil w.sent), subst (λ n. Answers rest n w.rx) (omega arith) answers)
    simulate_keys_lem (suc n) simcyc started s k w small answers =
        elim (Bool-cases (keys simcyc == b'q')) [
          | inl quit ↦
              (let (e, none_told) = quits n simcyc started s w quit in
                (
                  w,
                  e,
                  rw none_told (sym (append-nil w.sent)),
                  subst (λ n. Answers rest n w.rx) (rw none_told (omega arith)) answers,
                ))
          | inr on ↦
              (let here = now n simcyc started s in
                let after = sim_cycle unknown rom simcyc s in
                let others = told n (suc simcyc) (later n simcyc started s) after in
                let (e, more_told) = goes_on n simcyc started s w on in
                let (u, ran, sent, left) =
                  run_all_lem rest fuel stack size here (length others + k) w
                    (now-AreAllowed n simcyc started s (omega arith))
                    (subst (λ n. Answers rest n w.rx)
                      (rw more_told (omega (arith, length-append here others))) answers) in
                let (v, ran', sent', left') =
                  simulate_keys_lem n (suc simcyc) (later n simcyc started s) after k u
                    (omega arith) left in
                (
                  v,
                  e
                      ∙ >>=-done (run_all (suc fuel) stack here)
                          (λ _. simulated n (suc simcyc) (later n simcyc started s) after) w ran
                      ∙ ran',
                  sent'
                      ∙ rw (sent, more_told, map-append message here others)
                          (append_assoc w.sent (map message here) (map message others)),
                  left',
                ))
        ]
