-- ===== src/Testbench/FullProgram/Session.antt =====
-- What the testbench of whole programs tells the board, and a board that acknowledges it.
use risc_v_cpu.Base.{
  ℕ, zero, suc, ◌+◌, ◌%◌, ◌^◌, ◌<◌, ◌≡◌, refl, ◌∙◌, sym, ap, Bool, true, false, not, ◌&&◌, ◌==◌,
  if◌then◌else◌, List, [], ◌∷◌, ◌++◌, map, length, arith,
}
use risc_v_cpu.Base.Int.{ℤ}
use mathlib.Core.Path.{subst}
use mathlib.Core.List.{append_assoc, append-nil}
use risc_v_cpu.Memory.{Ram}
use risc_v_cpu.Serial.{Rx, World, done, >>=-done}
use risc_v_cpu.Serial.Read.Arrival.{Arrives, Avoids}
use risc_v_cpu.Processor.{Machine}
use risc_v_cpu.Vbuddy.Message.{IsInt}
use risc_v_cpu.Vbuddy.Commands.{Call, run, message, IsAllowed, run_lem}
use risc_v_cpu.Testbench.FullProgram.{
  Program, f1_starting_light, pdf, named, reg_output, show_output, calls_of, run_all, sim_cycle,
  shown,
}

-- The port delivers `k` acknowledgements, lines that start with `$` and are short enough.
pub data Answers (rest : List Rx) : ℕ → List Rx → Type 0 where
  all_read : {rx : List Rx} → rx ≡ rest → Answers rest zero rx
  line :
      {k : ℕ} {rx mid : List Rx} (text : List ℕ)
      → Arrives mid rx ((b'$' ∷ text) ++ b'\n' ∷ [])
      → Avoids b'\n' text
      → length text < 78
      → Answers rest k mid
      → Answers rest (suc k) rx

abbrev pub AreAllowed : List Call → Type 0
AreAllowed [] = Unit
AreAllowed (call ∷ calls) = IsAllowed call × AreAllowed calls

pub reg_output-IsInt : (s : Machine) → IsInt (reg_output s)
reg_output-IsInt s = ground arith

ite-AreAllowed :
    (b : Bool) (x y : Bool × List Call)
    → AreAllowed x.1
    → AreAllowed y.1
    → AreAllowed (if b then x else y).1
ite-AreAllowed true x y hx hy = hx
ite-AreAllowed false x y hx hy = hy

pub calls_of-AreAllowed :
    (program : Program) (simcyc : ℕ) (started : Bool) (output : ℤ) (pc_viewer : ℕ)
    → simcyc < 2 ^ 31
    → IsInt output
    → AreAllowed (calls_of program simcyc started output pc_viewer).1
unfolding calls_of
calls_of-AreAllowed f1_starting_light simcyc started output pc_viewer small int = (int, (small, tt))
calls_of-AreAllowed pdf simcyc started output pc_viewer small int =
    ite-AreAllowed (not started && pc_viewer == 0x60) (true, []) _ tt
      (ite-AreAllowed started _ (started, [])
        (ite-AreAllowed (simcyc % 4 == 0) (started, show_output output simcyc) (started, [])
          ((int, omega arith, omega arith), (small, tt)) tt)
        tt)
calls_of-AreAllowed (named text) simcyc started output pc_viewer small int =
    ((int, omega arith, omega arith), (small, tt))

-- What the board is told over the cycles, up to the key that ends the run.
module _ (unknown : ℕ) (rom : Ram) (program : Program) (keys : ℕ → ℕ) where
  unfoldable pub session : ℕ → ℕ → Bool → Machine → List Call
  session zero simcyc started s = []
  session (suc n) simcyc started s =
      let later =
        session n (suc simcyc) (shown unknown rom program simcyc started s).0
          (sim_cycle unknown rom simcyc s) in
      if keys simcyc == b'q' then [] else ((shown unknown rom program simcyc started s).1 ++ later)

pub map-append : (f : Call → List ℕ) (xs ys : List Call) → map f (xs ++ ys) ≡ map f xs ++ map f ys
map-append f [] ys = refl
map-append f (x ∷ xs) ys = ap (λ (l : List (List ℕ)). f x ∷ l) (map-append f xs ys)

module _ (rest : List Rx) (fuel : ℕ) (stack : List ℕ) (size : length stack ≡ 80) where
  -- One call, with its answer taken from those to come.
  pub run_next :
      (call : Call) (k : ℕ) (w : World)
      → IsAllowed call
      → Answers rest (suc k) w.rx
      → (v : World) × (run (suc fuel) stack call w ≡ done tt v)
        × (v.sent ≡ w.sent ++ message call ∷ [])
        × Answers rest k v.rx
  run_next call k w ok (line text a avoids fits later) =
      let (v, e, sent, left) = run_lem fuel stack text call w ok size a avoids fits in
      (v, e, sent, rw left later)

  pub run_all_lem :
      (calls : List Call) (k : ℕ) (w : World)
      → AreAllowed calls
      → Answers rest (length calls + k) w.rx
      → (v : World) × (run_all (suc fuel) stack calls w ≡ done tt v)
        × (v.sent ≡ w.sent ++ map message calls)
        × Answers rest k v.rx
  unfolding run_all
  run_all_lem [] k w ok answers =
      (w, refl, sym (append-nil w.sent), subst (λ n. Answers rest n w.rx) (omega arith) answers)
  run_all_lem (call ∷ calls) k w (ok, oks) answers =
      let (u, e, sent, left) =
        run_next call (length calls + k) w ok
          (subst (λ n. Answers rest n w.rx) (omega arith) answers) in
      let (v, e', sent', left') = run_all_lem calls k u oks left in
      (
        v,
        >>=-done (run (suc fuel) stack call) (λ _. run_all (suc fuel) stack calls) w e ∙ e',
        sent' ∙ rw sent (append_assoc w.sent (message call ∷ []) (map message calls)),
        left',
      )
