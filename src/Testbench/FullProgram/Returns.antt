-- ===== src/Testbench/FullProgram/Returns.antt =====
-- The testbench of whole programs with a board that acknowledges what it is told.
use risc_v_cpu.Base.{
  ℕ, suc, ◌+◌, ◌^◌, ◌≤◌, ◌≡◌, ◌∙◌, refl, Bool, Option, false, some, ap, List, [], ◌∷◌, ◌++◌, map,
  length, arith,
}
use risc_v_cpu.Base.Int.{pos}
use mathlib.Core.Path.{subst}
use mathlib.Core.List.{append_assoc}
use risc_v_cpu.Memory.{Ram}
use risc_v_cpu.Serial.{Rx, World, done, >>=-done}
use risc_v_cpu.Serial.Device.{Port, open_device, close_device}
use risc_v_cpu.Processor.{Machine}
use risc_v_cpu.Vbuddy.{vbd_open, vbd_close}
use risc_v_cpu.Vbuddy.Message.{clear_text, stop_text, header_text, bar_text}
use risc_v_cpu.Vbuddy.Commands.{Call, header, bar, run, message}
use risc_v_cpu.Vbuddy.Session.{opening, vbd_open_lem, vbd_close_lem}
use risc_v_cpu.Testbench.FullProgram.{Program, header_of, simulate, with_board, full_program}
use risc_v_cpu.Testbench.FullProgram.Session.{Answers, all_read, line, run_next, session}
use risc_v_cpu.Testbench.FullProgram.Simulated.{simulate_keys_lem}
use risc_v_cpu.Testbench.FullProgram.Typed.{simulate-simulate_keys}
use risc_v_cpu.Vbuddy.Keyboard.{Keyboard, IsSetUp, CountsBytes, queue_at, key_at}
use risc_v_cpu.Vbuddy.Config.{port_name, vbd_open_config, vbd_open_config-some}

regroup :
    (xs ms : List (List ℕ)) (first last end_text : List ℕ)
    → (((xs ++ first ∷ []) ++ ms) ++ last ∷ []) ++ end_text ∷ []
      ≡ xs ++ (first ∷ (ms ++ last ∷ end_text ∷ []))
regroup xs ms first last end_text =
    append_assoc ((xs ++ first ∷ []) ++ ms) (last ∷ []) (end_text ∷ [])
    ∙ append_assoc (xs ++ first ∷ []) ms (last ∷ end_text ∷ [])
    ∙ append_assoc xs (first ∷ []) (ms ++ last ∷ end_text ∷ [])

module _ (rest : List Rx) (fuel : ℕ) (stack : List ℕ) (size : length stack ≡ 80) where
  -- The start and the end of the run.
  open_next :
      (k d : ℕ) (p : Port) (replies : List Rx) (more : List (List Rx)) (w : World)
      → w.later ≡ replies ∷ more
      → Answers rest (suc k) replies
      → (v : World) × (vbd_open (suc fuel) stack (some d) p w ≡ done (opening (some d) p) v)
        × (v.sent ≡ w.sent ++ clear_text ∷ [])
        × Answers rest k v.rx
  open_next k d p replies more w next (line text a avoids fits later) =
      let (v, e, one, sent, left) =
        vbd_open_lem fuel d stack text p replies more w size next a avoids fits in
      (v, e, sent, rw left later)

  close_next :
      (p : Port) (w : World)
      → Answers rest 1 w.rx
      → (v : World) × (vbd_close (suc fuel) stack p w ≡ done (close_device p) v)
        × (v.sent ≡ w.sent ++ stop_text ∷ [])
        × (v.rx ≡ rest)
  close_next p w (line text a avoids fits (all_read e)) =
      let (v, closes, shut, sent, left) = vbd_close_lem fuel stack text p w size a avoids fits in
      (v, closes, sent, left ∙ e)

  -- The keyboard of the run, on a terminal that counts the bytes waiting in it outside the line mode.
  module _ (bytes_waiting : Bool → List ℕ → ℕ) (counts : CountsBytes bytes_waiting)
      (arrive : ℕ → List ℕ) (unknown : ℕ) (rom : Ram) (program : Program) where
    -- What the board is told in the cycles.
    abbrev pub told_by_keys : Keyboard → ℕ → Machine → List Call
    told_by_keys k n s = session unknown rom program (key_at k.typed arrive) n 0 false s

    with_board-returns :
        (n : ℕ) (p : Port) (s : Machine) (k : Keyboard) (w : World)
        → IsSetUp k
        → n ≤ 2 ^ 31
        → length (header_of program) ≤ 75
        → Answers rest (length (told_by_keys k n s) + 3) w.rx
        → (v : World) × (with_board unknown rom
              (suc fuel)
              stack
              program
              bytes_waiting
              arrive
              n
              p
              s
              k
              w
            ≡ done (pos 0) v)
          × (v.sent
              ≡ w.sent
                ++ (header_text (header_of program)
                    ∷ (map message (told_by_keys k n s) ++ bar_text (pos 0) ∷ stop_text ∷ [])))
          × (v.rx ≡ rest)
    unfolding with_board
    with_board-returns n p s k w set_up small fits answers =
        let told = told_by_keys k n s in
        let loop =
          simulate-simulate_keys bytes_waiting counts k.typed arrive unknown rom (suc fuel) stack
            program n 0 false s k set_up (unfold queue_at in refl) in
        let (w1, e1, s1, a1) =
          run_next rest fuel stack size (header (header_of program)) (length told + 2) w fits
            (subst (λ k. Answers rest k w.rx) (omega arith) answers) in
        let (w2, e2, s2, a2) =
          simulate_keys_lem rest fuel stack size unknown rom program (key_at k.typed arrive) n 0
            false s 2 w1 (omega arith) a1 in
        let (w3, e3, s3, a3) = run_next rest fuel stack size (bar (pos 0)) 1 w2 (omega arith) a2 in
        let (w4, e4, s4, a4) = close_next p w3 a3 in
        (
          w4,
          >>=-done (run (suc fuel) stack (header (header_of program))) _ w e1
              ∙ >>=-done
                  (simulate unknown rom (suc fuel) stack program bytes_waiting arrive n 0 false s k)
                  _ w1 (rw loop e2)
              ∙ >>=-done (run (suc fuel) stack (bar (pos 0))) _ w2 e3
              ∙ >>=-done (vbd_close (suc fuel) stack p) _ w3 e4,
          s4
              ∙ rw (s3, s2, s1)
                  (regroup w.sent (map message told) (header_text (header_of program))
                    (bar_text (pos 0)) stop_text),
          a4,
        )

    -- The testbench with a program, with an array of 80 bytes, on a port whose name stands in
    -- vbuddy.cfg, a board that opens and acknowledges what it is told, and a terminal that counts
    -- the bytes waiting in it outside the line mode, from which nothing has been read ahead and
    -- which is set up if vbdGetkey was called before, returns 0 after at most MAX_SIM_CYC cycles,
    -- for a MAX_SIM_CYC of at most 2^31 and a header of at most 75 characters. It has cleared the
    -- screen, shown the header, the output of the cycles up to the key `q`, and an empty bar, and
    -- stopped the board, and has told it nothing else.
    pub full_program-returns :
        (config : Option (List ℕ)) (opens : List ℕ → Option ℕ) (name : List ℕ) (max_sim_cyc d : ℕ)
        (p : Port) (s : Machine) (k : Keyboard) (replies : List Rx) (more : List (List Rx))
        (w : World)
        → port_name config ≡ some name
        → opens name ≡ some d
        → IsSetUp k
        → max_sim_cyc ≤ 2 ^ 31
        → length (header_of program) ≤ 75
        → w.later ≡ replies ∷ more
        → Answers rest (length (told_by_keys k max_sim_cyc s) + 4) replies
        → (v : World) × (full_program unknown rom
              (suc fuel)
              stack
              program
              bytes_waiting
              arrive
              max_sim_cyc
              config
              opens
              p
              s
              k
              w
            ≡ done (pos 0) v)
          × (v.sent
              ≡ w.sent
                ++ (clear_text
                    ∷ header_text (header_of program)
                    ∷ (map message (told_by_keys k max_sim_cyc s)
                        ++ bar_text (pos 0) ∷ stop_text ∷ [])))
          × (v.rx ≡ rest)
    unfolding full_program open_device
    full_program-returns config opens name max_sim_cyc d p s k replies more w named here set_up
          small fits next answers =
        let told = told_by_keys k max_sim_cyc s in
        let n = length told in
        let (u, opened, sent, left) =
          open_next (n + 3) d p replies more w next
            (subst (λ k. Answers rest k replies) (omega arith) answers) in
        let (v, e, sent', read) =
          with_board-returns max_sim_cyc (opening (some d) p).1 s k u set_up small fits left in
        (
          v,
          >>=-done (vbd_open_config (suc fuel) stack config opens p) _ w (
                vbd_open_config-some (suc fuel) stack name config opens p w named
                ∙ ap (λ port. vbd_open (suc fuel) stack port p w) here
                ∙ opened)
              ∙ e,
          sent'
              ∙ rw sent (
                  append_assoc w.sent (clear_text ∷ []) (
                    header_text (header_of program)
                    ∷ (map message told ++ bar_text (pos 0) ∷ stop_text ∷ []))),
          read,
        )
