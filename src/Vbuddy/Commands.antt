-- ===== src/Vbuddy/Commands.antt =====
-- The commands of vbuddy/vbuddy.cpp, each a message that the board acknowledges.
use risc_v_cpu.Base.{
  ◌↔◌, ◌⊎◌, sym, inl, inr, ℕ, suc, ◌+◌, ◌≤◌, ◌<◌, ◌≡◌, refl, ap, ◌∙◌, List, [], ◌∷◌, ◌++◌, length,
  lt→ltb, some, Option, none, arith,
}
use risc_v_cpu.Base.Int.{ℤ}
use risc_v_cpu.Serial.{Rx, World, Outcome, done, fault, >>=-fault}
use risc_v_cpu.Serial.Read.Arrival.{Arrives, Avoids}
use risc_v_cpu.Vbuddy.Message.{
  IsInt, show_int, length-show_int, clear_text, hex_text, plot_text, header_text, cycle_text,
  mode_text, analog_text, sample_text, analog_on_text, analog_off_text, mic_in_text, bar_text,
  watch_text,
}
use risc_v_cpu.Vbuddy.{
  send, command, vbd_clear, vbd_hex, vbd_plot, vbd_header, vbd_cycle, vbd_set_mode,
  vbd_init_analog_out, vbd_output_sample, vbd_aout_on, vbd_aout_off, vbd_init_mic_in, vbd_bar,
  vbd_init_watch,
}
use risc_v_cpu.Vbuddy.Exchange.{command_lem}
use risc_v_cpu.Vbuddy.Fit.{length-one, length-plot_text, length-cycle_text, length-hex_text}

-- A call of the library that sends a command.
pub data Call : Type 0 where
  clear aout_on aout_off init_watch : Call
  hex : ℕ → ℤ → Call
  plot : ℤ → ℤ → ℤ → Call
  header : List ℕ → Call
  cycle set_mode init_analog_out output_sample init_mic_in bar : ℤ → Call

-- The function that is called.
unfoldable pub run : ℕ → List ℕ → Call → World → Outcome (Unit {0})
run fuel stack clear = vbd_clear fuel stack
run fuel stack aout_on = vbd_aout_on fuel stack
run fuel stack aout_off = vbd_aout_off fuel stack
run fuel stack init_watch = vbd_init_watch fuel stack
run fuel stack (hex digit v) = vbd_hex fuel stack digit v
run fuel stack (plot y low high) = vbd_plot fuel stack y low high
run fuel stack (header text) = vbd_header fuel stack text
run fuel stack (cycle n) = vbd_cycle fuel stack n
run fuel stack (set_mode mode) = vbd_set_mode fuel stack mode
run fuel stack (init_analog_out samples) = vbd_init_analog_out fuel stack samples
run fuel stack (output_sample sample) = vbd_output_sample fuel stack sample
run fuel stack (init_mic_in samples) = vbd_init_mic_in fuel stack samples
run fuel stack (bar v) = vbd_bar fuel stack v

-- What the board is told: the frame of the protocol for the call.
abbrev pub message : Call → List ℕ
message clear = clear_text
message aout_on = analog_on_text
message aout_off = analog_off_text
message init_watch = watch_text
message (hex digit v) = b'$' ∷ b'H' ∷ (b'0' + digit) ∷ b',' ∷ show_int v ++ b'\n' ∷ []
message (plot y low high) = plot_text y low high
message (header text) = header_text text
message (cycle n) = cycle_text n
message (set_mode mode) = mode_text mode
message (init_analog_out samples) = analog_text samples
message (output_sample sample) = sample_text sample
message (init_mic_in samples) = mic_in_text samples
message (bar v) = bar_text v

-- The arguments that the library's comments allow: C ints, a digit up to 5, and a header that fits.
abbrev pub IsAllowed : Call → Type 0
IsAllowed (hex digit v) = (digit ≤ 5) × IsInt v
IsAllowed (plot y low high) = IsInt y × IsInt low × IsInt high
IsAllowed (header text) = length text ≤ 75
IsAllowed (cycle n) = IsInt n
IsAllowed (set_mode n) = IsInt n
IsAllowed (init_analog_out n) = IsInt n
IsAllowed (output_sample n) = IsInt n
IsAllowed (init_mic_in n) = IsInt n
IsAllowed (bar n) = IsInt n
IsAllowed other = Unit

hex_text-le : (digit : ℕ) (v : ℤ) → digit ≤ 5 → hex_text digit v ≡ some (message (hex digit v))
unfolding hex_text
hex_text-le digit v h = rw (lt→ltb digit 6 (omega arith))

run-command :
    (fuel : ℕ) (stack : List ℕ) (call : Call) (w : World)
    → IsAllowed call
    → run fuel stack call w ≡ command fuel stack (message call) w
unfolding run vbd_clear vbd_hex vbd_plot vbd_header vbd_cycle vbd_set_mode vbd_init_analog_out
    vbd_output_sample vbd_aout_on vbd_aout_off vbd_init_mic_in vbd_bar vbd_init_watch
run-command fuel stack clear w ok = refl
run-command fuel stack aout_on w ok = refl
run-command fuel stack aout_off w ok = refl
run-command fuel stack init_watch w ok = refl
run-command fuel stack (hex digit v) w (small, int) =
    ap
      (λ (o : Option (List ℕ)). elim o as (λ _. Outcome (Unit {0})) [
        | none ↦ fault
        | some text ↦ command fuel stack text w
      ])
      (hex_text-le digit v small)
run-command fuel stack (plot y low high) w ok = refl
run-command fuel stack (header text) w ok = refl
run-command fuel stack (cycle v) w ok = refl
run-command fuel stack (set_mode v) w ok = refl
run-command fuel stack (init_analog_out v) w ok = refl
run-command fuel stack (output_sample v) w ok = refl
run-command fuel stack (init_mic_in v) w ok = refl
run-command fuel stack (bar v) w ok = refl

message-fits : (call : Call) → IsAllowed call → length (message call) < 80
message-fits clear ok = omega arith
message-fits aout_on ok = omega arith
message-fits aout_off ok = omega arith
message-fits init_watch ok = omega arith
message-fits (hex digit v) (small, int) =
    omega (arith, length-hex_text digit v (message (hex digit v)) int (hex_text-le digit v small))
message-fits (plot y low high) (hy, hl, hh) = omega (arith, length-plot_text y low high hy hl hh)
message-fits (header text) ok = omega (arith, length-one text)
message-fits (cycle v) ok = omega (arith, length-cycle_text v ok)
message-fits (set_mode v) ok = omega (arith, length-one (b',' ∷ show_int v), length-show_int v ok)
message-fits (init_analog_out v) ok =
    omega (arith, length-one (b',' ∷ show_int v), length-show_int v ok)
message-fits (output_sample v) ok =
    omega (arith, length-one (b',' ∷ show_int v), length-show_int v ok)
message-fits (init_mic_in v) ok =
    omega (arith, length-one (b',' ∷ show_int v), length-show_int v ok)
message-fits (bar v) ok = omega (arith, length-one (b',' ∷ show_int v), length-show_int v ok)

-- With allowed arguments, an array of 80 bytes, and a board that answers with a line that starts
-- with `$` and has fewer than 79 characters, each function that sends a command returns after one
-- round, has sent its own message and nothing else, and leaves what the port has behind the line.
pub run_lem :
    {rest : List Rx} (fuel : ℕ) (stack line : List ℕ) (call : Call) (w : World)
    → IsAllowed call
    → length stack ≡ 80
    → Arrives rest w.rx ((b'$' ∷ line) ++ b'\n' ∷ [])
    → Avoids b'\n' line
    → length line < 78
    → (v : World) × (run (suc fuel) stack call w ≡ done tt v)
      × (v.sent ≡ w.sent ++ message call ∷ [])
      × (v.rx ≡ rest)
run_lem fuel stack line call w ok size a avoids fits =
    let (v, e, sent, left) =
      command_lem fuel stack (message call) line w size (message-fits call ok) a avoids fits in
    (v, run-command (suc fuel) stack call w ok ∙ e, sent, left)

header_overflows :
    (fuel : ℕ) (stack text : List ℕ) (w : World)
    → 76 ≤ length text
    → run (suc fuel) stack (header text) w ≡ fault
unfolding run vbd_header command send
header_overflows fuel stack text w long =
    >>=-fault (send 80 (header_text text)) _ w (ground (arith, length-one text, long))

-- With an array of 80 bytes and a board that answers with a line that starts with `$` and has fewer than 79 characters,
-- vbdHeader returns exactly for a header of at most 75 characters, and writes behind its array for every other.
pub header-fits :
    {rest : List Rx} (fuel : ℕ) (stack line text : List ℕ) (w : World)
    → length stack ≡ 80
    → Arrives rest w.rx ((b'$' ∷ line) ++ b'\n' ∷ [])
    → Avoids b'\n' line
    → length line < 78
    → (((v : World) × (run (suc fuel) stack (header text) w ≡ done tt v)) ↔ (length text ≤ 75))
      × ((run (suc fuel) stack (header text) w ≡ fault) ↔ (76 ≤ length text))
header-fits {rest} fuel stack line text w size a avoids fits = elim (short_or_long (length text)) [
  | inl short ↦
      let (v, e, sent, left) =
        run_lem {rest = rest} fuel stack line (header text) w short size a avoids fits in
      (
        (λ returns. short, λ less. (v, e)),
        (λ faults. absurd (not_both (sym e ∙ faults)), λ long. absurd (omega arith)),
      )
  | inr long ↦
      let e = header_overflows fuel stack text w long in
      (
        (λ (v, returns). absurd (not_both (sym returns ∙ e)), λ less. absurd (omega arith)),
        (λ faults. long, λ more. e),
      )
]
  where
    short_or_long : (n : ℕ) → (n ≤ 75) ⊎ (76 ≤ n)
    short_or_long n = ground arith

    not_both : {v : World} → ◌≡◌ {A = Outcome (Unit {0})} (done tt v) fault → ⊥
    not_both e = cc e
