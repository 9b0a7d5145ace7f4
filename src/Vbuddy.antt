-- ===== src/Vbuddy.antt =====
-- vbuddy/vbuddy.cpp, the functions of the Vbuddy board: a message goes out, and the board
-- acknowledges it or replies. An array on the stack has the bytes that stood there before.
pub mod Message
pub mod Reply
pub mod Exchange
pub mod Session
pub mod Commands
pub mod Fit
pub mod Keyboard
pub mod Config
use risc_v_cpu.Base.{
  ℕ, zero, suc, ◌+◌, Bool, true, false, Option, none, some, List, [], ◌∷◌, ◌++◌, ltb, ◌==◌,
  if◌then◌else◌, get_or, length, write_text,
}
use risc_v_cpu.Base.Int.{ℤ, pos, negsuc}
use risc_v_cpu.Serial.{
  World, Outcome, done, fault, stuck, ◌>>=◌, ◌>>◌, pure, flush_receiver, write_string,
}
use risc_v_cpu.Serial.Read.{TextRead, read_string_no_time_out}
use risc_v_cpu.Serial.Device.{databits_8, stopbits_1, parity_none, Port, open_device, close_device}
use risc_v_cpu.Vbuddy.Message.{
  clear_text, stop_text, hex_text, plot_text, header_text, cycle_text, flag_text, mode_text,
  value_text, analog_text, sample_text, analog_on_text, analog_off_text, mic_in_text, mic_text,
  bar_text, watch_text, elapsed_text,
}
use risc_v_cpu.Vbuddy.Reply.{Parsed, parse_reply}

-- `sprintf(msg, …)` into an array of this size and `serial.writeString(msg)`: the text and its 0 have
-- to fit the array.
pub send : ℕ → List ℕ → World → Outcome (Unit {0})
send size text w = if ltb (length text) size then write_string text w else fault

-- The loop of `ack`; a round takes one unit of fuel.
pub ack_loop : ℕ → List ℕ → World → Outcome (Unit {0})
ack_loop zero received w = stuck
ack_loop (suc fuel) received w =
    let again = λ (r : TextRead) (v : World).
      (let rest = ack_loop fuel r.1 v in if get_or r.1 0 0 == b'$' then done tt v else rest) in
    (read_string_no_time_out received b'\n' 80 >>= again) w

-- `fuel` bounds the rounds of the loop that waits, and `stack` is what the array of 80 bytes held.
module _ (fuel : ℕ) (stack : List ℕ) where
  -- `sprintf`, `writeString`, `ack`.
  pub command : List ℕ → World → Outcome (Unit {0})
  unfolding send ack_loop
  command text = send 80 text >> ack_loop fuel stack

  pub vbd_clear : World → Outcome (Unit {0})
  vbd_clear = command clear_text

  -- With no case for the digit, `msg` was never written.
  pub vbd_hex : ℕ → ℤ → World → Outcome (Unit {0})
  vbd_hex digit v w = elim (hex_text digit v) [ none ↦ fault | some text ↦ command text w ]

  pub vbd_plot : ℤ → ℤ → ℤ → World → Outcome (Unit {0})
  vbd_plot y low high = command (plot_text y low high)

  pub vbd_header : List ℕ → World → Outcome (Unit {0})
  vbd_header header = command (header_text header)

  pub vbd_cycle : ℤ → World → Outcome (Unit {0})
  vbd_cycle cycle = command (cycle_text cycle)

  pub vbd_set_mode : ℤ → World → Outcome (Unit {0})
  vbd_set_mode mode = command (mode_text mode)

  pub vbd_init_analog_out : ℤ → World → Outcome (Unit {0})
  vbd_init_analog_out samples = command (analog_text samples)

  pub vbd_output_sample : ℤ → World → Outcome (Unit {0})
  vbd_output_sample sample = command (sample_text sample)

  pub vbd_aout_on : World → Outcome (Unit {0})
  vbd_aout_on = command analog_on_text

  pub vbd_aout_off : World → Outcome (Unit {0})
  vbd_aout_off = command analog_off_text

  pub vbd_init_mic_in : ℤ → World → Outcome (Unit {0})
  vbd_init_mic_in samples = command (mic_in_text samples)

  pub vbd_bar : ℤ → World → Outcome (Unit {0})
  vbd_bar v = command (bar_text v)

  pub vbd_init_watch : World → Outcome (Unit {0})
  vbd_init_watch = command watch_text

  -- The port is opened by the name in `vbuddy.cfg`; `opened` is what `open` returns for it.
  pub vbd_open : Option ℕ → Port → World → Outcome (ℤ × Port)
  unfolding vbd_clear
  vbd_open opened p =
      let r = open_device opened 115200 databits_8 parity_none stopbits_1 p in
      elim r.0 [ pos (suc zero) ↦ flush_receiver >> (vbd_clear >> pure r) | other ↦ pure r ]

  pub vbd_close : Port → World → Outcome Port
  unfolding command
  vbd_close p = command stop_text >> pure (close_device p)

-- `n > 0`.
abbrev pub is_count : ℤ → Bool
is_count (pos (suc n)) = true
is_count other = false

-- `do n = serial.readStringNoTimeOut(msg, '*', 10); while (n <= 0)`.
pub reply_loop : ℕ → List ℕ → World → Outcome (List ℕ)
reply_loop zero msg w = stuck
reply_loop (suc fuel) msg w =
    let again = λ (r : TextRead) (v : World).
      (let rest = reply_loop fuel r.1 v in if is_count r.0 then done r.1 v else rest) in
    (read_string_no_time_out msg b'*' 10 >>= again) w

-- `fuel` and `stack` are as above.
module _ (fuel : ℕ) (stack : List ℕ) where
  -- The body that `vbdValue`, `vbdMicValue` and `vbdElapsed` share. The reply is read over the request.
  pub request : List ℕ → World → Outcome (Parsed ℤ)
  unfolding send reply_loop
  request text =
      send 80 text
      >> (flush_receiver
          >> (reply_loop fuel (write_text stack 0 (text ++ 0 ∷ [])) >>= λ msg.
              pure (parse_reply msg)))

  pub vbd_value : World → Outcome (Parsed ℤ)
  unfolding request
  vbd_value = request value_text

  pub vbd_mic_value : World → Outcome (Parsed ℤ)
  unfolding request
  vbd_mic_value = request mic_text

  pub vbd_elapsed : World → Outcome (Parsed ℤ)
  unfolding request
  vbd_elapsed = request elapsed_text

  -- Here the array has 10 bytes, and nothing is flushed.
  pub vbd_flag : World → Outcome Bool
  unfolding send reply_loop
  vbd_flag =
      send 10 flag_text
      >> (reply_loop fuel (write_text stack 0 (flag_text ++ 0 ∷ [])) >>= λ msg.
          pure (get_or msg 1 0 == b'1'))
