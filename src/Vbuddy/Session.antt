-- ===== src/Vbuddy/Session.antt =====
-- The start and the end of a session with the board, and the numbers that it is asked for:
-- `vbdOpen`, `vbdClose`, `vbdValue`, `vbdMicValue`, `vbdElapsed` and `vbdFlag` of vbuddy/vbuddy.cpp.
use risc_v_cpu.Base.{
  ℕ, suc, ◌<◌, ◌≡◌, refl, ◌∙◌, List, [], ◌∷◌, ◌++◌, length, some, Option, none, ◌^◌, arith,
}
use risc_v_cpu.Base.Int.{ℤ, pos}
use risc_v_cpu.Serial.{Rx, World, Outcome, done, pure, >>=-done, flush_receiver}
use risc_v_cpu.Serial.Device.{Port, open_device, databits_8, parity_none, stopbits_1, close_device}
use risc_v_cpu.Serial.Read.Arrival.{Arrives, Avoids}
use risc_v_cpu.Vbuddy.Message.{show_int, clear_text, stop_text, value_text, mic_text, elapsed_text}
use risc_v_cpu.Vbuddy.Reply.{Parsed, value}
use risc_v_cpu.Vbuddy.{
  command, request, vbd_clear, vbd_open, vbd_close, vbd_value, vbd_mic_value, vbd_elapsed,
}
use risc_v_cpu.Vbuddy.Exchange.{command_lem, request_lem, flush-next}

-- The functions that ask for a number, and what each of them sends.
pub data Query : Type 0 where
  switch microphone stop_watch : Query

unfoldable pub ask : ℕ → List ℕ → Query → World → Outcome (Parsed ℤ)
ask fuel stack switch = vbd_value fuel stack
ask fuel stack microphone = vbd_mic_value fuel stack
ask fuel stack stop_watch = vbd_elapsed fuel stack

abbrev pub question : Query → List ℕ
question switch = value_text
question microphone = mic_text
question stop_watch = elapsed_text

ask-request :
    (fuel : ℕ) (stack : List ℕ) (query : Query) (w : World)
    → ask fuel stack query w ≡ request fuel stack (question query) w
unfolding ask vbd_value vbd_mic_value vbd_elapsed
ask-request fuel stack switch w = refl
ask-request fuel stack microphone w = refl
ask-request fuel stack stop_watch w = refl

question-fits : (query : Query) → length (question query) < 80
question-fits switch = omega arith
question-fits microphone = omega arith
question-fits stop_watch = omega arith

-- If, behind the flush, the board delivers `$`, a number below 10^8 in decimal and `*`, and the
-- array has 80 bytes, each function that asks for a number returns it after one round, and has
-- sent its question and nothing else.
pub ask_lem :
    {rest : List Rx} (fuel : ℕ) (stack : List ℕ) (query : Query) (n : ℕ) (replies : List Rx)
    (more : List (List Rx)) (w : World)
    → length stack ≡ 80
    → n < 10 ^ 8
    → w.later ≡ replies ∷ more
    → Arrives rest replies ((b'$' ∷ show_int (pos n)) ++ b'*' ∷ [])
    → (v : World) × (ask (suc fuel) stack query w ≡ done (value (pos n)) v)
      × (v.sent ≡ w.sent ++ question query ∷ [])
      × (v.rx ≡ rest)
ask_lem fuel stack query n replies more w size small next a =
    let (v, e, sent, left) =
      request_lem fuel stack (question query) n replies more w size (question-fits query) small next
        a in
    (v, ask-request (suc fuel) stack query w ∙ e, sent, left)

-- `vbdClose` sends the stop message and nothing else, waits for the answer, and leaves the device closed, for
-- an array of 80 bytes and an answer that starts with `$` and is short enough.
pub vbd_close_lem :
    {rest : List Rx} (fuel : ℕ) (stack line : List ℕ) (p : Port) (w : World)
    → length stack ≡ 80
    → Arrives rest w.rx ((b'$' ∷ line) ++ b'\n' ∷ [])
    → Avoids b'\n' line
    → length line < 78
    → (v : World) × (vbd_close (suc fuel) stack p w ≡ done (close_device p) v)
      × ((close_device p).fd ≡ none)
      × (v.sent ≡ w.sent ++ stop_text ∷ [])
      × (v.rx ≡ rest)
unfolding vbd_close close_device
vbd_close_lem fuel stack line p w size a avoids fits =
    let (v, e, sent, left) =
      command_lem fuel stack stop_text line w size (omega arith) a avoids fits in
    (
      v,
      >>=-done (command (suc fuel) stack stop_text) (λ _. pure (close_device p)) w e,
      refl,
      sent,
      left,
    )

-- The result of `openDevice` with the settings of `vbdOpen`.
abbrev pub opening : Option ℕ → Port → ℤ × Port
opening opened p = open_device opened 115200 databits_8 parity_none stopbits_1 p

-- If the device opens, `vbdOpen` drops what the port held, clears the screen, waits for the answer and
-- returns 1, for an array of 80 bytes and an answer that starts with `$` and is short enough.
pub vbd_open_lem :
    {rest : List Rx} (fuel d : ℕ) (stack line : List ℕ) (p : Port) (replies : List Rx)
    (more : List (List Rx)) (w : World)
    → length stack ≡ 80
    → w.later ≡ replies ∷ more
    → Arrives rest replies ((b'$' ∷ line) ++ b'\n' ∷ [])
    → Avoids b'\n' line
    → length line < 78
    → (v : World) × (vbd_open (suc fuel) stack (some d) p w ≡ done (opening (some d) p) v)
      × ((opening (some d) p).0 ≡ pos 1)
      × (v.sent ≡ w.sent ++ clear_text ∷ [])
      × (v.rx ≡ rest)
unfolding vbd_open open_device vbd_clear
vbd_open_lem fuel d stack line p replies more w size next a avoids fits =
    let flushed = record w { rx = replies; later = more } in
    let (v, e, sent, left) =
      command_lem fuel stack clear_text line flushed size (omega arith) a avoids fits in
    (
      v,
      >>=-done flush_receiver _ w (flush-next w replies more next)
          ∙ >>=-done (command (suc fuel) stack clear_text) (λ _. pure (opening (some d) p)) flushed
              e,
      refl,
      sent,
      left,
    )
