-- ===== src/Examples/Session.antt =====
-- A session of vbuddy/vbuddy.cpp with a board: opening, a command, a question, closing.
use risc_v_cpu.Base.{map, ◌≡◌, refl, [], ◌∷◌, write_text, arith}
use risc_v_cpu.Base.Int.{pos, negsuc}
use risc_v_cpu.Serial.{World, done}
use risc_v_cpu.Serial.Read.Arrival.{end, quiet, next}
use risc_v_cpu.Serial.Timer.{elapsed_ms}
use risc_v_cpu.Serial.Read.{read_char}
use risc_v_cpu.Serial.Bytes.{pending, read_bytes, write_char, write_bytes}
use risc_v_cpu.Serial.Bytes.Collects.{read_bytes-collects}
use risc_v_cpu.Serial.Read.Safety.{IsSafe}
use risc_v_cpu.Serial.Read.Timed.{read_string}
use risc_v_cpu.Serial.Read.Timed.Deadline.{read_string_ends}
use risc_v_cpu.Vbuddy.Message.{show_int}
use risc_v_cpu.Vbuddy.Reply.{value}
use risc_v_cpu.Vbuddy.Commands.{bar, run, run_lem}
use risc_v_cpu.Vbuddy.Session.{microphone, ask, question, ask_lem}
use risc_v_cpu.Examples.Boards.{world, blank, acknowledged, forty_two}

run_lem_example :
    (v : World) × (run 1 blank (bar (pos 7)) (world acknowledged []) ≡ done tt v)
    × (v.sent ≡ (b'$' ∷ b'B' ∷ b',' ∷ b'7' ∷ b'\n' ∷ []) ∷ [])
    × (v.rx ≡ [])
unfolding show_int
run_lem_example =
    run_lem {rest = []} 0 blank (b'A' ∷ []) (bar (pos 7)) (world acknowledged []) (omega arith) refl
      (next (quiet (next (next (end refl))))) (omega arith, tt) (omega arith)

ask_lem_example :
    (v : World) × (ask 1 blank microphone (world [] (forty_two ∷ [])) ≡ done (value (pos 42)) v)
    × (v.sent ≡ question microphone ∷ [])
    × (v.rx ≡ [])
unfolding show_int
ask_lem_example =
    ask_lem {rest = []} 0 blank microphone 42 forty_two [] (world [] (forty_two ∷ [])) refl
      (omega arith) refl (next (next (next (next (end refl)))))

-- With a second to spare, `readString` returns the line.
timed_read :
    (v : World) × (read_string 5 blank b'\n' 80 1000 (world acknowledged [])
      ≡ done (pos 3, write_text blank 0 (b'$' ∷ b'A' ∷ b'\n' ∷ 0 ∷ [])) v)
unfolding read_string read_char elapsed_ms
timed_read = (_, refl)

-- Four milliseconds are not enough for it, and what has arrived is returned with a 0 behind.
timed_out_read :
    (v : World) × (read_string 5 blank b'\n' 80 4 (world acknowledged [])
      ≡ done (pos 0, write_text blank 0 (b'$' ∷ 0 ∷ [])) v)
unfolding read_string read_char elapsed_ms
timed_out_read = (_, refl)

-- The clock ends such a run, here into an array of 81 bytes.
read_string_ends_example : IsSafe (read_string 6 (0 ∷ blank) b'\n' 80 4 (world acknowledged []))
unfolding elapsed_ms
read_string_ends_example =
    read_string_ends 6 (0 ∷ blank) b'\n' 80 4 5 (world acknowledged []) (omega arith) (omega arith)
      (λ k late soon. ground arith) (omega arith) (omega arith)

-- Four of the five bytes that arrive in two pieces.
read_bytes-collects_example :
    (v : World) × (read_bytes
        (map pending ((1 ∷ 2 ∷ []) ∷ [] ∷ (3 ∷ 4 ∷ 5 ∷ []) ∷ []))
        (9 ∷ 9 ∷ 9 ∷ 9 ∷ 9 ∷ [])
        4
        0
        (world [] [])
      ≡ done (pos 4, 1 ∷ 2 ∷ 3 ∷ 4 ∷ 9 ∷ []) v)
read_bytes-collects_example =
    read_bytes-collects ((1 ∷ 2 ∷ []) ∷ [] ∷ (3 ∷ 4 ∷ 5 ∷ []) ∷ []) (9 ∷ 9 ∷ 9 ∷ 9 ∷ 9 ∷ []) 4
      (world [] []) (omega arith) (omega arith) (omega arith) (omega arith)

-- A write that sends fewer bytes than it was given.
short_write :
    write_char (pos 0) b'x' (world [] [])
    ≡ done (negsuc 0) (record (world [] []) { sent = (b'x' ∷ []) ∷ [] })
unfolding write_char write_bytes
short_write = refl
