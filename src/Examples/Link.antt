-- ===== src/Examples/Link.antt =====
-- The serial link and single exchanges of vbuddy/vbuddy.cpp with boards that give fixed answers.
use risc_v_cpu.Base.{ℕ, ◌≤◌, ◌≡◌, ◌↔◌, ◌≢◌, refl, List, [], ◌∷◌, replicate, write_text, arith}
use risc_v_cpu.Base.Int.{pos}
use risc_v_cpu.Serial.{Rx, byte, World, done, fault}
use risc_v_cpu.Serial.Read.{read_string_no_time_out}
use risc_v_cpu.Serial.Read.Safety.{IsSafe, read_string_IsSafe}
use risc_v_cpu.Serial.Read.Arrival.{end, quiet, next, Advances, Avoids, read_string_Arrives}
use risc_v_cpu.Vbuddy.{command, request}
use risc_v_cpu.Vbuddy.Message.{show_int, value_text, clear_text}
use risc_v_cpu.Vbuddy.Reply.{value, parse_reply}
use risc_v_cpu.Vbuddy.Reply.RoundTrip.{parse_reply-show_int}
use risc_v_cpu.Vbuddy.Exchange.{command_lem, request_lem}
use risc_v_cpu.Examples.Boards.{world, blank, acknowledged, forty_two}
use risc_v_cpu.Vbuddy.Commands.{run, header, header-fits}

read_string_Arrives_example :
    (v : World) × (read_string_no_time_out blank b'\n' 80 (world acknowledged [])
      ≡ done (pos 3, write_text blank 0 (b'$' ∷ b'A' ∷ b'\n' ∷ 0 ∷ [])) v)
    × (v.rx ≡ [])
    × Advances (world acknowledged []) v
read_string_Arrives_example =
    read_string_Arrives {rest = []} b'\n' 80 (b'$' ∷ b'A' ∷ []) blank (world acknowledged [])
      (next (quiet (next (next (end refl))))) (omega arith, (omega arith, tt)) (omega arith)
      (omega arith)

read_string_IsSafe_example :
    IsSafe (read_string_no_time_out blank b'\n' 79 (world (byte b'$' ∷ []) []))
read_string_IsSafe_example =
    read_string_IsSafe blank b'\n' 79 (world (byte b'$' ∷ []) []) (omega arith)

command_lem_example :
    (v : World) × (command 1 blank clear_text (world acknowledged []) ≡ done tt v)
    × (v.sent ≡ clear_text ∷ [])
    × (v.rx ≡ [])
command_lem_example =
    command_lem {rest = []} 0 blank clear_text (b'A' ∷ []) (world acknowledged []) refl
      (omega arith) (next (quiet (next (next (end refl))))) (omega arith, tt) (omega arith)

request_lem_example :
    (v : World) × (request 1 blank value_text (world [] (forty_two ∷ [])) ≡ done (value (pos 42)) v)
    × (v.sent ≡ value_text ∷ [])
    × (v.rx ≡ [])
unfolding show_int
request_lem_example =
    request_lem {rest = []} 0 blank value_text 42 forty_two [] (world [] (forty_two ∷ [])) refl
      (omega arith) (omega arith) refl (next (next (next (next (end refl)))))

abbrev nine : List ℕ
nine = replicate 9 b'1'

nine-Avoids : Avoids b'*' nine
nine-Avoids =
    let o : ◌≢◌ {A = ℕ} 49 42 = omega arith in (o, (o, (o, (o, (o, (o, (o, (o, (o, tt)))))))))

abbrev nine_sent : List Rx
nine_sent =
    byte b'1'
    ∷ byte b'1'
    ∷ byte b'1'
    ∷ byte b'1'
    ∷ byte b'1'
    ∷ byte b'1'
    ∷ byte b'1'
    ∷ byte b'1'
    ∷ byte b'1'
    ∷ byte b'*'
    ∷ []

parse_reply-show_int_example : parse_reply (b'$' ∷ b'4' ∷ b'2' ∷ b'*' ∷ 0 ∷ 9 ∷ []) ≡ value (pos 42)
unfolding show_int
parse_reply-show_int_example = parse_reply-show_int 42 (omega arith) (9 ∷ [])

header-fits_example :
    (((v : World) × (run 1 blank (header (b'L' ∷ [])) (world acknowledged []) ≡ done tt v))
      ↔ (1 ≤ 75))
    × ((run 1 blank (header (b'L' ∷ [])) (world acknowledged []) ≡ fault) ↔ (76 ≤ 1))
header-fits_example =
    header-fits {rest = []} 0 blank (b'A' ∷ []) (b'L' ∷ []) (world acknowledged []) refl
      (next (quiet (next (next (end refl))))) (omega arith, tt) (omega arith)
