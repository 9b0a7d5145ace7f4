-- ===== src/Vbuddy/Exchange.antt =====
-- Whole exchanges with the board: what goes out, what comes back, and which messages fit their array.
use risc_v_cpu.Base.{
  ℕ, suc, ◌+◌, ◌≤◌, ◌<◌, ◌≡◌, ◌∙◌, ap, List, [], ◌∷◌, ◌++◌, lt→ltb, length, length-append,
  length-write_text, write_text, write_text_lem, drop, get_or, true, ◌==◌, ◌^◌, arith,
}
use risc_v_cpu.Base.Int.{pos}
use risc_v_cpu.Serial.{Rx, World, done, fault, pure, ◌>>=◌, flush_receiver, >>=-done, >>=-fault}
use mathlib.Core.List.{append_assoc}
use native.Mathlib.Numerals.{add-one}
use risc_v_cpu.Serial.Read.{TextRead, read_string_no_time_out}
use risc_v_cpu.Serial.Read.Arrival.{Arrives, Avoids, read_string_Arrives, read_string_overflows}
use risc_v_cpu.Vbuddy.Message.{show_int, length-show_int_small, flag_text}
use risc_v_cpu.Vbuddy.Reply.{value, parse_reply}
use risc_v_cpu.Vbuddy.Reply.RoundTrip.{AllDigits, shown-AllDigits, parse_reply-show_int}
use risc_v_cpu.Vbuddy.{send, ack_loop, command, request, is_count, reply_loop, vbd_flag}

-- The world after a message went out.
abbrev pub sends : List ℕ → World → World
sends text w = record w { sent = w.sent ++ text ∷ [] }

send-lt :
    (size : ℕ) (text : List ℕ) (w : World)
    → length text < size
    → send size text w ≡ done tt (sends text w)
unfolding send
send-lt size text w h = rw (lt→ltb (length text) size h)

first-write_text :
    (buffer : List ℕ) (x : ℕ) (xs : List ℕ)
    → suc (length xs) ≤ length buffer
    → get_or (write_text buffer 0 (x ∷ xs)) 0 0 ≡ x
first-write_text buffer x xs h =
    ap (λ (b : List ℕ). get_or b 0 0) (write_text_lem buffer (x ∷ xs) h)

-- The loops end with the first text that they accept.
ack_loop-dollar :
    (fuel : ℕ) (received : List ℕ) (w : World) {r : TextRead} {v : World}
    → read_string_no_time_out received b'\n' 80 w ≡ done r v
    → get_or r.1 0 0 ≡ b'$'
    → ack_loop (suc fuel) received w ≡ done tt v
unfolding ack_loop
ack_loop-dollar fuel received w e dollar =
    >>=-done (read_string_no_time_out received b'\n' 80) _ w e ∙ rw dollar

reply_loop-count :
    (fuel : ℕ) (msg : List ℕ) (w : World) {r : TextRead} {v : World}
    → read_string_no_time_out msg b'*' 10 w ≡ done r v
    → is_count r.0 ≡ true
    → reply_loop (suc fuel) msg w ≡ done r.1 v
unfolding reply_loop
reply_loop-count fuel msg w e count =
    >>=-done (read_string_no_time_out msg b'*' 10) _ w e ∙ rw count

-- If the board answers with a line that starts with `$`, an array of 80 bytes holds the message and the line,
-- and one round is allowed, then a command sends its message and nothing else, returns, and
-- leaves what the port has behind the line.
pub command_lem :
    {rest : List Rx} (fuel : ℕ) (stack text line : List ℕ) (w : World)
    → length stack ≡ 80
    → length text < 80
    → Arrives rest w.rx ((b'$' ∷ line) ++ b'\n' ∷ [])
    → Avoids b'\n' line
    → length line < 78
    → (v : World) × (command (suc fuel) stack text w ≡ done tt v)
      × (v.sent ≡ w.sent ++ text ∷ [])
      × (v.rx ≡ rest)
unfolding command
command_lem {rest} fuel stack text line w size short a avoids fits =
    let (v, e, left, same) =
      read_string_Arrives {rest = rest} b'\n' 80 (b'$' ∷ line) stack (sends text w) a
        (omega arith, avoids) (omega arith) (omega arith) in
    (
      v,
      >>=-done (send 80 text) (λ _. ack_loop (suc fuel) stack) w (send-lt 80 text w short)
          ∙ ack_loop-dollar fuel stack (sends text w) e (
              first-write_text stack b'$' (line ++ b'\n' ∷ 0 ∷ [])
                (omega (arith, length-append {0} line (b'\n' ∷ 0 ∷ [])))),
      same.same_sent,
      left,
    )

is_count-suc : (n : ℕ) → is_count (pos (n + 1)) ≡ true
is_count-suc n = rw add-one

pub flush-next :
    (w : World) (replies : List Rx) (more : List (List Rx))
    → w.later ≡ replies ∷ more
    → flush_receiver w ≡ done tt (record w { rx = replies; later = more })
flush-next w replies more e = ground arith

AllDigits-Avoids : (ds : List ℕ) → AllDigits ds → Avoids b'*' ds
AllDigits-Avoids [] h = tt
AllDigits-Avoids (c ∷ ds) (lo, hi, h) = (omega arith, AllDigits-Avoids ds h)

-- The array behind a reply is the text that `parse_reply` is known to read.
parse_reply-write_text :
    (n : ℕ) (buffer : List ℕ)
    → n < 10 ^ 8
    → length buffer ≡ 80
    → parse_reply (write_text buffer 0 ((b'$' ∷ show_int (pos n)) ++ b'*' ∷ 0 ∷ [])) ≡ value (pos n)
parse_reply-write_text n buffer small size =
    ap parse_reply (
      write_text_lem buffer reply fits
      ∙ ap (λ (s : List ℕ). b'$' ∷ s) (append_assoc (show_int (pos n)) (b'*' ∷ 0 ∷ []) junk))
    ∙ parse_reply-show_int n (omega arith) junk
  where
    reply : List ℕ
    reply = (b'$' ∷ show_int (pos n)) ++ b'*' ∷ 0 ∷ []

    junk : List ℕ
    junk = drop (length reply) buffer

    fits : length reply ≤ length buffer
    fits =
        omega (
          arith,
          length-append {0} (show_int (pos n)) (b'*' ∷ 0 ∷ []),
          length-show_int_small n small,
        )

-- If, behind the flush, the board delivers `$`, a number below 10^8 in decimal and `*`, the array has its 80
-- bytes and holds the request, and one round is allowed, then the request goes out, nothing else does, and the
-- result is that number.
pub request_lem :
    {rest : List Rx} (fuel : ℕ) (stack text : List ℕ) (n : ℕ) (replies : List Rx)
    (more : List (List Rx)) (w : World)
    → length stack ≡ 80
    → length text < 80
    → n < 10 ^ 8
    → w.later ≡ replies ∷ more
    → Arrives rest replies ((b'$' ∷ show_int (pos n)) ++ b'*' ∷ [])
    → (v : World) × (request (suc fuel) stack text w ≡ done (value (pos n)) v)
      × (v.sent ≡ w.sent ++ text ∷ [])
      × (v.rx ≡ rest)
unfolding request
request_lem {rest} fuel stack text n replies more w size short small next a =
    let printed = write_text stack 0 (text ++ 0 ∷ []) in
    let still : length printed ≡ 80 = length-write_text stack 0 (text ++ 0 ∷ []) ∙ size in
    let flushed = record (sends text w) { rx = replies; later = more } in
    let (v, e, left, same) =
      read_string_Arrives {rest = rest} b'*' 10 (b'$' ∷ show_int (pos n)) printed flushed a
        (omega arith, AllDigits-Avoids _ (shown-AllDigits n (omega arith)))
        (omega (arith, length-show_int_small n small))
        (omega (arith, length-show_int_small n small)) in
    (
      v,
      >>=-done (send 80 text) _ w (send-lt 80 text w short)
          ∙ >>=-done flush_receiver _ (sends text w) (flush-next (sends text w) replies more next)
          ∙ >>=-done (reply_loop (suc fuel) printed) _ flushed
              (reply_loop-count fuel printed flushed e (is_count-suc _))
          ∙ ap (λ p. done p v) (parse_reply-write_text n printed small still),
      same.same_sent,
      left,
    )

reply_loop-fault :
    (fuel : ℕ) (msg : List ℕ) (w : World)
    → read_string_no_time_out msg b'*' 10 w ≡ fault
    → reply_loop (suc fuel) msg w ≡ fault
unfolding reply_loop
reply_loop-fault fuel msg w e = >>=-fault (read_string_no_time_out msg b'*' 10) _ w e

-- If the board answers with nine characters other than `*` and then `*`, which fills the array of 10
-- bytes, `vbdFlag` stores the 0 that ends the text behind the array.
vbd_flag_overflows :
    {rest : List Rx} (fuel : ℕ) (stack text : List ℕ) (w : World)
    → length stack ≡ 10
    → length text ≡ 9
    → Avoids b'*' text
    → Arrives rest w.rx (text ++ b'*' ∷ [])
    → vbd_flag (suc fuel) stack w ≡ fault
unfolding vbd_flag
vbd_flag_overflows {rest} fuel stack text w size full avoids a =
    let printed = write_text stack 0 (flag_text ++ 0 ∷ []) in
    let still : length printed ≡ 10 = length-write_text stack 0 (flag_text ++ 0 ∷ []) ∙ size in
    let over =
      read_string_overflows {rest = rest} b'*' 10 text printed (sends flag_text w) a avoids
        (omega arith) (omega arith) in
    let answer = λ (msg : List ℕ) (v : World). pure (get_or msg 1 0 == b'1') v in
    >>=-done (send 10 flag_text) (λ _. reply_loop (suc fuel) printed >>= answer) w
      (send-lt 10 flag_text w (omega arith))
    ∙ >>=-fault (reply_loop (suc fuel) printed) answer (sends flag_text w)
        (reply_loop-fault fuel printed (sends flag_text w) over)
