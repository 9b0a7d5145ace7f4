-- ===== src/Serial/Read/Timed.antt =====
-- vbuddy/vbuddy.cpp, `readString` with a time-out, and when it gives up.
pub mod Moves
pub mod Deadline
use risc_v_cpu.Base.{ℕ, zero, suc, ◌+◌, ◌-◌, ◌%◌, ◌^◌, Bool, ◌&&◌, List, ltb, ◌==◌, if◌then◌else◌}
use risc_v_cpu.Base.Int.{pos, negsuc}
use risc_v_cpu.Serial.{Timeval, World, Outcome, done, stuck, ◌>>=◌, pure, store, now}
use risc_v_cpu.Serial.Timer.{elapsed_ms}
use risc_v_cpu.Serial.Read.{
  TextRead, CharRead, got, timed_out, failed, read_char, read_string_no_time_out,
}

-- The remaining time as the pattern of a `long int`: `timeOut_ms - timer.elapsedTime_ms()`.
abbrev remaining : ℕ → ℕ → ℕ
remaining time_out elapsed = (time_out + 2 ^ 64 - elapsed) % 2 ^ 64

-- `timeOutParam > 0`.
abbrev is_positive : ℕ → Bool
is_positive w = ltb 0 w && ltb w (2 ^ 63)

-- The end of a round: give up with a 0 behind the text if the time is over.
give_up :
    (List ℕ → ℕ → World → Outcome TextRead) → ℕ → Timeval → List ℕ → ℕ → World → Outcome TextRead
give_up more time_out start buffer nb = do
  t ← now
  if ltb time_out (elapsed_ms start t)
      then (do ended ← store buffer nb 0; pure (pos 0, ended))
      else more buffer nb

-- What a round does with the answer of `readChar`.
keep_timed :
    (List ℕ → ℕ → World → Outcome TextRead)
    → ℕ
    → Timeval
    → ℕ
    → List ℕ
    → ℕ
    → CharRead
    → World
    → Outcome TextRead
unfolding give_up
keep_timed more time_out start final buffer nb (got b) = do
  read ← store buffer nb b
  if b == final
      then (do ended ← store read (nb + 1) 0; pure (pos (nb + 1), ended))
      else give_up more time_out start read (nb + 1)
keep_timed more time_out start final buffer nb timed_out = give_up more time_out start buffer nb
keep_timed more time_out start final buffer nb failed = pure (negsuc 1, buffer)

-- The loop. A round takes one unit of fuel.
timed_loop : ℕ → ℕ → Timeval → ℕ → ℕ → List ℕ → ℕ → World → Outcome TextRead
unfolding keep_timed
timed_loop zero time_out start final max buffer nb w = stuck
timed_loop (suc fuel) time_out start final max buffer nb w =
    let more =
      λ (kept : List ℕ) (n : ℕ) (v : World). timed_loop fuel time_out start final max kept n v in
    let t = w.clock w.tick in
    let param = remaining time_out (elapsed_ms start t) in
    let v = record w { tick = w.tick + 1 } in
    if ltb nb max
    then (if is_positive param
        then (read_char (param % 2 ^ 32) >>= keep_timed more time_out start final buffer nb) v
        else give_up more time_out start buffer nb v)
    else done (negsuc 2, buffer) w

-- `readString`; the fuel is for the loop with a time-out only.
unfoldable pub read_string : ℕ → List ℕ → ℕ → ℕ → ℕ → World → Outcome TextRead
unfolding timed_loop
read_string fuel buffer final max time_out w =
    if time_out == 0
    then read_string_no_time_out buffer final max w
    else timed_loop fuel time_out (w.clock w.tick) final max buffer 0
        (record w { tick = w.tick + 1 })
