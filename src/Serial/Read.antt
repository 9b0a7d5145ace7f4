-- ===== src/Serial/Read.antt =====
-- vbuddy/vbuddy.cpp, `readChar`, `readStringNoTimeOut` and `readString`.
pub mod Arrival
pub mod Safety
pub mod Timed
use risc_v_cpu.Base.{
  ℕ, zero, suc, ◌+◌, ◌-◌, ◌%◌, ◌^◌, Bool, ◌||◌, ◌&&◌, List, [], ◌∷◌, ltb, ◌==◌, if◌then◌else◌,
}
use risc_v_cpu.Base.Int.{ℤ, pos, negsuc}
use risc_v_cpu.Serial.{
  Rx, byte, nothing, error, Timeval, World, Outcome, done, waiting, fault, stuck, ◌>>=◌, pure,
  store, now,
}
use risc_v_cpu.Serial.Timer.{elapsed_ms}

-- What `readChar` returns: 1 with the byte behind `pByte`, 0, or -2.
pub data CharRead : Type 0 where
  got : ℕ → CharRead
  timed_out failed : CharRead

-- The test of the loop of `readChar`.
abbrev pub in_time : ℕ → Timeval → World → Bool
in_time time_out start w = ltb (elapsed_ms start (w.clock w.tick)) time_out || time_out == 0

-- The clock has been read once, and the port has these answers left.
abbrev pub after : List Rx → World → World
after rx w = record w { rx = rx; tick = w.tick + 1 }

-- The loop of `readChar`. A round reads the time and then uses up one answer of the port.
pub poll : ℕ → Timeval → List Rx → World → Outcome CharRead
poll time_out start [] w = if in_time time_out start w then waiting else done timed_out (after [] w)
poll time_out start (byte b ∷ rx) w =
    if in_time time_out start w
    then done (got b) (after rx w)
    else done timed_out (after (byte b ∷ rx) w)
poll time_out start (error ∷ rx) w =
    if in_time time_out start w
    then done failed (after rx w)
    else done timed_out (after (error ∷ rx) w)
poll time_out start (nothing ∷ rx) w =
    if in_time time_out start w
    then poll time_out start rx (after rx w)
    else done timed_out (after (nothing ∷ rx) w)

unfoldable pub read_char : ℕ → World → Outcome CharRead
unfolding poll
read_char time_out w = poll time_out (w.clock w.tick) w.rx (record w { tick = w.tick + 1 })

-- What `readStringNoTimeOut` returns, with the buffer.
abbrev pub TextRead : Type 0
TextRead = ℤ × List ℕ

-- The body of the loop behind the read, with `nb` characters in the buffer; `more` is the next round.
pub keep_char :
    (List ℕ → ℕ → World → Outcome TextRead) → ℕ → List ℕ → ℕ → CharRead → World → Outcome TextRead
keep_char more final buffer nb (got b) = do
  read ← store buffer nb b
  if b == final
      then (do ended ← store read (nb + 1) 0; pure (pos (nb + 1), ended))
      else more read (nb + 1)
keep_char more final buffer nb timed_out = more buffer nb
keep_char more final buffer nb failed = pure (negsuc 1, buffer)

-- The loop of `readStringNoTimeOut`. A round takes one unit of fuel.
pub read_loop : ℕ → ℕ → ℕ → List ℕ → ℕ → World → Outcome TextRead
unfolding keep_char
read_loop zero final max buffer nb w = stuck
read_loop (suc fuel) final max buffer nb w =
    let more = λ (kept : List ℕ) (n : ℕ) (v : World). read_loop fuel final max kept n v in
    if ltb nb max
    then (read_char 0 >>= keep_char more final buffer nb) w
    else done (negsuc 2, buffer) w

pub read_string_no_time_out : List ℕ → ℕ → ℕ → World → Outcome TextRead
unfolding read_loop
read_string_no_time_out buffer final max = read_loop (suc max) final max buffer 0
