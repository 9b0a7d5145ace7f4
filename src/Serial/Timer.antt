-- ===== src/Serial/Timer.antt =====
-- vbuddy/vbuddy.cpp, `class timeOut`. A C `int` is its 32-bit pattern; where an `int` product would
-- overflow, which C leaves undefined, the pattern wraps.
use risc_v_cpu.Base.{ℕ, ◌+◌, ◌-◌, ◌*◌, ◌/◌, ◌%◌, ◌^◌, ◌≤◌, ◌<◌, ◌≡◌, ltb, if◌then◌else◌, arith}
use risc_v_cpu.Serial.{Timeval}

-- An `int` pattern converted to `unsigned long int`.
abbrev widen : ℕ → ℕ
widen w = if ltb w (2 ^ 31) then w else w + (2 ^ 64 - 2 ^ 32)

-- `elapsedTime_ms`, at the two answers of `gettimeofday`.
unfoldable pub elapsed_ms : Timeval → Timeval → ℕ
elapsed_ms previous current =
    let sec = (current.sec + 2 ^ 64 - previous.sec) % 2 ^ 32 in
    if ltb current.usec previous.usec
    then (let usec = 1000000 - previous.usec + current.usec in
        widen (((sec + 2 ^ 32 - 1) % 2 ^ 32 * 1000 + usec / 1000) % 2 ^ 32))
    else widen ((sec * 1000 + (current.usec - previous.usec) / 1000) % 2 ^ 32)

abbrev pub micros : Timeval → ℕ
micros t = t.sec * 1000000 + t.usec

pub record IsTimeval (t : Timeval) : Type 0 where
  pub sec_fits : t.sec < 2 ^ 63
  pub usec_fits : t.usec < 1000000

-- For two times of day, the second not before the first and less than 2147483 seconds after it, the
-- result is the number of whole milliseconds between them, borrow included.
elapsed_ms_exact :
    (previous current : Timeval)
    → IsTimeval previous
    → IsTimeval current
    → micros previous ≤ micros current
    → micros current < micros previous + 2147483 * 1000000
    → elapsed_ms previous current ≡ (micros current - micros previous) / 1000
unfolding elapsed_ms
elapsed_ms_exact previous current vp vc order near = ground arith
