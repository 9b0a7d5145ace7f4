-- ===== src/Examples/Boards.antt =====
-- A machine with a steady clock, and answers that a board may give.
use risc_v_cpu.Base.{ℕ, ◌*◌, ◌/◌, ◌%◌, List, [], ◌∷◌, replicate}
use risc_v_cpu.Serial.{Rx, byte, nothing, Timeval, World}

-- A clock that gains a millisecond a reading.
abbrev pub clock : ℕ → Timeval
clock n = record { sec = n / 1000; usec = n % 1000 * 1000 }

abbrev pub world : List Rx → List (List Rx) → World
world rx later = record { rx = rx; later = later; clock = clock; tick = 0; sent = [] }

abbrev pub blank : List ℕ
blank = replicate 80 0

-- `$A` and a newline, with a pause.
abbrev pub acknowledged : List Rx
acknowledged = byte b'$' ∷ nothing ∷ byte b'A' ∷ byte b'\n' ∷ []

-- `$42*`.
abbrev pub forty_two : List Rx
forty_two = byte b'$' ∷ byte b'4' ∷ byte b'2' ∷ byte b'*' ∷ []
