-- ===== src/Serial/Windows/Transfer.antt =====
-- vbuddy/vbuddy.cpp, the operations of `class serialib` that read and write, as compiled for Windows.
use risc_v_cpu.Base.{ℕ, Bool, Option, none, some, List, [], ◌∷◌, ◌++◌, length, ◌==◌, if◌then◌else◌}
use risc_v_cpu.Base.Int.{ℤ, pos, negsuc, signed32}
use risc_v_cpu.Serial.{World, Outcome, done}
use risc_v_cpu.Serial.Windows.{Port}

-- What `ReadFile` answers: failure, or the bytes that it read.
pub data FileRead : Type 0 where
  broken : FileRead
  delivered : List ℕ → FileRead

-- The time-out of the reads, and whether `SetCommTimeouts` takes it.
unfoldable pub set_read_timeout : Bool → ℕ → Port → Port
set_read_timeout taken timeout_ms p =
    let t = record p.timeouts { read_constant = timeout_ms } in
    if taken then record p { timeouts = t; active = some t } else record p { timeouts = t }

-- The code, the bytes that the caller's array gets, and the port.
unfoldable pub read_char : Bool → FileRead → ℕ → Port → ℤ × List ℕ × Port
unfolding set_read_timeout
read_char taken answer timeout_ms p =
    let q = set_read_timeout taken timeout_ms p in
    if taken
    then elim answer [
      | broken ↦ (negsuc 1, [], q)
      | delivered bytes ↦ (if length bytes == 0 then pos 0 else pos 1, bytes, q)
    ]
    else (negsuc 0, [], q)

unfoldable pub read_bytes : Bool → FileRead → ℕ → Port → ℤ × List ℕ × Port
unfolding set_read_timeout
read_bytes taken answer timeout_ms p =
    let q = set_read_timeout taken timeout_ms p in
    if taken
    then elim answer [
      | broken ↦ (negsuc 1, [], q)
      | delivered bytes ↦ (signed32 (length bytes), bytes, q)
    ]
    else (negsuc 0, [], q)

-- `writeBytes`: `written` is the number of bytes that `WriteFile` says it wrote, none if it fails. Nothing looks at the
-- number.
unfoldable pub write_bytes : Option ℕ → List ℕ → World → Outcome ℤ
write_bytes written bytes w =
    done (elim written [ none ↦ negsuc 0 | some n ↦ pos 1 ])
      (record w { sent = w.sent ++ bytes ∷ [] })

unfoldable pub write_char : Option ℕ → ℕ → World → Outcome ℤ
unfolding write_bytes
write_char written b = write_bytes written (b ∷ [])

-- `text` is the string up to its 0.
unfoldable pub write_string : Option ℕ → List ℕ → World → Outcome ℤ
unfolding write_bytes
write_string written text = write_bytes written text

-- A call of one of the two reads, with what the system answers.
pub data Read : Type 0 where
  char bytes : Bool → FileRead → ℕ → Read

unfoldable pub after_read : Read → Port → Port
unfolding read_char read_bytes
after_read (char taken answer timeout_ms) p = (read_char taken answer timeout_ms p).2
after_read (bytes taken answer timeout_ms) p = (read_bytes taken answer timeout_ms p).2

unfoldable pub after_reads : List Read → Port → Port
after_reads [] p = p
after_reads (r ∷ rest) p = after_reads rest (after_read r p)
