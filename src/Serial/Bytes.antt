-- ===== src/Serial/Bytes.antt =====
-- vbuddy/vbuddy.cpp, `writeChar`, `writeBytes` and `readBytes`, which the functions of the board do not use.
pub mod Collects
use risc_v_cpu.Base.{
  ℕ, ◌+◌, ◌-◌, Bool, ◌&&◌, List, [], ◌∷◌, ◌++◌, ltb, leb, ◌==◌, if◌then◌else◌, length, take,
  write_text,
}
use risc_v_cpu.Base.Int.{ℤ, pos, negsuc, signed32}
use risc_v_cpu.Serial.{Timeval, World, Outcome, done, waiting, fault, write_string}
use risc_v_cpu.Serial.Read.{TextRead, in_time}

-- The result is -1 if `write` returns another number than the bytes that it was given; `written` is what it
-- returns.
unfoldable pub write_bytes : ℤ → List ℕ → World → Outcome ℤ
write_bytes written bytes w =
    done
      (elim written [
        | pos n ↦ (if n == length bytes then pos 1 else negsuc 0)
        | negsuc n ↦ negsuc 0
      ])
      (record w { sent = w.sent ++ bytes ∷ [] })

unfoldable pub write_char : ℤ → ℕ → World → Outcome ℤ
write_char written b = write_bytes written (b ∷ [])

-- What the port has for one call of `read` with a count, which takes so many of the bytes, or -1.
pub data Chunk : Type 0 where
  pending : List ℕ → Chunk
  broken : Chunk

-- The clock has been read once more.
abbrev pub timed : World → World
timed w = record w { tick = w.tick + 1 }

-- The loop, with `nb` bytes in the array. The sleep at the end of a round changes nothing here.
unfoldable pub read_bytes_loop :
    List Chunk → ℕ → ℕ → Timeval → List ℕ → ℕ → World → Outcome TextRead
read_bytes_loop [] max time_out start buffer nb w =
    if in_time time_out start w then waiting else done (signed32 nb, buffer) (timed w)
read_bytes_loop (broken ∷ chunks) max time_out start buffer nb w =
    if in_time time_out start w
    then done (negsuc 1, buffer) (timed w)
    else done (signed32 nb, buffer) (timed w)
read_bytes_loop (pending bytes ∷ chunks) max time_out start buffer nb w =
    let got = take (max - nb) bytes in
    let kept = write_text buffer nb got in
    let more = read_bytes_loop chunks max time_out start kept (nb + length got) (timed w) in
    if in_time time_out start w
    then (if ltb (length buffer) (nb + length got)
        then fault
        else if ltb 0 (length got) && leb max (nb + length got)
        then done (signed32 (nb + length got), kept) (timed w)
        else more)
    else done (signed32 nb, buffer) (timed w)

unfoldable pub read_bytes : List Chunk → List ℕ → ℕ → ℕ → World → Outcome TextRead
read_bytes chunks buffer max time_out w =
    read_bytes_loop chunks max time_out (w.clock w.tick) buffer 0 (timed w)
