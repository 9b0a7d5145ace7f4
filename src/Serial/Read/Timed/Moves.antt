-- ===== src/Serial/Read/Timed/Moves.antt =====
-- How far `readChar` moves the clock and the answers of the port.
use risc_v_cpu.Base.{
  ℕ, ◌+◌, ◌≤◌, ◌<◌, ◌≡◌, ◌⊎◌, inl, inr, refl, ◌∙◌, List, [], ◌∷◌, Bool-cases, length, arith,
}
use risc_v_cpu.Serial.{Rx, byte, nothing, error, Timeval, World, Outcome, done, waiting}
use risc_v_cpu.Serial.Read.{CharRead, got, timed_out, failed, in_time, after, poll, read_char}

-- The readings of the clock so far and the answers of the port to come.
abbrev pub budget : World → ℕ
budget w = w.tick + length w.rx

-- A read of one character waits, or ends later on the same clock, at most `n` readings beyond the answers it
-- has used up.
abbrev pub Moves : ℕ → World → Outcome CharRead → Type 0
Moves n w r =
    (r ≡ waiting)
    ⊎ ((c : CharRead) × (v : World) × (r ≡ done c v)
        × (v.clock ≡ w.clock)
        × (w.tick < v.tick)
        × (budget v ≤ budget w + n))

Moves-later :
    (m n : ℕ) (w u : World) (r : Outcome CharRead)
    → u.clock ≡ w.clock
    → w.tick ≤ u.tick
    → budget u + m ≤ budget w + n
    → Moves m u r
    → Moves n w r
Moves-later m n w u r clock le within (inl e) = inl e
Moves-later m n w u r clock le within (inr (c, v, e, same, lt, small)) =
    inr (c, v, e, same ∙ clock, omega arith, omega arith)

poll-Moves :
    (time_out : ℕ) (start : Timeval) (rx : List Rx) (w : World)
    → w.rx ≡ rx
    → Moves 1 w (poll time_out start rx w)
unfolding poll
poll-Moves time_out start [] w e = elim (Bool-cases (in_time time_out start w)) [
  | inl y ↦ rw y (inl refl)
  | inr y ↦ rw y (inr (timed_out, after [] w, refl, refl, omega arith, rw e (omega arith)))
]
poll-Moves time_out start (byte b ∷ rx) w e = elim (Bool-cases (in_time time_out start w)) [
  | inl y ↦ rw y (inr (got b, after rx w, refl, refl, omega arith, rw e (omega arith)))
  | inr y ↦
      rw y (inr (timed_out, after (byte b ∷ rx) w, refl, refl, omega arith, rw e (omega arith)))
]
poll-Moves time_out start (error ∷ rx) w e = elim (Bool-cases (in_time time_out start w)) [
  | inl y ↦ rw y (inr (failed, after rx w, refl, refl, omega arith, rw e (omega arith)))
  | inr y ↦
      rw y (inr (timed_out, after (error ∷ rx) w, refl, refl, omega arith, rw e (omega arith)))
]
poll-Moves time_out start (nothing ∷ rx) w e = elim (Bool-cases (in_time time_out start w)) [
  | inl y ↦ rw y (
      Moves-later 1 1 w (after rx w) _ refl (omega arith) (rw e (omega arith))
        (poll-Moves time_out start rx (after rx w) refl))
  | inr y ↦
      rw y (inr (timed_out, after (nothing ∷ rx) w, refl, refl, omega arith, rw e (omega arith)))
]

pub read_char-Moves : (time_out : ℕ) (w : World) → Moves 2 w (read_char time_out w)
unfolding read_char
read_char-Moves time_out w =
    Moves-later 1 2 w (record w { tick = w.tick + 1 }) _ refl (omega arith) (omega arith)
      (poll-Moves time_out (w.clock w.tick) w.rx (record w { tick = w.tick + 1 }) refl)
