-- ===== src/Serial/Read/Timed/Deadline.antt =====
-- `readString` with a time-out: it stays inside its buffer and ends once the clock shows that the time is over.
use risc_v_cpu.Base.{
  ℕ, zero, suc, ◌+◌, ◌*◌, ◌%◌, ◌^◌, ◌≤◌, ◌<◌, ◌≡◌, ◌≢◌, inl, inr, refl, ap, ◌∙◌, List, true, false,
  ltb, ◌==◌, Bool-cases, ltb→lt, length, length-set, set, arith,
}
use risc_v_cpu.Serial.{Timeval, World, Outcome, ◌>>=◌, store, store-lt, >>=-done, >>=-waiting}
use risc_v_cpu.Serial.Timer.{elapsed_ms}
use risc_v_cpu.Serial.Read.{TextRead, CharRead, got, timed_out, failed, read_char}
use risc_v_cpu.Serial.Read.Safety.{IsSafe}
use risc_v_cpu.Serial.Read.Arrival.{==-false}
use risc_v_cpu.Serial.Read.Timed.{
  remaining, is_positive, give_up, keep_timed, timed_loop, read_string,
}
use risc_v_cpu.Serial.Read.Timed.Moves.{budget, Moves, read_char-Moves}

abbrev ticked : World → World
ticked w = record w { tick = w.tick + 1 }

-- `start` is the first reading of the clock, and from reading `last` up to `horizon` the time is over.
module _ (time_out last horizon : ℕ) (start : Timeval) (clock : ℕ → Timeval)
    (over : (k : ℕ) → last ≤ k → k ≤ horizon → time_out < elapsed_ms start (clock k)) where
  abbrev Next : (List ℕ → ℕ → World → Outcome TextRead) → List ℕ → ℕ → World → Type 0
  Next more buffer nb w = w.tick < last → IsSafe (more buffer nb (ticked w))

  give_up-IsSafe :
      (more : List ℕ → ℕ → World → Outcome TextRead) (buffer : List ℕ) (nb : ℕ) (w : World)
      → w.clock ≡ clock
      → w.tick ≤ horizon
      → nb < length buffer
      → Next more buffer nb w
      → IsSafe (give_up more time_out start buffer nb w)
  unfolding give_up
  give_up-IsSafe more buffer nb w same soon room next =
      elim (Bool-cases (ltb time_out (elapsed_ms start (w.clock w.tick)))) [
        | inl e ↦ rw e (
            rw (>>=-done (store buffer nb 0) _ (ticked w) (store-lt buffer nb 0 (ticked w) room))
              ((cc), (cc)))
        | inr e ↦ let early : w.tick < last = before w same soon e in rw e (next early)
      ]
    where
      before :
          (w : World)
          → w.clock ≡ clock
          → w.tick ≤ horizon
          → ltb time_out (elapsed_ms start (w.clock w.tick)) ≡ false
          → w.tick < last
      before w same soon e = elim (Bool-cases (ltb w.tick last)) [
        | inl lt ↦ ltb→lt w.tick last lt
        | inr ge ↦
            let gone = over w.tick (ground arith) soon in
            ground (arith, gone, ap (λ (f : ℕ → Timeval). f w.tick) same)
      ]

  -- A byte that is read with room for one more, the other answers of `readChar`, and what follows each.
  keep_timed-IsSafe :
      (more : List ℕ → ℕ → World → Outcome TextRead) (final : ℕ) (buffer : List ℕ) (nb : ℕ)
      (c : CharRead) (w : World)
      → w.clock ≡ clock
      → w.tick ≤ horizon
      → nb + 1 < length buffer
      → ((kept : List ℕ) (n : ℕ) → length kept ≡ length buffer → n ≤ nb + 1 → Next more kept n w)
      → IsSafe (keep_timed more time_out start final buffer nb c w)
  unfolding keep_timed
  keep_timed-IsSafe more final buffer nb (got b) w same soon room next =
      let read = set buffer nb b in
      let long : nb + 1 < length read = rw length-set room in
      rw (>>=-done (store buffer nb b) _ w (store-lt buffer nb b w (omega arith)))
        (elim (Bool-cases (b == final)) [
          | inl e ↦ rw e (
              rw (>>=-done (store read (nb + 1) 0) _ w (store-lt read (nb + 1) 0 w long))
                ((cc), (cc)))
          | inr e ↦ rw e (
              give_up-IsSafe more read (nb + 1) w same soon long
                (next read (nb + 1) (length-set buffer nb b) (omega arith)))
        ])
  keep_timed-IsSafe more final buffer nb timed_out w same soon room next =
      give_up-IsSafe more buffer nb w same soon (omega arith) (next buffer nb refl (omega arith))
  keep_timed-IsSafe more final buffer nb failed w same soon room next = ((cc), (cc))

  round-IsSafe :
      (more : List ℕ → ℕ → World → Outcome TextRead) (final : ℕ) (buffer : List ℕ) (nb param : ℕ)
      (w : World)
      → w.clock ≡ clock
      → budget w + 2 ≤ horizon
      → nb + 1 < length buffer
      → ((kept : List ℕ) (n : ℕ) (v : World)
          → length kept ≡ length buffer
          → n ≤ nb + 1
          → v.clock ≡ clock
          → w.tick < v.tick
          → v.tick ≤ last
          → budget v ≤ budget w + 3
          → IsSafe (more kept n v))
      → Moves 2 w (read_char param w)
      → IsSafe ((read_char param >>= keep_timed more time_out start final buffer nb) w)
  round-IsSafe more final buffer nb param w same soon room next (inl e) =
      rw (>>=-waiting (read_char param) (keep_timed more time_out start final buffer nb) w e)
        ((cc), (cc))
  round-IsSafe more final buffer nb param w same soon room next (inr (c, v, e, kept, lt, small)) =
      rw (>>=-done (read_char param) (keep_timed more time_out start final buffer nb) w e) (
        keep_timed-IsSafe more final buffer nb c v (kept ∙ same) (omega arith) room
          (λ b n long le early.
            next b n (ticked v) long le (kept ∙ same) (omega arith) (omega arith) (omega arith)))

  module _ (fuel final max : ℕ) (buffer : List ℕ) (nb : ℕ) (w : World) where
    abbrev later_rounds : List ℕ → ℕ → World → Outcome TextRead
    later_rounds kept n v = timed_loop fuel time_out start final max kept n v

    abbrev param : ℕ
    param = remaining time_out (elapsed_ms start (w.clock w.tick))

    loop-full :
        ltb nb max ≡ false → IsSafe (timed_loop (suc fuel) time_out start final max buffer nb w)
    unfolding timed_loop
    loop-full e = rw e ((cc), (cc))

    loop-waits :
        ltb nb max ≡ true
        → is_positive param ≡ true
        → timed_loop (suc fuel) time_out start final max buffer nb w
          ≡ (read_char (param % 2 ^ 32) >>= keep_timed later_rounds time_out start final buffer nb)
              (ticked w)
    unfolding timed_loop
    loop-waits e p = rw (e, p) refl

    loop-late :
        ltb nb max ≡ true
        → is_positive param ≡ false
        → timed_loop (suc fuel) time_out start final max buffer nb w
          ≡ give_up later_rounds time_out start buffer nb (ticked w)
    unfolding timed_loop
    loop-late e p = rw (e, p) refl

    -- A round, if the rounds behind it are safe.
    loop-IsSafe :
        w.clock ≡ clock
        → budget w + 3 ≤ horizon
        → max < length buffer
        → ((kept : List ℕ) (n : ℕ) (v : World)
            → length kept ≡ length buffer
            → n ≤ max
            → v.clock ≡ clock
            → w.tick + 1 < v.tick
            → v.tick ≤ last
            → budget v ≤ budget w + 4
            → IsSafe (later_rounds kept n v))
        → IsSafe (timed_loop (suc fuel) time_out start final max buffer nb w)
    loop-IsSafe same soon room next = elim (Bool-cases (ltb nb max)) [
      | inl e ↦
          let lt = ltb→lt nb max e in
          elim (Bool-cases (is_positive param)) [
            | inl p ↦ rw (loop-waits e p) (
                round-IsSafe later_rounds final buffer nb (param % 2 ^ 32) (ticked w) same
                  (omega arith) (omega arith)
                  (λ kept n v long le clock_same after_w before_last small.
                    next kept n v long (omega arith) clock_same (omega arith) before_last
                      (omega arith))
                  (read_char-Moves (param % 2 ^ 32) (ticked w)))
            | inr p ↦ rw (loop-late e p) (
                give_up-IsSafe later_rounds buffer nb (ticked w) same (omega arith) (omega arith)
                  (λ early.
                    next buffer nb (ticked (ticked w)) refl (omega arith) same (omega arith)
                      (omega arith) (omega arith)))
          ]
      | inr e ↦ loop-full e
    ]

  timed_loop-IsSafe :
      (fuel final max : ℕ) (buffer : List ℕ) (nb : ℕ) (w : World)
      → w.clock ≡ clock
      → max < length buffer
      → 1 ≤ fuel
      → last < w.tick + fuel
      → budget w + 4 * fuel ≤ horizon
      → IsSafe (timed_loop fuel time_out start final max buffer nb w)
  timed_loop-IsSafe zero final max buffer nb w same room some_fuel enough soon =
      absurd (omega arith)
  timed_loop-IsSafe (suc fuel) final max buffer nb w same room some_fuel enough soon =
      loop-IsSafe fuel final max buffer nb w same (omega arith) room
        (λ kept n v long le clock_same after_w before_last small.
          timed_loop-IsSafe fuel final max kept n v clock_same (rw long room) (omega arith)
            (omega arith) (omega arith))

-- If the array is longer than `maxNbBytes`, `timeOut_ms` is not 0, and more than it has passed at the readings of
-- the clock from `last` to the latest that the run can take, then fuel for the readings up to `last` is enough: no
-- run of `readString` leaves the array, and every run ends in a result or waits for an answer of the port.
pub read_string_ends :
    (fuel : ℕ) (buffer : List ℕ) (final max time_out last : ℕ) (w : World)
    → max < length buffer
    → time_out ≢ 0
    → ((k : ℕ)
        → last ≤ k
        → k ≤ w.tick + 1 + length w.rx + 4 * fuel
        → time_out < elapsed_ms (w.clock w.tick) (w.clock k))
    → 1 ≤ fuel
    → last < w.tick + 1 + fuel
    → IsSafe (read_string fuel buffer final max time_out w)
unfolding read_string
read_string_ends fuel buffer final max time_out last w room timed over some_fuel enough =
    rw (==-false time_out 0 timed) (
      timed_loop-IsSafe time_out last (w.tick + 1 + length w.rx + 4 * fuel) (w.clock w.tick) w.clock
        over fuel final max buffer 0 (ticked w) refl room some_fuel enough (omega arith))
