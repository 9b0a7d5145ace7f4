-- ===== src/Programs/Counter/Rounds.antt =====
-- The rounds of programs/counter/counter.s, on what the instruction set says of its instructions.
use risc_v_cpu.Base.{ℕ, zero, suc, ◌+◌, ◌*◌, ◌^◌, ◌≤◌, ◌<◌, ◌≡◌, refl, arith}
use risc_v_cpu.Processor.Branching.{InOrder}
use risc_v_cpu.Processor.Meaning.Runs.{runs}
use risc_v_cpu.Programs.Counter.{
  IsAt, program, step, next-copy, next-clear_a1, next-count, next-again, next-leave, next-round,
  next-start,
}

module _ (base : ℕ) (room : base + 28 ≤ 2 ^ 32) where
  runs_add :
      (m n : ℕ) (q : InOrder)
      → runs (program base) (m + n) q ≡ runs (program base) n (runs (program base) m q)
  unfolding runs
  runs_add zero n q = let e : 0 + n ≡ n = omega arith in rw e refl
  runs_add (suc m) n q =
      let e : suc m + n ≡ suc (m + n) = omega arith in rw e (runs_add m n (step base q))

  abbrev after : ℕ → InOrder → InOrder
  after = runs (program base)

  -- A turn of the inner loop, the inner loop, a round of the outer loop, and some rounds.
  turn : (a0 i : ℕ) (q : InOrder) → IsAt base 3 a0 i q → i < 254 → IsAt base 3 i (i + 1) (after 3 q)
  unfolding runs
  turn a0 i q h less =
      next-again base room i (i + 1) _
        (next-count base room i i _ (next-copy base room a0 i q h (omega arith)) (omega arith))
        (omega arith)

  turns :
      (a0 i : ℕ) (q : InOrder)
      → IsAt base 3 a0 0 q
      → i ≤ 254
      → (o : ℕ) × IsAt base 3 o i (after (3 * i) q)
  unfolding runs
  turns a0 zero q h less = (a0, h)
  turns a0 (suc i) q h less =
      let (o, here) = turns a0 i q h (omega arith) in
      let one_more : suc i ≡ i + 1 = omega arith in
      let three_more : 3 * (i + 1) ≡ 3 * i + 3 = omega arith in
      (
        i,
        rw (one_more, three_more, runs_add (3 * i) 3 q)
            (turn o i (after (3 * i) q) here (omega arith)),
      )

  last_turn : (a0 : ℕ) (q : InOrder) → IsAt base 3 a0 254 q → IsAt base 3 254 0 (after 5 q)
  unfolding runs
  last_turn a0 q h = next-clear_a1 base room 254 255 _ (
      next-round base room 254 255 _ (
        next-leave base room 254 0 _ (
          next-count base room 254 254 _ (next-copy base room a0 254 q h (omega arith))
            (omega arith))))

  round : (a0 : ℕ) (q : InOrder) → IsAt base 3 a0 0 q → IsAt base 3 254 0 (after 767 q)
  round a0 q h =
      let (o, here) = turns a0 254 q h (omega arith) in
      rw (runs_add 762 5 q) (last_turn o (after 762 q) here)

  rounds :
      (a0 m : ℕ) (q : InOrder) → IsAt base 3 a0 0 q → (o : ℕ) × IsAt base 3 o 0 (after (767 * m) q)
  unfolding runs
  rounds a0 zero q h = (a0, h)
  rounds a0 (suc m) q h =
      let more : 767 * suc m ≡ 767 + 767 * m = omega arith in
      rw (more, runs_add 767 (767 * m) q) (rounds 254 m (after 767 q) (round a0 q h))

  start : (q : InOrder) → q.counter ≡ base → q.state.file 0 ≡ 0 → IsAt base 3 0 0 (after 3 q)
  unfolding runs
  start q here zero_is =
      next-clear_a1 base room 0 (q.state.file 11) _ (next-start base room 0 0 q here zero_is)

  shown : (a0 i : ℕ) (q : InOrder) → IsAt base 3 a0 i q → i < 255 → IsAt base 4 i i (after 1 q)
  unfolding runs
  shown a0 i q h less = next-copy base room a0 i q h (omega arith)

  -- From the first instruction, the count `i` below 255 of round `m` is in a0 behind so many instructions.
  pub counts :
      (m i : ℕ) (q : InOrder)
      → i < 255
      → q.counter ≡ base
      → q.state.file 0 ≡ 0
      → IsAt base 4 i i (after (3 + (767 * m + (3 * i + 1))) q)
  counts m i q less here zero_is =
      let (o, in_round) = rounds 0 m (after 3 q) (start q here zero_is) in
      let (a0, in_turn) = turns o i (after (767 * m) (after 3 q)) in_round (omega arith) in
      rw
        (
          runs_add 3 (767 * m + (3 * i + 1)) q,
          runs_add (767 * m) (3 * i + 1) (after 3 q),
          runs_add (3 * i) 1 (after (767 * m) (after 3 q)),
        )
        (shown a0 i (after (3 * i) (after (767 * m) (after 3 q))) in_turn less)
