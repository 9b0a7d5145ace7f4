-- ===== src/Serial/Read/Arrival.antt =====
-- A message that arrives in full is what `readStringNoTimeOut` returns.
use risc_v_cpu.Base.{
  ℕ, zero, suc, ◌+◌, ◌≤◌, ◌<◌, ◌≡◌, ◌≢◌, refl, ap, ◌∙◌, List, [], ◌∷◌, ◌++◌, true, false, ◌==◌,
  length, length-set, set, write_text, arith,
}
use risc_v_cpu.Base.Int.{pos}
use risc_v_cpu.Serial.{
  Rx, byte, nothing, error, Timeval, World, Outcome, done, fault, ◌>>=◌, store, store-lt,
  store-fault, >>=-done,
}
use risc_v_cpu.Serial.Read.{
  TextRead, got, after, poll, read_char, keep_char, read_loop, read_string_no_time_out,
}
use risc_v_cpu.Serial.Read.Safety.{or-true, keep_char-got, read_loop-suc}

-- The port delivers these bytes, with any number of empty answers before each, and then has `rest` left.
pub data Arrives (rest : List Rx) : List Rx → List ℕ → Type 0 where
  end : {rx : List Rx} → rx ≡ rest → Arrives rest rx []
  quiet :
      {rx : List Rx} {b : ℕ} {bs : List ℕ}
      → Arrives rest rx (b ∷ bs)
      → Arrives rest (nothing ∷ rx) (b ∷ bs)
  next :
      {rx : List Rx} {b : ℕ} {bs : List ℕ}
      → Arrives rest rx bs
      → Arrives rest (byte b ∷ rx) (b ∷ bs)

-- Between the two, only the port was read and time passed.
pub record Advances (w v : World) : Type 0 where
  pub same_sent : v.sent ≡ w.sent
  pub same_later : v.later ≡ w.later

Advances-trans : {u v w : World} → Advances u v → Advances v w → Advances u w
Advances-trans p q = record {
  same_sent = q.same_sent ∙ p.same_sent;
  same_later = q.same_later ∙ p.same_later;
}

poll-Arrives :
    {rest : List Rx} (start : Timeval) (rx : List Rx) {b : ℕ} {bs : List ℕ} (w : World)
    → Arrives rest rx (b ∷ bs)
    → (v : World) × (poll 0 start rx w ≡ done (got b) v) × Arrives rest v.rx bs × Advances w v
unfolding poll
poll-Arrives start [] w a = elim a [ ]
poll-Arrives start (error ∷ rx) w a = elim a [ ]
poll-Arrives start (byte b ∷ rx) w (next a) =
    (after rx w, rw or-true, a, record { same_sent = refl; same_later = refl })
poll-Arrives start (nothing ∷ rx) w (quiet a) =
    let (v, e, a', same) = poll-Arrives start rx (after rx w) a in
    (v, rw or-true e, a', record { same_sent = same.same_sent; same_later = same.same_later })

read_char-Arrives :
    {rest : List Rx} {b : ℕ} {bs : List ℕ} (w : World)
    → Arrives rest w.rx (b ∷ bs)
    → (v : World) × (read_char 0 w ≡ done (got b) v) × Arrives rest v.rx bs × Advances w v
unfolding read_char
read_char-Arrives w a =
    let (v, e, a', same) = poll-Arrives (w.clock w.tick) w.rx (record w { tick = w.tick + 1 }) a in
    (v, e, a', record { same_sent = same.same_sent; same_later = same.same_later })

rest-Arrives : {rest rx : List Rx} → Arrives rest rx [] → rx ≡ rest
rest-Arrives (end e) = e

-- No byte of the text is the final one.
abbrev pub Avoids : ℕ → List ℕ → Type 0
Avoids c [] = Unit
Avoids c (x ∷ xs) = (x ≢ c) × Avoids c xs

pub ==-false : (x y : ℕ) → x ≢ y → (x == y) ≡ false
==-false x y h = ground arith

==-self : (x : ℕ) → (x == x) ≡ true
==-self x = ground arith

-- One round at a byte that arrives.
read_loop-next :
    {rest : List Rx} {b : ℕ} {bs : List ℕ} (fuel final max : ℕ) (buffer : List ℕ) (nb : ℕ)
    (w : World)
    → nb < max
    → Arrives rest w.rx (b ∷ bs)
    → (v : World) × (read_loop (suc fuel) final max buffer nb w
        ≡ keep_char (read_loop fuel final max) final buffer nb (got b) v)
      × Arrives rest v.rx bs
      × Advances w v
read_loop-next fuel final max buffer nb w lt a =
    let (v, e, a', same) = read_char-Arrives w a in
    (
      v,
      read_loop-suc fuel final max buffer nb w lt
          ∙ >>=-done (read_char 0) (keep_char (read_loop fuel final max) final buffer nb) w e,
      a',
      same,
    )

keep_char-final :
    (more : List ℕ → ℕ → World → Outcome TextRead) (final nb : ℕ) (buffer : List ℕ) (w : World)
    → nb + 1 < length buffer
    → keep_char more final buffer nb (got final) w
      ≡ done (pos (nb + 1), set (set buffer nb final) (nb + 1) 0) w
keep_char-final more final nb buffer w room =
    keep_char-got more final final nb buffer w room ∙ rw ==-self

keep_char-more :
    (more : List ℕ → ℕ → World → Outcome TextRead) (final b nb : ℕ) (buffer : List ℕ) (w : World)
    → b ≢ final
    → nb + 1 < length buffer
    → keep_char more final buffer nb (got b) w ≡ more (set buffer nb b) (nb + 1) w
keep_char-more more final b nb buffer w ne room =
    keep_char-got more final b nb buffer w room ∙ rw (==-false b final ne)

-- The terminator of a text that fills the array falls outside it.
keep_char-full :
    (more : List ℕ → ℕ → World → Outcome TextRead) (final nb : ℕ) (buffer : List ℕ) (w : World)
    → nb + 1 ≡ length buffer
    → keep_char more final buffer nb (got final) w ≡ fault
unfolding keep_char
keep_char-full more final nb buffer w full =
    >>=-done (store buffer nb final) _ w (store-lt buffer nb final w (omega arith))
    ∙ rw ==-self (
        rw (
          store-fault (set buffer nb final) (nb + 1) 0 w
              (omega (arith, length-set buffer nb final)),
          ◌>>=◌,
        ))

module _ {rest : List Rx} (final max : ℕ) where
  read_loop-Arrives :
      (text : List ℕ) (fuel : ℕ) (buffer : List ℕ) (nb n : ℕ) (w : World)
      → Arrives rest w.rx (text ++ final ∷ [])
      → Avoids final text
      → n ≡ nb + length text + 1
      → n ≤ max
      → n < length buffer
      → length text < fuel
      → (v : World) × (read_loop fuel final max buffer nb w
          ≡ done (pos n, write_text buffer nb (text ++ final ∷ 0 ∷ [])) v)
        × (v.rx ≡ rest)
        × Advances w v
  read_loop-Arrives text zero buffer nb n w a avoids at fits room enough = absurd (omega arith)
  read_loop-Arrives [] (suc fuel) buffer nb n w a avoids at fits room enough =
      let (v, e, a', same) = read_loop-next fuel final max buffer nb w (omega arith) a in
      let k : nb + 1 ≡ n = omega arith in
      (
        v,
        e
            ∙ keep_char-final (read_loop fuel final max) final nb buffer v (omega arith)
            ∙ ap (λ m. done (pos m, set (set buffer nb final) (nb + 1) 0) v) k,
        rest-Arrives a',
        same,
      )
  read_loop-Arrives (b ∷ text) (suc fuel) buffer nb n w a avoids at fits room enough =
      let (v, e, a', same) = read_loop-next fuel final max buffer nb w (omega arith) a in
      let (u, e', done_rx, same') =
        read_loop-Arrives text fuel (set buffer nb b) (nb + 1) n v a' avoids.1 (omega arith) fits
          (rw length-set room) (omega arith) in
      (
        u,
        e
            ∙ keep_char-more (read_loop fuel final max) final b nb buffer v avoids.0 (omega arith)
            ∙ e',
        done_rx,
        Advances-trans same same',
      )

  read_loop-full :
      (text : List ℕ) (fuel : ℕ) (buffer : List ℕ) (nb : ℕ) (w : World)
      → Arrives rest w.rx (text ++ final ∷ [])
      → Avoids final text
      → nb + length text + 1 ≡ length buffer
      → length buffer ≤ max
      → length text < fuel
      → read_loop fuel final max buffer nb w ≡ fault
  read_loop-full text zero buffer nb w a avoids at fits enough = absurd (omega arith)
  read_loop-full [] (suc fuel) buffer nb w a avoids at fits enough =
      let (v, e, a', same) = read_loop-next fuel final max buffer nb w (omega arith) a in
      e ∙ keep_char-full (read_loop fuel final max) final nb buffer v (omega arith)
  read_loop-full (b ∷ text) (suc fuel) buffer nb w a avoids at fits enough =
      let (v, e, a', same) = read_loop-next fuel final max buffer nb w (omega arith) a in
      e
      ∙ keep_char-more (read_loop fuel final max) final b nb buffer v avoids.0 (omega arith)
      ∙ read_loop-full text fuel (set buffer nb b) (nb + 1) v a' avoids.1
          (rw length-set (omega arith)) (rw length-set fits) (omega arith)

  -- If the port delivers a text without the final character and then that character, both within
  -- `maxNbBytes` and shorter than the array, `readStringNoTimeOut` returns their number, leaves them in the
  -- array with a 0 behind, and takes nothing further from the port.
  pub read_string_Arrives :
      (text buffer : List ℕ) (w : World)
      → Arrives rest w.rx (text ++ final ∷ [])
      → Avoids final text
      → length text + 1 ≤ max
      → length text + 1 < length buffer
      → (v : World) × (read_string_no_time_out buffer final max w
          ≡ done (pos (length text + 1), write_text buffer 0 (text ++ final ∷ 0 ∷ [])) v)
        × (v.rx ≡ rest)
        × Advances w v
  unfolding read_string_no_time_out
  read_string_Arrives text buffer w a avoids fits room =
      read_loop-Arrives text (suc max) buffer 0 (length text + 1) w a avoids (omega arith) fits room
        (omega arith)

  -- If the port delivers a text and the final character that fill an array no longer than
  -- `maxNbBytes`, the 0 is stored one place behind the array.
  pub read_string_overflows :
      (text buffer : List ℕ) (w : World)
      → Arrives rest w.rx (text ++ final ∷ [])
      → Avoids final text
      → length text + 1 ≡ length buffer
      → length buffer ≤ max
      → read_string_no_time_out buffer final max w ≡ fault
  unfolding read_string_no_time_out
  read_string_overflows text buffer w a avoids full fits =
      read_loop-full text (suc max) buffer 0 w a avoids (omega arith) fits (omega arith)
