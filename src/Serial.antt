-- ===== src/Serial.antt =====
-- vbuddy/vbuddy.cpp, the serial link of `class serialib` as it is compiled for Linux and macOS: what
-- the operating system answers, and runs that read from it.
pub mod Timer
pub mod Device
pub mod Read
pub mod Bytes
pub mod Windows
use risc_v_cpu.Base.{
  ℕ, ◌+◌, ◌≤◌, ◌<◌, ◌≡◌, List, [], ◌∷◌, ◌++◌, length, ltb, lt→ltb, if◌then◌else◌, set, arith,
}

-- What one `read(fd, &b, 1)` answers: 1 with the byte, 0, or -1.
pub data Rx : Type 0 where
  byte : ℕ → Rx
  nothing : Rx
  error : Rx

-- What `gettimeofday` fills in.
pub record Timeval : Type 0 where
  pub sec : ℕ
  pub usec : ℕ

-- The rest of the machine: the answers to the reads to come, those that will come after each further
-- `tcflush`, every answer of `gettimeofday` with the number of those taken, and what was written.
pub record World : Type 0 where
  pub rx : List Rx
  pub later : List (List Rx)
  pub clock : ℕ → Timeval
  pub tick : ℕ
  pub sent : List (List ℕ)

-- The end of a run: a result, a read that has had no answer yet, an access outside an array or to an
-- array never written, or a loop that used up its fuel.
pub data Outcome {ℓ} (A : Type ℓ) : Type ℓ where
  done : A → World → Outcome A
  waiting fault stuck : Outcome A

infixl 5 ◌>>=◌ ◌>>◌
abbrev pub ◌>>=◌ {ℓ κ} :
    {A : Type ℓ} {B : Type κ} → (World → Outcome A) → (A → World → Outcome B) → World → Outcome B
◌>>=◌ m f w = elim (m w) [ done a w' ↦ f a w' | waiting ↦ waiting | fault ↦ fault | stuck ↦ stuck ]

abbrev pub ◌>>◌ {ℓ κ} :
    {A : Type ℓ} {B : Type κ} → (World → Outcome A) → (World → Outcome B) → World → Outcome B
m >> k = m >>= λ _. k

abbrev pub pure {ℓ} : {A : Type ℓ} → A → World → Outcome A
pure a w = done a w

-- `buffer[i] = b`.
abbrev pub store : List ℕ → ℕ → ℕ → World → Outcome (List ℕ)
store buffer i b w = if ltb i (length buffer) then done (set buffer i b) w else fault

-- `gettimeofday`.
abbrev pub now : World → Outcome Timeval
now w = done (w.clock w.tick) (record w { tick = w.tick + 1 })

-- `tcflush(fd, TCIFLUSH)` of `flushReceiver`.
abbrev pub flush_receiver : World → Outcome (Unit {0})
flush_receiver w = elim w.later [
  | [] ↦ done tt (record w { rx = [] })
  | next ∷ rest ↦ done tt (record w { rx = next; later = rest })
]

-- `writeString`: the bytes go out in order; nothing looks at the number that `write` returns.
abbrev pub write_string : List ℕ → World → Outcome (Unit {0})
write_string text w = done tt (record w { sent = w.sent ++ text ∷ [] })

pub store-lt :
    (buffer : List ℕ) (i b : ℕ) (w : World)
    → i < length buffer
    → store buffer i b w ≡ done (set buffer i b) w
store-lt buffer i b w h = rw (lt→ltb i (length buffer) h)

pub store-fault :
    (buffer : List ℕ) (i b : ℕ) (w : World) → length buffer ≤ i → store buffer i b w ≡ fault
store-fault buffer i b w h = ground arith

-- A bind whose first part ends, and one whose first part waits.
module _ {ℓ κ} {A : Type ℓ} {B : Type κ} where
  pub >>=-done :
      (m : World → Outcome A) (f : A → World → Outcome B) (w : World) {a : A} {v : World}
      → m w ≡ done a v
      → (m >>= f) w ≡ f a v
  >>=-done m f w e = rw (e, ◌>>=◌)

  pub >>=-waiting :
      (m : World → Outcome A) (f : A → World → Outcome B) (w : World)
      → m w ≡ waiting
      → (m >>= f) w ≡ waiting
  >>=-waiting m f w e = rw (e, ◌>>=◌)

  pub >>=-fault :
      (m : World → Outcome A) (f : A → World → Outcome B) (w : World)
      → m w ≡ fault
      → (m >>= f) w ≡ fault
  >>=-fault m f w e = rw (e, ◌>>=◌)
