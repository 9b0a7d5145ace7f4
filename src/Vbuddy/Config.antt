-- ===== src/Vbuddy/Config.antt =====
-- vbuddy/vbuddy.cpp, `vbdOpen`: the name of the port, from the file vbuddy.cfg.
use risc_v_cpu.Base.{
  ℕ, zero, suc, ◌≤◌, ◌<◌, ◌≡◌, ◌≢◌, ◌∙◌, refl, ap, Option, none, some, List, [], ◌∷◌, ◌++◌, length,
  length-append, ◌==◌, if◌then◌else◌, arith,
}
use risc_v_cpu.Base.Int.{ℤ}
use risc_v_cpu.Serial.{World, Outcome, fault}
use risc_v_cpu.Serial.Device.{Port}
use risc_v_cpu.Serial.Read.Arrival.{Avoids, ==-false}
use risc_v_cpu.Vbuddy.{vbd_open}

-- What `fgets` stores of a file, in front of the final 0: up to the first newline and with it, but no more than
-- `room` bytes.
first_line : ℕ → List ℕ → List ℕ
first_line zero bytes = []
first_line (suc room) [] = []
first_line (suc room) (b ∷ bytes) =
    let rest = first_line room bytes in if b == b'\n' then b ∷ [] else b ∷ rest

-- The text that an array holds, up to the first 0.
c_text : List ℕ → List ℕ
c_text [] = []
c_text (b ∷ bytes) = let rest = c_text bytes in if b == 0 then [] else b ∷ rest

-- `port_name[strlen(port_name)-1] = '\0'`; none is the index -1 of an empty text.
without_last : List ℕ → Option (List ℕ)
without_last [] = none
without_last (b ∷ []) = some []
without_last (b ∷ c ∷ rest) = elim (without_last (c ∷ rest)) [
  | none ↦ none
  | some name ↦ some (b ∷ name)
]

-- `port_name`, of the bytes of the file. Without a file, and with an empty one, the array is never
-- written; none is what C++ does not define.
unfoldable pub port_name : Option (List ℕ) → Option (List ℕ)
unfolding first_line c_text without_last
port_name none = none
port_name (some []) = none
port_name (some (b ∷ bytes)) = without_last (c_text (first_line 79 (b ∷ bytes)))

-- `vbdOpen`; `opens` is what the operating system answers for a name.
unfoldable pub vbd_open_config :
    ℕ → List ℕ → Option (List ℕ) → (List ℕ → Option ℕ) → Port → World → Outcome (ℤ × Port)
unfolding port_name
vbd_open_config fuel stack config opens p w = elim (port_name config) [
  | none ↦ fault
  | some name ↦ vbd_open fuel stack (opens name) p w
]

first_line-ends :
    (room : ℕ) (name rest : List ℕ)
    → Avoids b'\n' name
    → length name < room
    → first_line room (name ++ b'\n' ∷ rest) ≡ name ++ b'\n' ∷ []
unfolding first_line
first_line-ends zero name rest h small = absurd (omega arith)
first_line-ends (suc room) [] rest h small = refl
first_line-ends (suc room) (x ∷ name) rest (ne, h) small =
    rw (==-false x b'\n' ne) (ap (λ l. x ∷ l) (first_line-ends room name rest h (omega arith)))

first_line-whole :
    (room : ℕ) (name : List ℕ)
    → Avoids b'\n' name
    → length name ≤ room
    → first_line room name ≡ name
unfolding first_line
first_line-whole zero [] h small = refl
first_line-whole zero (x ∷ name) h small = absurd (omega arith)
first_line-whole (suc room) [] h small = refl
first_line-whole (suc room) (x ∷ name) (ne, h) small =
    rw (==-false x b'\n' ne) (ap (λ l. x ∷ l) (first_line-whole room name h (omega arith)))

c_text-whole : (name : List ℕ) → Avoids 0 name → c_text name ≡ name
unfolding c_text
c_text-whole [] h = refl
c_text-whole (x ∷ name) (ne, h) = rw (==-false x 0 ne) (ap (λ l. x ∷ l) (c_text-whole name h))

without_last-snoc : (name : List ℕ) (c : ℕ) → without_last (name ++ c ∷ []) ≡ some name
unfolding without_last
without_last-snoc [] c = refl
without_last-snoc (x ∷ []) c = refl
without_last-snoc (x ∷ y ∷ name) c = rw (without_last-snoc (y ∷ name) c, without_last) refl

port_name-some :
    (bytes : List ℕ) → port_name (some bytes) ≡ without_last (c_text (first_line 79 bytes))
unfolding port_name
port_name-some [] = refl
port_name-some (b ∷ bytes) = refl

Avoids-snoc : (d c : ℕ) (name : List ℕ) → c ≢ d → Avoids d name → Avoids d (name ++ c ∷ [])
Avoids-snoc d c [] ne h = (ne, tt)
Avoids-snoc d c (x ∷ name) ne (first, h) = (first, Avoids-snoc d c name ne h)

-- What the strings agree on: a line of the file, and a text without one, with its last character.
pub port_name-newline :
    (name rest : List ℕ)
    → Avoids b'\n' name
    → Avoids 0 name
    → length name < 79
    → port_name (some (name ++ b'\n' ∷ rest)) ≡ some name
port_name-newline name rest line text small =
    port_name-some (name ++ b'\n' ∷ rest)
    ∙ rw
        (
          first_line-ends 79 name rest line small,
          c_text-whole (name ++ b'\n' ∷ []) (Avoids-snoc 0 b'\n' name (omega arith) text),
        )
        (without_last-snoc name b'\n')

pub port_name-bare :
    (name : List ℕ) (c : ℕ)
    → Avoids b'\n' name
    → Avoids 0 name
    → length name < 79
    → c ≢ b'\n'
    → c ≢ 0
    → port_name (some (name ++ c ∷ [])) ≡ some name
port_name-bare name c line text small ne no_end =
    port_name-some (name ++ c ∷ [])
    ∙ rw
        (
          first_line-whole 79 (name ++ c ∷ []) (Avoids-snoc b'\n' c name ne line)
              (omega (arith, length-append name (c ∷ []))),
          c_text-whole (name ++ c ∷ []) (Avoids-snoc 0 c name no_end text),
        )
        (without_last-snoc name c)

pub vbd_open_config-some :
    (fuel : ℕ) (stack name : List ℕ) (config : Option (List ℕ)) (opens : List ℕ → Option ℕ)
    (p : Port) (w : World)
    → port_name config ≡ some name
    → vbd_open_config fuel stack config opens p w ≡ vbd_open fuel stack (opens name) p w
unfolding vbd_open_config
vbd_open_config-some fuel stack name config opens p w e = rw (e, vbd_open_config) refl

-- For a name of at most 78 characters without a newline or a 0: with a first line of that name in
-- the file, the port of the name is opened. With the name and one more character, neither a
-- newline nor a 0, at the end of the file, the port of the name is opened too, without that
-- character. Without a file, or with an empty one, the name is taken from an array that was never
-- written.
pub vbd_open_config_lem :
    (fuel : ℕ) (stack name rest : List ℕ) (c : ℕ) (opens : List ℕ → Option ℕ) (p : Port) (w : World)
    → Avoids b'\n' name
    → Avoids 0 name
    → length name < 79
    → c ≢ b'\n'
    → c ≢ 0
    → (vbd_open_config fuel stack (some (name ++ b'\n' ∷ rest)) opens p w
        ≡ vbd_open fuel stack (opens name) p w)
      × (vbd_open_config fuel stack (some (name ++ c ∷ [])) opens p w
          ≡ vbd_open fuel stack (opens name) p w)
      × (vbd_open_config fuel stack (some []) opens p w ≡ fault)
      × (vbd_open_config fuel stack none opens p w ≡ fault)
unfolding vbd_open_config port_name
vbd_open_config_lem fuel stack name rest c opens p w line text small ne no_end = (
  vbd_open_config-some fuel stack name (some (name ++ b'\n' ∷ rest)) opens p w
      (port_name-newline name rest line text small),
  vbd_open_config-some fuel stack name (some (name ++ c ∷ [])) opens p w
      (port_name-bare name c line text small ne no_end),
  refl,
  refl,
)
