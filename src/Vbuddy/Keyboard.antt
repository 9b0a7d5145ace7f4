-- ===== src/Vbuddy/Keyboard.antt =====
-- vbuddy/vbuddy.cpp, `vbdGetkey`: a key of the terminal that the program runs in, without the board.
use risc_v_cpu.Base.{
  ℕ, zero, suc, ◌≡◌, ◌∙◌, refl, ap, sym, Bool, true, false, Option, none, some, List, [], ◌∷◌, ◌++◌,
  length, drop, get_or, ◌==◌, if◌then◌else◌, ◌⊎◌, inl, inr, Bool-cases, arith,
}
use risc_v_cpu.Serial.Read.Arrival.{==-false}
use mathlib.Core.List.{append_assoc, append-nil}

-- `initialized`, the line mode of the terminal (ICANON), whether `setbuf` has taken the buffer of stdin away, what
-- that buffer holds, and what has been typed and not read.
pub record Keyboard : Type 0 where
  pub initialized : Bool
  pub canonical : Bool
  pub unbuffered : Bool
  pub ahead : List ℕ
  pub typed : List ℕ

unfoldable pub type_in : List ℕ → Keyboard → Keyboard
type_in keys k = record k { typed = k.typed ++ keys }

-- The first call turns the line mode off and the buffer of stdin.
unfoldable pub prepare : Keyboard → Keyboard
prepare k =
    if k.initialized
    then k
    else record k { initialized = true; canonical = false; unbuffered = true }

-- `getchar()`: from the buffer of stdin, or from the terminal, all of it when there is a buffer to put it in. None
-- is a call that waits for a key.
unfoldable pub getchar : Keyboard → Option (ℕ × Keyboard)
getchar k = elim k.ahead [
  | c ∷ rest ↦ some (c, record k { ahead = rest })
  | [] ↦ elim k.typed [
    | [] ↦ none
    | c ∷ rest ↦ some (
      c,
      if k.unbuffered then record k { typed = rest } else record k { ahead = rest; typed = [] },
    )
  ]
]

-- `bytes_waiting` is what `ioctl(STDIN, FIONREAD, …)` answers, by the line mode and what has been typed.
module _ (bytes_waiting : Bool → List ℕ → ℕ) where
  unfoldable pub get_key : Keyboard → Option (ℕ × Keyboard)
  get_key k =
      let r = prepare k in if bytes_waiting r.canonical r.typed == 0 then some (0, r) else getchar r

  -- A call behind each arrival of keys.
  unfoldable pub get_keys : List (List ℕ) → Keyboard → Option (List ℕ × Keyboard)
  get_keys [] k = some ([], k)
  get_keys (keys ∷ more) k = elim (get_key (type_in keys k)) [
    | none ↦ none
    | some (c, k') ↦ elim (get_keys more k') [ none ↦ none | some (cs, k'') ↦ some (c ∷ cs, k'') ]
  ]

-- Outside the line mode the terminal counts every byte that has been typed.
abbrev pub CountsBytes : (Bool → List ℕ → ℕ) → Type 0
CountsBytes bytes_waiting = (keys : List ℕ) → bytes_waiting false keys ≡ length keys

-- No key has been read ahead, and the terminal is set up if the flag says so.
pub record IsSetUp (k : Keyboard) : Type 0 where
  pub none_ahead : k.ahead ≡ []
  pub set_up : (k.initialized ≡ false) ⊎ ((k.canonical ≡ false) × (k.unbuffered ≡ true))

-- The keyboard behind a call.
abbrev pub behind : List ℕ → Keyboard
behind keys = record {
  initialized = true;
  canonical = false;
  unbuffered = true;
  ahead = [];
  typed = keys;
}

pub behind-IsSetUp : (keys : List ℕ) → IsSetUp (behind keys)
behind-IsSetUp keys = record { none_ahead = refl; set_up = inr (refl, refl) }

pub type_in-IsSetUp : (keys : List ℕ) (k : Keyboard) → IsSetUp k → IsSetUp (type_in keys k)
unfolding type_in
type_in-IsSetUp keys k h = record { none_ahead = h.none_ahead; set_up = h.set_up }

prepare_lem : (k : Keyboard) → IsSetUp k → prepare k ≡ behind k.typed
unfolding prepare
prepare_lem k h = elim (Bool-cases k.initialized) [
  | inr off ↦ rw (off, h.none_ahead) refl
  | inl on ↦ elim h.set_up [
    | inl off ↦ cc
    | inr (canonical, unbuffered) ↦ rw (on, h.none_ahead, canonical, unbuffered) refl
  ]
]

module _ (bytes_waiting : Bool → List ℕ → ℕ) (counts : CountsBytes bytes_waiting) where
  behind_lem :
      (keys : List ℕ)
      → (if bytes_waiting false keys == 0 then some (0, behind keys) else getchar (behind keys))
        ≡ some (get_or keys 0 0, behind (drop 1 keys))
  unfolding getchar
  behind_lem [] = rw (counts []) refl
  behind_lem (c ∷ keys) =
      rw (counts (c ∷ keys), ==-false (suc (length keys)) 0 (λ e. absurd (omega (arith, e)))) refl

  -- A call returns at once, with the first key that has been typed or 0.
  pub get_key_lem :
      (k : Keyboard)
      → IsSetUp k
      → get_key bytes_waiting k ≡ some (get_or k.typed 0 0, behind (drop 1 k.typed))
  unfolding get_key
  get_key_lem k h = rw (prepare_lem k h) (behind_lem k.typed)

-- What waits in the terminal when a call reads it, and what the call finds, with these keys waiting at the start and
-- these arriving before each call.
module _ (start : List ℕ) (arrive : ℕ → List ℕ) where
  unfoldable pub queue_at : ℕ → List ℕ
  queue_at zero = start ++ arrive 0
  queue_at (suc i) = drop 1 (queue_at i) ++ arrive (suc i)

  unfoldable pub key_at : ℕ → ℕ
  key_at i = get_or (queue_at i) 0 0

-- The bytes of keys, which are not 0, and the keys that calls found.
abbrev pub AreKeys : List ℕ → Type 0
AreKeys [] = Unit
AreKeys (zero ∷ rest) = ⊥
AreKeys (suc c ∷ rest) = AreKeys rest

abbrev pub AllKeys : List (List ℕ) → Type 0
AllKeys [] = Unit
AllKeys (keys ∷ more) = AreKeys keys × AllKeys more

abbrev pub found : List ℕ → List ℕ
found [] = []
found (zero ∷ rest) = found rest
found (suc c ∷ rest) = suc c ∷ found rest

abbrev pub concat : List (List ℕ) → List ℕ
concat [] = []
concat (keys ∷ more) = keys ++ concat more

append-AreKeys : (xs ys : List ℕ) → AreKeys xs → AreKeys ys → AreKeys (xs ++ ys)
append-AreKeys [] ys h g = g
append-AreKeys (zero ∷ xs) ys h g = absurd h
append-AreKeys (suc x ∷ xs) ys h g = append-AreKeys xs ys h g

drop-AreKeys : (xs : List ℕ) → AreKeys xs → AreKeys (drop 1 xs)
drop-AreKeys [] h = tt
drop-AreKeys (zero ∷ xs) h = absurd h
drop-AreKeys (suc x ∷ xs) h = h

found-first :
    (queue keys left rest : List ℕ)
    → AreKeys queue
    → found keys ++ left ≡ drop 1 queue ++ rest
    → found (get_or queue 0 0 ∷ keys) ++ left ≡ queue ++ rest
found-first [] keys left rest h e = e
found-first (zero ∷ queue) keys left rest h e = absurd h
found-first (suc c ∷ queue) keys left rest h e = ap (λ l. suc c ∷ l) e

module _ (bytes_waiting : Bool → List ℕ → ℕ) (counts : CountsBytes bytes_waiting) where
  get_keys-first :
      (now : List ℕ) (more : List (List ℕ)) (c : ℕ) (cs : List ℕ) (k k1 k2 : Keyboard)
      → get_key bytes_waiting (type_in now k) ≡ some (c, k1)
      → get_keys bytes_waiting more k1 ≡ some (cs, k2)
      → get_keys bytes_waiting (now ∷ more) k ≡ some (c ∷ cs, k2)
  unfolding get_keys
  get_keys-first now more c cs k k1 k2 e e' = rw (e, e', get_keys) refl

  -- Calls of vbdGetkey, each behind the keys that were typed since the one before, none of them
  -- the byte 0, on a terminal that counts the bytes waiting in it outside the line mode, where
  -- nothing has been read ahead and the terminal is set up if a call was made before: none waits
  -- for a key, and what they find, in order, and what is left in the terminal are the keys that
  -- were typed, none lost, doubled or out of order.
  pub get_keys_lem :
      (arrivals : List (List ℕ)) (k : Keyboard)
      → IsSetUp k
      → AreKeys k.typed
      → AllKeys arrivals
      → (keys : List ℕ) × (k' : Keyboard) × (get_keys bytes_waiting arrivals k ≡ some (keys, k'))
        × (length keys ≡ length arrivals)
        × (found keys ++ k'.typed ≡ k.typed ++ concat arrivals)
  unfolding get_keys type_in
  get_keys_lem [] k h here all = ([], k, refl, refl, sym (append-nil k.typed))
  get_keys_lem (now ∷ more) k h here (fresh, all) =
      let queue = k.typed ++ now in
      let ok = append-AreKeys k.typed now here fresh in
      let (keys, k', e, same, kept) =
        get_keys_lem more (behind (drop 1 queue)) (behind-IsSetUp (drop 1 queue))
          (drop-AreKeys queue ok) all in
      (
        get_or queue 0 0 ∷ keys,
        k',
        get_keys-first now more (get_or queue 0 0) keys k (behind (drop 1 queue)) k'
            (get_key_lem bytes_waiting counts (type_in now k) (type_in-IsSetUp now k h)) e,
        ap suc same,
        found-first queue keys k'.typed (concat more) ok kept
            ∙ append_assoc k.typed now (concat more),
      )
