-- ===== src/Examples/Keys.antt =====
-- The terminal and the file of vbuddy/vbuddy.cpp on concrete inputs.
use risc_v_cpu.Base.{ℕ, ◌≡◌, ◌∷◌, [], ◌++◌, List, some, none, refl, length, arith}
use risc_v_cpu.Serial.{fault}
use risc_v_cpu.Serial.Device.{closed}
use risc_v_cpu.Vbuddy.{vbd_open}
use risc_v_cpu.Vbuddy.Keyboard.{Keyboard, get_keys, get_keys_lem, found}
use risc_v_cpu.Vbuddy.Config.{vbd_open_config, vbd_open_config_lem}
use risc_v_cpu.Examples.Boards.{blank, world}
use risc_v_cpu.Examples.Benches.{untouched, untouched-IsSetUp}

-- Two keys before the first call, none before the second, and one before the third.
abbrev arrivals : List (List ℕ)
arrivals = (b'a' ∷ b'b' ∷ []) ∷ [] ∷ (b'q' ∷ []) ∷ []

get_keys_lem_example :
    (keys : List ℕ) × (k' : Keyboard) × (get_keys (λ canonical. length) arrivals untouched
      ≡ some (keys, k'))
    × (length keys ≡ 3)
    × (found keys ++ k'.typed ≡ b'a' ∷ b'b' ∷ b'q' ∷ [])
get_keys_lem_example =
    get_keys_lem (λ canonical. length) (λ keys. refl) arrivals untouched untouched-IsSetUp tt
      (tt, (tt, (tt, tt)))

vbd_open_config_lem_example :
    (vbd_open_config 1 blank
        (some (b't' ∷ b'y' ∷ b'\n' ∷ []))
        (λ name. some (length name))
        closed
        (world [] [])
      ≡ vbd_open 1 blank (some 2) closed (world [] []))
    × (vbd_open_config 1 blank
          (some (b't' ∷ b'y' ∷ b'0' ∷ []))
          (λ name. some (length name))
          closed
          (world [] [])
        ≡ vbd_open 1 blank (some 2) closed (world [] []))
    × (vbd_open_config 1 blank (some []) (λ name. some (length name)) closed (world [] []) ≡ fault)
    × (vbd_open_config 1 blank none (λ name. some (length name)) closed (world [] []) ≡ fault)
vbd_open_config_lem_example =
    vbd_open_config_lem 1 blank (b't' ∷ b'y' ∷ []) [] b'0' (λ name. some (length name)) closed
      (world [] []) (omega arith, (omega arith, tt)) (omega arith, (omega arith, tt)) (omega arith)
      (omega arith) (omega arith)
