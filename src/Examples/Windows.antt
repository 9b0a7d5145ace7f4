-- ===== src/Examples/Windows.antt =====
-- `openDevice` of vbuddy/vbuddy.cpp on Windows with concrete settings.
use risc_v_cpu.Base.{List, [], ◌∷◌, refl}
use risc_v_cpu.Serial.Windows.{configure, baud_rate}
use risc_v_cpu.Serial.Windows.Transfer.{Read, char, bytes, broken, delivered, after_reads}
use risc_v_cpu.Serial.Windows.Serving.{IsServing, dcb_of, after_reads-IsServing}
use risc_v_cpu.Base.{ℕ, ◌≡◌, ◌≢◌, ◌⊎◌, ◌↔◌, true, false, Option, none, some}
use risc_v_cpu.Base.Int.{pos, negsuc}
use risc_v_cpu.Serial.Device
use risc_v_cpu.Serial.Device.{databits_8, parity_none, stopbits_1}
use risc_v_cpu.Serial.Windows.{Answers, Port, open_device, is_device_open}
use risc_v_cpu.Serial.Windows.Codes.{
  HasRate, OnlyWindows, all_succeed, open_device_codes, open_device_agrees,
}

abbrev no_port : Port
no_port = record {
  handle = none;
  timeouts = record {
    read_interval = 0;
    read_constant = 0;
    read_multiplier = 0;
    write_constant = 0;
    write_multiplier = 0;
  };
  state = none;
  active = none;
}

abbrev opened : Answers → Port
opened a = (open_device a 115200 databits_8 parity_none stopbits_1 no_port).1

-- The time-outs are refused.
abbrev refused : Answers
refused = record (all_succeed 3) { set_timeouts = false }

open_device_codes_example :
    (((open_device refused 115200 databits_8 parity_none stopbits_1 no_port).0 ≡ negsuc 0)
      ↔ ((◌≡◌ {A = Option ℕ} (some 3) none) × (false ≡ true)))
    × (((open_device refused 115200 databits_8 parity_none stopbits_1 no_port).0 ≡ negsuc 1)
        ↔ ((◌≡◌ {A = Option ℕ} (some 3) none) × (false ≡ false)))
    × (((open_device refused 115200 databits_8 parity_none stopbits_1 no_port).0 ≡ negsuc 2)
        ↔ ((◌≢◌ {A = Option ℕ} (some 3) none) × (true ≡ false)))
    × (((open_device refused 115200 databits_8 parity_none stopbits_1 no_port).0 ≡ negsuc 3)
        ↔ ((◌≢◌ {A = Option ℕ} (some 3) none) × (true ≡ true) × (¬ HasRate 115200)))
    × (((open_device refused 115200 databits_8 parity_none stopbits_1 no_port).0 ≡ negsuc 4)
        ↔ ((◌≢◌ {A = Option ℕ} (some 3) none) × (true ≡ true) × HasRate 115200 × (true ≡ false)))
    × (((open_device refused 115200 databits_8 parity_none stopbits_1 no_port).0 ≡ negsuc 5) ↔ (
        (◌≢◌ {A = Option ℕ} (some 3) none)
        × (true ≡ true)
        × HasRate 115200
        × (true ≡ true)
        × (false ≡ false)))
    × (((open_device refused 115200 databits_8 parity_none stopbits_1 no_port).0 ≡ pos 1) ↔ (
        (◌≢◌ {A = Option ℕ} (some 3) none)
        × (true ≡ true)
        × HasRate 115200
        × (true ≡ true)
        × (false ≡ true)))
    × ((is_device_open (opened refused) ≡ true) ↔ (◌≢◌ {A = Option ℕ} (some 3) none))
open_device_codes_example =
    open_device_codes refused 115200 databits_8 parity_none stopbits_1 no_port

-- 14400 baud.
open_device_agrees_example :
    ((open_device (all_succeed 3) 14400 databits_8 parity_none stopbits_1 no_port).0
      ≡ (Device.open_device (some 3) 14400 databits_8 parity_none stopbits_1 Device.closed).0)
    ⊎ (((open_device (all_succeed 3) 14400 databits_8 parity_none stopbits_1 no_port).0 ≡ pos 1)
        × ((Device.open_device (some 3) 14400 databits_8 parity_none stopbits_1 Device.closed).0
            ≢ pos 1)
        × OnlyWindows 14400 databits_8 parity_none stopbits_1)
open_device_agrees_example =
    open_device_agrees 3 14400 databits_8 parity_none stopbits_1 no_port Device.closed

-- A read whose time-out is refused, and one that times out after 50 ms.
abbrev some_reads : List Read
some_reads = char false broken 10 ∷ bytes true (delivered []) 50 ∷ []

after_reads-IsServing_example :
    (h : ℕ) × (◌≡◌ {A = Option ℕ} (some 3) (some h))
    × IsServing h
        (dcb_of 115200 databits_8 parity_none stopbits_1)
        (after_reads some_reads (opened (all_succeed 3)))
unfolding open_device configure baud_rate
after_reads-IsServing_example =
    after_reads-IsServing (all_succeed 3) 115200 databits_8 parity_none stopbits_1 no_port
      some_reads refl
