-- ===== src/Serial/Windows/Codes.antt =====
-- The codes that `openDevice` of vbuddy/vbuddy.cpp returns on Windows, and those of the build for Linux and macOS.
use risc_v_cpu.Base.{ℕ, ◌≡◌, ◌≢◌, ◌⊎◌, ◌↔◌, true, false, none, some, arith}
use risc_v_cpu.Base.Int.{pos, negsuc}
use risc_v_cpu.Serial.Device.{
  SerialDataBits, databits_16, SerialStopBits, stopbits_1_5, SerialParity, parity_mark,
  parity_space,
}
use risc_v_cpu.Serial.Device
use risc_v_cpu.Serial.Device.Settings.{IsSupportedRate}
use risc_v_cpu.Serial.Windows.{Answers, Port, baud_rate, configure, open_device, is_device_open}

-- The rates that this build has a constant for.
abbrev pub HasRate : ℕ → Type 0
HasRate bauds =
    IsSupportedRate bauds ⊎ (bauds ≡ 14400) ⊎ (bauds ≡ 56000) ⊎ (bauds ≡ 128000) ⊎ (bauds ≡ 256000)

pub baud_rate-HasRate : (bauds : ℕ) → (baud_rate bauds ≢ none) ↔ HasRate bauds
unfolding baud_rate
baud_rate-HasRate bauds = (ground arith, ground arith)

-- `openDevice` returns -1 exactly when the device is not found, -2 when it cannot be opened otherwise, -3 when its
-- settings cannot be read, -4 for a rate without a constant, -5 when the settings are refused, -6 when the
-- time-outs are, each with the calls before it in order, and 1 when all succeed. Once the device has been
-- created it counts as open, whatever the code.
pub open_device_codes :
    (a : Answers) (bauds : ℕ) (d : SerialDataBits) (q : SerialParity) (s : SerialStopBits)
    (p : Port)
    → (((open_device a bauds d q s p).0 ≡ negsuc 0) ↔ ((a.created ≡ none) × (a.not_found ≡ true)))
      × (((open_device a bauds d q s p).0 ≡ negsuc 1)
          ↔ ((a.created ≡ none) × (a.not_found ≡ false)))
      × (((open_device a bauds d q s p).0 ≡ negsuc 2)
          ↔ ((a.created ≢ none) × (a.got_state ≡ false)))
      × (((open_device a bauds d q s p).0 ≡ negsuc 3)
          ↔ ((a.created ≢ none) × (a.got_state ≡ true) × (¬ HasRate bauds)))
      × (((open_device a bauds d q s p).0 ≡ negsuc 4)
          ↔ ((a.created ≢ none) × (a.got_state ≡ true) × HasRate bauds × (a.set_state ≡ false)))
      × (((open_device a bauds d q s p).0 ≡ negsuc 5) ↔ (
          (a.created ≢ none)
          × (a.got_state ≡ true)
          × HasRate bauds
          × (a.set_state ≡ true)
          × (a.set_timeouts ≡ false)))
      × (((open_device a bauds d q s p).0 ≡ pos 1) ↔ (
          (a.created ≢ none)
          × (a.got_state ≡ true)
          × HasRate bauds
          × (a.set_state ≡ true)
          × (a.set_timeouts ≡ true)))
      × ((is_device_open (open_device a bauds d q s p).1 ≡ true) ↔ (a.created ≢ none))
unfolding open_device configure is_device_open
open_device_codes a bauds d q s p =
    let rate = baud_rate-HasRate bauds in
    (
      (ground (arith, rate), ground (arith, rate)),
      (ground (arith, rate), ground (arith, rate)),
      (ground (arith, rate), ground (arith, rate)),
      (ground (arith, rate), ground (arith, rate)),
      (ground (arith, rate), ground (arith, rate)),
      (ground (arith, rate), ground (arith, rate)),
      (ground (arith, rate), ground (arith, rate)),
      (ground (arith, rate), ground (arith, rate)),
    )

-- The settings that only this build takes.
abbrev pub OnlyWindows : ℕ → SerialDataBits → SerialParity → SerialStopBits → Type 0
OnlyWindows bauds d q s =
    ((bauds ≡ 14400) ⊎ (bauds ≡ 56000) ⊎ (bauds ≡ 128000) ⊎ (bauds ≡ 256000))
    ⊎ (d ≡ databits_16)
    ⊎ (s ≡ stopbits_1_5)
    ⊎ (q ≡ parity_mark)
    ⊎ (q ≡ parity_space)

-- Where every call of the system succeeds.
abbrev pub all_succeed : ℕ → Answers
all_succeed h = record {
  created = some h;
  not_found = false;
  got_state = true;
  set_state = true;
  set_timeouts = true;
}

-- On a device that opens, where every call of the system succeeds, the two builds return the same code for a
-- setting, or the one for Windows returns 1, the other refuses it, and it is one of the eight
-- that only Windows takes.
pub open_device_agrees :
    (h bauds : ℕ) (d : SerialDataBits) (q : SerialParity) (s : SerialStopBits) (p : Port)
    (p' : Device.Port)
    → ((open_device (all_succeed h) bauds d q s p).0
        ≡ (Device.open_device (some h) bauds d q s p').0)
      ⊎ (((open_device (all_succeed h) bauds d q s p).0 ≡ pos 1)
          × ((Device.open_device (some h) bauds d q s p').0 ≢ pos 1)
          × OnlyWindows bauds d q s)
unfolding open_device configure baud_rate Device.open_device
open_device_agrees h bauds d q s p p' = ground arith
