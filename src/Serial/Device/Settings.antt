-- ===== src/Serial/Device/Settings.antt =====
-- Which settings `openDevice` accepts, and what it leaves behind.
use risc_v_cpu.Base.{ℕ, ◌≡◌, ◌≢◌, ◌⊎◌, ◌↔◌, true, Option, none, arith}
use risc_v_cpu.Base.Int.{pos}
use risc_v_cpu.Serial.Device.{
  SerialDataBits, databits_16, SerialStopBits, stopbits_1_5, SerialParity, parity_mark,
  parity_space, Port, open_device, is_device_open,
}

abbrev pub IsSupportedRate : ℕ → Type 0
IsSupportedRate bauds =
    (bauds ≡ 9600) ⊎ (bauds ≡ 19200) ⊎ (bauds ≡ 38400) ⊎ (bauds ≡ 57600) ⊎ (bauds ≡ 115200)

-- `openDevice` returns 1 exactly when the device opens, the rate is one of the five for Linux, and the size,
-- the stop bits and the parity are not the ones that it refuses.
open_device_succeeds :
    (opened : Option ℕ) (bauds : ℕ) (d : SerialDataBits) (q : SerialParity) (s : SerialStopBits)
    (p : Port)
    → ((open_device opened bauds d q s p).0 ≡ pos 1) ↔ (
        (opened ≢ none)
        × IsSupportedRate bauds
        × (d ≢ databits_16)
        × (s ≢ stopbits_1_5)
        × (q ≢ parity_mark)
        × (q ≢ parity_space))
unfolding open_device
open_device_succeeds opened bauds d q s p = (ground arith, ground arith)

-- Whatever the settings, a device that `open` opened counts as open afterwards, a refused one
-- included, and one that it did not counts as closed; either the result is 1, or the active settings
-- are those from before.
open_device_leaves :
    (opened : Option ℕ) (bauds : ℕ) (d : SerialDataBits) (q : SerialParity) (s : SerialStopBits)
    (p : Port)
    → ((is_device_open (open_device opened bauds d q s p).1 ≡ true) ↔ (opened ≢ none))
      × (((open_device opened bauds d q s p).0 ≡ pos 1)
          ⊎ ((open_device opened bauds d q s p).1.active ≡ p.active))
unfolding open_device is_device_open
open_device_leaves opened bauds d q s p = (ground arith, ground arith)
