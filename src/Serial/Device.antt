-- ===== src/Serial/Device.antt =====
-- vbuddy/vbuddy.cpp, `openDevice`, `isDeviceOpen` and `closeDevice` as compiled for Linux and macOS.
pub mod Settings
use risc_v_cpu.Base.{
  ℕ, Bool, true, false, Option, none, some, List, [], ◌∷◌, ◌++◌, ◌==◌, if◌then◌else◌,
}
use risc_v_cpu.Base.Int.{ℤ, pos, negsuc}

pub data SerialDataBits : Type 0 where
  databits_5 databits_6 databits_7 databits_8 databits_16 : SerialDataBits

pub data SerialStopBits : Type 0 where
  stopbits_1 stopbits_1_5 stopbits_2 : SerialStopBits

pub data SerialParity : Type 0 where
  parity_none parity_even parity_odd parity_mark parity_space : SerialParity

-- The flags of `c_cflag` and `c_iflag` that the code sets; a list is the `|` of its members.
pub data Flag : Type 0 where
  cs5 cs6 cs7 cs8 cstopb parenb parodd clocal cread ignpar ignbrk : Flag

-- `struct termios` from the `bzero` on: the rates, the flags, and `c_cc[VTIME]` and `c_cc[VMIN]`.
pub record Termios : Type 0 where
  pub ispeed : ℕ
  pub ospeed : ℕ
  pub cflag : List Flag
  pub iflag : List Flag
  pub vtime : ℕ
  pub vmin : ℕ

-- The port: `fd`, with none for -1, and the settings that `tcsetattr` last made active.
pub record Port : Type 0 where
  pub fd : Option ℕ
  pub active : Option Termios

pub closed : Port
closed = record { fd = none; active = none }

-- The constants `B9600` to `B115200`, by the rate that each stands for.
speed : ℕ → Option ℕ
speed bauds =
    if bauds == 9600
    then some 9600
    else if bauds == 19200
    then some 19200
    else if bauds == 38400
    then some 38400
    else if bauds == 57600
    then some 57600
    else if bauds == 115200
    then some 115200
    else none

databits_flag : SerialDataBits → Option (List Flag)
databits_flag databits_5 = some (cs5 ∷ [])
databits_flag databits_6 = some (cs6 ∷ [])
databits_flag databits_7 = some (cs7 ∷ [])
databits_flag databits_8 = some (cs8 ∷ [])
databits_flag databits_16 = none

stopbits_flag : SerialStopBits → Option (List Flag)
stopbits_flag stopbits_1 = some []
stopbits_flag stopbits_2 = some (cstopb ∷ [])
stopbits_flag stopbits_1_5 = none

parity_flag : SerialParity → Option (List Flag)
parity_flag parity_none = some []
parity_flag parity_even = some (parenb ∷ [])
parity_flag parity_odd = some (parenb ∷ parodd ∷ [])
parity_flag parity_mark = none
parity_flag parity_space = none

-- `Option` with the error that a missing value returns.
abbrev or_fail : {A B : Type 0} → Option A → B → (A → B) → B
or_fail none e k = e
or_fail (some a) e k = k a

-- `opened` is what `open` returns, none for -1. A refused setting returns with the port open.
unfoldable pub open_device :
    Option ℕ → ℕ → SerialDataBits → SerialParity → SerialStopBits → Port → ℤ × Port
unfolding speed databits_flag stopbits_flag parity_flag
open_device none bauds databits parity stopbits p = (negsuc 1, record p { fd = none })
open_device (some d) bauds databits parity stopbits p =
    let q = record p { fd = some d } in
    or_fail (speed bauds) (negsuc 3, q)
      λ rate.
        or_fail (databits_flag databits) (negsuc 6, q)
          λ size.
            or_fail (stopbits_flag stopbits) (negsuc 7, q)
              λ stops.
                or_fail (parity_flag parity) (negsuc 8, q)
                  λ par. (
                    pos 1,
                    record q {
                      active = some (record {
                        ispeed = rate;
                        ospeed = rate;
                        cflag = clocal ∷ cread ∷ size ++ par ++ stops;
                        iflag = ignpar ∷ ignbrk ∷ [];
                        vtime = 0;
                        vmin = 0;
                      });
                    },
                  )

pub is_device_open : Port → Bool
is_device_open p = elim p.fd [ none ↦ false | some d ↦ true ]

-- `close(fd)` itself is not looked at.
unfoldable pub close_device : Port → Port
close_device p = record p { fd = none }
