-- ===== src/Serial/Windows.antt =====
-- vbuddy/vbuddy.cpp, `class serialib` as it is compiled for Windows.
pub mod Codes
pub mod Transfer
pub mod Serving
use risc_v_cpu.Base.{
  ℕ, ◌^◌, ◌-◌, Bool, true, false, Option, none, some, List, [], ◌∷◌, length, get_or, ◌==◌,
  if◌then◌else◌,
}
use risc_v_cpu.Base.Int.{ℤ, pos, negsuc}
use risc_v_cpu.Serial.Device.{
  SerialDataBits, databits_5, databits_6, databits_7, databits_8, databits_16, SerialStopBits,
  stopbits_1, stopbits_1_5, stopbits_2, SerialParity, parity_none, parity_even, parity_odd,
  parity_mark, parity_space,
}

-- The stop bits and the parity of a `DCB`.
pub data StopBits : Type 0 where
  onestopbit one5stopbits twostopbits : StopBits

pub data Parity : Type 0 where
  noparity evenparity oddparity markparity spaceparity : Parity

-- The fields of `dcbSerialParams` that the code sets.
pub record Dcb : Type 0 where
  pub baud_rate : ℕ
  pub byte_size : ℕ
  pub stop_bits : StopBits
  pub parity : Parity

-- `timeouts`.
pub record CommTimeouts : Type 0 where
  pub read_interval : ℕ
  pub read_constant : ℕ
  pub read_multiplier : ℕ
  pub write_constant : ℕ
  pub write_multiplier : ℕ

-- The port: `hSerial`, with none for INVALID_HANDLE_VALUE, `timeouts`, and the settings and time-outs that the
-- device last took.
pub record Port : Type 0 where
  pub handle : Option ℕ
  pub timeouts : CommTimeouts
  pub state : Option Dcb
  pub active : Option CommTimeouts

-- The constants `CBR_9600` to `CBR_256000`, by the rate that each stands for.
unfoldable pub baud_rate : ℕ → Option ℕ
baud_rate bauds =
    if bauds == 9600
    then some 9600
    else if bauds == 14400
    then some 14400
    else if bauds == 19200
    then some 19200
    else if bauds == 38400
    then some 38400
    else if bauds == 56000
    then some 56000
    else if bauds == 57600
    then some 57600
    else if bauds == 115200
    then some 115200
    else if bauds == 128000
    then some 128000
    else if bauds == 256000
    then some 256000
    else none

-- The other three switches have a case for each value.
abbrev byte_size : SerialDataBits → ℕ
byte_size databits_5 = 5
byte_size databits_6 = 6
byte_size databits_7 = 7
byte_size databits_8 = 8
byte_size databits_16 = 16

abbrev stop_bits_of : SerialStopBits → StopBits
stop_bits_of stopbits_1 = onestopbit
stop_bits_of stopbits_1_5 = one5stopbits
stop_bits_of stopbits_2 = twostopbits

abbrev parity_of : SerialParity → Parity
parity_of parity_none = noparity
parity_of parity_even = evenparity
parity_of parity_odd = oddparity
parity_of parity_mark = markparity
parity_of parity_space = spaceparity

-- No time-out; MAXDWORD is 2^32 - 1.
abbrev no_timeouts : CommTimeouts
no_timeouts = record {
  read_interval = 0;
  read_constant = 2 ^ 32 - 1;
  read_multiplier = 0;
  write_constant = 2 ^ 32 - 1;
  write_multiplier = 0;
}

-- What the system answers: `CreateFileA`, none for INVALID_HANDLE_VALUE, `GetLastError() == ERROR_FILE_NOT_FOUND`,
-- and whether `GetCommState`, `SetCommState` and `SetCommTimeouts` succeed.
pub record Answers : Type 0 where
  pub created : Option ℕ
  pub not_found : Bool
  pub got_state : Bool
  pub set_state : Bool
  pub set_timeouts : Bool

-- `openDevice` behind `CreateFileA`. A call that fails returns with the handle open.
unfoldable pub configure :
    Answers → ℕ → SerialDataBits → SerialParity → SerialStopBits → Port → ℤ × Port
configure a bauds databits parity stopbits p =
    if a.got_state
    then elim (baud_rate bauds) [
      | none ↦ (negsuc 3, p)
      | some rate ↦
          (let dcb : Dcb = record {
            baud_rate = rate;
            byte_size = byte_size databits;
            stop_bits = stop_bits_of stopbits;
            parity = parity_of parity;
          } in
            if a.set_state
            then (if a.set_timeouts
                then (
                  pos 1,
                  record p { timeouts = no_timeouts; state = some dcb; active = some no_timeouts },
                )
                else (negsuc 5, record p { timeouts = no_timeouts; state = some dcb }))
            else (negsuc 4, p))
    ]
    else (negsuc 2, p)

unfoldable pub open_device :
    Answers → ℕ → SerialDataBits → SerialParity → SerialStopBits → Port → ℤ × Port
unfolding configure
open_device a bauds databits parity stopbits p = elim a.created [
  | none ↦ (if a.not_found then negsuc 0 else negsuc 1, record p { handle = none })
  | some h ↦ configure a bauds databits parity stopbits (record p { handle = some h })
]

pub is_device_open : Port → Bool
is_device_open p = elim p.handle [ none ↦ false | some h ↦ true ]

-- `CloseHandle` itself is not looked at.
unfoldable pub close_device : Port → Port
close_device p = record p { handle = none }
