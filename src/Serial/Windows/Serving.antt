-- ===== src/Serial/Windows/Serving.antt =====
-- What the reads of vbuddy/vbuddy.cpp on Windows leave of the settings and time-outs that `openDevice` made.
use risc_v_cpu.Base.{
  inl, inr, Option-cases, ℕ, ◌-◌, ◌^◌, ◌≡◌, refl, sym, Bool, true, false, some, List, [], ◌∷◌,
  arith,
}
use risc_v_cpu.Base.Int.{pos}
use risc_v_cpu.Serial.Device.{SerialDataBits, SerialParity, SerialStopBits}
use mathlib.Core.Path.{subst}
use risc_v_cpu.Serial.Windows.{Dcb, Answers, CommTimeouts, Port, configure, open_device}
use risc_v_cpu.Serial.Windows.Transfer.{
  broken, delivered, Read, char, bytes, set_read_timeout, after_read, after_reads,
}
use risc_v_cpu.Serial.Windows.{no_timeouts, byte_size, stop_bits_of, parity_of, baud_rate}
use risc_v_cpu.Serial.Windows.Codes.{open_device_codes, baud_rate-HasRate}

-- Writes have no time-out, and reads none but the constant one.
pub record OnlyConstant (t : CommTimeouts) : Type 0 where
  pub interval : t.read_interval ≡ 0
  pub multiplier : t.read_multiplier ≡ 0
  pub write_multiplier : t.write_multiplier ≡ 0
  pub write_constant : t.write_constant ≡ 2 ^ 32 - 1

-- The port keeps the handle `h` and the settings `dcb`, and so are the time-outs, those of the object and those in force.
pub record IsServing (h : ℕ) (dcb : Dcb) (p : Port) : Type 0 where
  pub open_handle : p.handle ≡ some h
  pub settings : p.state ≡ some dcb
  pub own : OnlyConstant p.timeouts
  pub in_force : (t : CommTimeouts) × (p.active ≡ some t) × OnlyConstant t

set_read_timeout-IsServing :
    (h : ℕ) (dcb : Dcb) (taken : Bool) (timeout_ms : ℕ) (p : Port)
    → IsServing h dcb p
    → IsServing h dcb (set_read_timeout taken timeout_ms p)
unfolding set_read_timeout
set_read_timeout-IsServing h dcb true timeout_ms p s = record {
  open_handle = s.open_handle;
  settings = s.settings;
  own = own;
  in_force = (record p.timeouts { read_constant = timeout_ms }, refl, own);
}
  where
    own : OnlyConstant (record p.timeouts { read_constant = timeout_ms })
    own = record {
      interval = s.own.interval;
      multiplier = s.own.multiplier;
      write_multiplier = s.own.write_multiplier;
      write_constant = s.own.write_constant;
    }
set_read_timeout-IsServing h dcb false timeout_ms p s = record {
  open_handle = s.open_handle;
  settings = s.settings;
  own = record {
    interval = s.own.interval;
    multiplier = s.own.multiplier;
    write_multiplier = s.own.write_multiplier;
    write_constant = s.own.write_constant;
  };
  in_force = s.in_force;
}

after_read-port :
    (r : Read) (p : Port)
    → (taken : Bool) × (timeout_ms : ℕ) × (after_read r p ≡ set_read_timeout taken timeout_ms p)
unfolding after_read
after_read-port (char true broken t) p = (true, t, refl)
after_read-port (char true (delivered l) t) p = (true, t, refl)
after_read-port (char false answer t) p = (false, t, refl)
after_read-port (bytes true broken t) p = (true, t, refl)
after_read-port (bytes true (delivered l) t) p = (true, t, refl)
after_read-port (bytes false answer t) p = (false, t, refl)

reads-IsServing :
    (h : ℕ) (dcb : Dcb) (l : List Read) (p : Port)
    → IsServing h dcb p
    → IsServing h dcb (after_reads l p)
unfolding after_reads
reads-IsServing h dcb [] p s = s
reads-IsServing h dcb (r ∷ l) p s =
    let (taken, timeout_ms, e) = after_read-port r p in
    reads-IsServing h dcb l (after_read r p)
      (subst (IsServing h dcb) (sym e) (set_read_timeout-IsServing h dcb taken timeout_ms p s))

opened : ℕ → Dcb → Port
opened h dcb = record {
  handle = some h;
  timeouts = no_timeouts;
  state = some dcb;
  active = some no_timeouts;
}

opened-IsServing : (h : ℕ) (dcb : Dcb) → IsServing h dcb (opened h dcb)
unfolding opened
opened-IsServing h dcb =
    let fixed : OnlyConstant no_timeouts = record {
      interval = refl;
      multiplier = refl;
      write_multiplier = refl;
      write_constant = refl;
    } in
    record {
      open_handle = refl;
      settings = refl;
      own = fixed;
      in_force = (no_timeouts, refl, fixed);
    }

-- The settings that `openDevice` asks for.
abbrev pub dcb_of : ℕ → SerialDataBits → SerialParity → SerialStopBits → Dcb
dcb_of rate d q s = record {
  baud_rate = rate;
  byte_size = byte_size d;
  stop_bits = stop_bits_of s;
  parity = parity_of q;
}

module _ (a : Answers) (bauds : ℕ) (d : SerialDataBits) (q : SerialParity) (s : SerialStopBits)
    (p : Port) where
  open_device-opened :
      (h rate : ℕ)
      → a.created ≡ some h
      → baud_rate bauds ≡ some rate
      → a.got_state ≡ true
      → a.set_state ≡ true
      → a.set_timeouts ≡ true
      → (open_device a bauds d q s p).1 ≡ opened h (dcb_of rate d q s)
  unfolding open_device configure opened
  open_device-opened h rate e r got set times =
      rw (e, open_device, got, r, configure, set, times) refl

  rate-bauds : (rate : ℕ) → baud_rate bauds ≡ some rate → rate ≡ bauds
  unfolding baud_rate
  rate-bauds rate e = ground (arith, e)

  -- Behind an `openDevice` that returned 1, any reads, whatever the system answers, leave the device open with the rate
  -- and the other settings that were asked for, and with time-outs in which only the constant one of the reads
  -- has changed: writes have none, and reads none that depends on the number of bytes or the pause between them.
  pub after_reads-IsServing :
      (l : List Read)
      → (open_device a bauds d q s p).0 ≡ pos 1
      → (h : ℕ) × (a.created ≡ some h)
        × IsServing h (dcb_of bauds d q s) (after_reads l (open_device a bauds d q s p).1)
  after_reads-IsServing l one =
      let codes = open_device_codes a bauds d q s p in
      let (created, got, rated, set, times) = codes.6.0 one in
      elim (Option-cases a.created) [
        | inl none_there ↦ absurd (created none_there)
        | inr (h, e) ↦ elim (Option-cases (baud_rate bauds)) [
          | inl no_rate ↦ absurd ((baud_rate-HasRate bauds).1 rated no_rate)
          | inr (rate, r) ↦ (
            h,
            e,
            rw (open_device-opened h rate e r got set times, rate-bauds rate r)
                (reads-IsServing h (dcb_of bauds d q s) l (opened h (dcb_of bauds d q s))
                  (opened-IsServing h (dcb_of bauds d q s))),
          )
        ]
      ]
