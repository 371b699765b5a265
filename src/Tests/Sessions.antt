-- ===== src/Tests/Sessions.antt =====
-- The driver, its C interface and the node on a channel that repeats itself.
use cqut_lgv.Common.{
  ℕ, suc, ◌⊎◌, ◌≡◌, refl, Bool, true, false, Option, none, some, List, [], ◌∷◌, length, arith,
}
use cqut_lgv.Common.Int.{ℤ, pos}
use cqut_lgv.Floats.Fixed.{fixed}
use cqut_lgv.Reader.Total.{init_reader-IsValid}
use cqut_lgv.Driver.{Driver, System, new_driver}
use cqut_lgv.Driver.Device.{ChannelDevice, Arrival, silence, received}
use cqut_lgv.Driver.Info.{InitInfo}
use cqut_lgv.Driver.Receive.{rx_run, IsQuiet, rx_run-IsQuiet}
use cqut_lgv.Driver.Commands.{activate, deactive}
use cqut_lgv.Driver.Activation.{IsForgotten}
use cqut_lgv.Driver.Session.{connect, disconnect}
use cqut_lgv.Driver.Grab.{grab_full_scan}
use cqut_lgv.Driver.Commands.{set_rotation_speed}
use cqut_lgv.Driver.Answers.{FitsReads, IsServing}
use cqut_lgv.Driver.Reached.{HasSpeed}
use cqut_lgv.Driver.Answers.Results.{deactive_lem, set_rotation_speed_lem}
use cqut_lgv.CApi.{Handle, null}
use cqut_lgv.Tests.Samples.{sample_scan}

-- A channel that opens and writes without an error, and whose every wait ends after `got`. Its world
-- counts the writes.
abbrev pub echo : List Arrival → ChannelDevice ℕ
echo got = record {
  open_port = λ w. (true, w);
  is_open = λ w. true;
  close_port = λ w. w;
  write_data = λ bytes w. (pos (length bytes), suc w);
  arrivals = λ ms w. (got, w);
  awaited = λ ms w. (got, w);
  last_arrival = λ w. (none, w);
}

abbrev pub chatty : ChannelDevice ℕ
chatty = echo (received (7 ∷ []) ∷ [])

abbrev quiet : ChannelDevice ℕ
quiet = echo (silence ∷ [])

abbrev fresh_driver : Driver ℤ ℤ
unfolding new_driver
fresh_driver = new_driver 0 1

-- A connected driver, with the given sign of data.
abbrev running : ℕ → System ℕ ℤ ℤ
running valid = record {
  driver = record fresh_driver {
    is_connected = true;
    has_serial = true;
    has_rx_thread = true;
    valid_data = valid;
  };
  world = 0;
}

abbrev pub state_of : System ℕ ℤ ℤ → Option (Bool × System ℕ ℤ ℤ) → System ℕ ℤ ℤ
state_of s none = s
state_of s (some (b, t)) = t

fresh-IsQuiet : IsQuiet fresh_driver
unfolding fresh_driver
fresh-IsQuiet = record { valid = init_reader-IsValid; quiet = refl }

rx_run-IsQuiet_example :
    (d' : Driver ℤ ℤ) × (rx_run (received (0x54 ∷ 0x2C ∷ []) ∷ silence ∷ []) fresh_driver ≡ some d')
    × IsQuiet d'
rx_run-IsQuiet_example =
    rx_run-IsQuiet (received (0x54 ∷ 0x2C ∷ []) ∷ silence ∷ []) fresh_driver (omega arith, (tt, tt))
      fresh-IsQuiet

activate_runs :
    activate chatty (running 0) ≡ some (true, state_of (running 0) (activate chatty (running 0)))
unfolding activate fresh_driver
activate_runs = refl

deactive_runs :
    deactive quiet (running 1) ≡ some (true, state_of (running 1) (deactive quiet (running 1)))
unfolding deactive fresh_driver
deactive_runs = refl

-- The state after a disconnection that nothing disturbs.
abbrev closed : System ℕ ℤ ℤ
closed = record {
  driver = record fresh_driver {
    reader = record fresh_driver.reader { full_scan_ready = false; one_scan_ready = false };
    has_serial = true;
    rx_thread_exit_flag = true;
    valid_data = 1;
  };
  world = 0;
}

disconnect_runs : disconnect chatty (running 1) ≡ some closed
unfolding disconnect fresh_driver
disconnect_runs = refl

connect_runs : connect quiet closed ≡ some (true, state_of closed (connect quiet closed))
unfolding connect fresh_driver
connect_runs = refl

-- A driver with a scan to hand out.
abbrev loaded : Bool → Driver ℤ ℤ
loaded ready = record fresh_driver {
  reader = record fresh_driver.reader {
    full_scan_data = sample_scan (100 ∷ 200 ∷ []);
    full_scan_ready = ready;
  };
}

grab_full_scan_runs :
    grab_full_scan (loaded true) ≡ (some (sample_scan (100 ∷ 200 ∷ [])), loaded false)
unfolding grab_full_scan
grab_full_scan_runs = refl

abbrev no_info : InitInfo
unfolding new_driver
no_info = (new_driver {F = ℤ} {D = ℤ} 0 1).info

abbrev nothing : Handle ℕ ℤ ℤ
nothing = null

pub chatty-FitsReads : FitsReads chatty
chatty-FitsReads = record {
  fits_arrivals = λ ms w. (omega arith, tt);
  fits_awaited = λ ms w. (omega arith, tt);
  fits_last = λ w. tt;
}

running-IsServing : (valid : ℕ) → IsServing chatty chatty-FitsReads (running valid)
unfolding fresh_driver
running-IsServing valid = record {
  quiet = record { valid = fresh-IsQuiet.valid; quiet = refl };
  serial = refl;
}

deactive_lem_example :
    (b : Bool) × (s' : System ℕ ℤ ℤ) × (deactive chatty (running 1) ≡ some (b, s'))
    × ((b ≡ false) ⊎ IsForgotten chatty s')
deactive_lem_example = deactive_lem chatty chatty-FitsReads (running 1) (running-IsServing 1)

set_rotation_speed_lem_example :
    (b : Bool) × (s' : System ℕ ℤ ℤ) × (set_rotation_speed chatty (pos 10) (running 1)
      ≡ some (b, s'))
    × ((b ≡ false) ⊎ HasSpeed chatty (pos 10) s')
set_rotation_speed_lem_example =
    set_rotation_speed_lem chatty chatty-FitsReads (pos 10) (running 1) (running-IsServing 1)
      (λ e. omega arith)
