-- ===== src/CApi/Calls.antt =====
-- Programs that use the C interface, oradar_ros/sdk/src/ord_lidar_c_api_driver.cpp: its calls in any order.
pub mod Fetched
pub mod Programs
use cqut_lgv.Common.{
  ℕ, ◌≡◌, ◌∙◌, ◌⊎◌, refl, ap, sym, inl, inr, Bool, true, false, Option, none, some, List, [], ◌∷◌,
  ◌>>=◌, ◌==◌, if◌then◌else◌, if_either, map, length,
}
use cqut_lgv.Common.Int.{ℤ, pos}
use cqut_lgv.Floats.{Floats}
use cqut_lgv.Protocol.{ScanData}
use cqut_lgv.Reader.Total.{init_reader-IsValid}
use cqut_lgv.Driver.{Driver, System, new_driver, set_serial_port}
use cqut_lgv.Driver.Device.{Arrival, ChannelDevice}
use cqut_lgv.Driver.Receive.{IsQuiet, is_receiving, rx_run, rx_run-IsQuiet}
use cqut_lgv.Driver.Session.{connect, disconnect, destroy}
use cqut_lgv.Driver.Commands.{activate, deactive, set_rotation_speed}
use cqut_lgv.Driver.Grab.{
  grab_full_scan, grab_one_scan, grab_full_scan_blocking, grab_one_scan_blocking, wait_rounds,
  take_full, take_one, get_timestamp, get_rotation_speed,
}
use cqut_lgv.Driver.Answers.{FitsReads, IsServing, Ends, Answers, rx_run-KeepsSerial}
use cqut_lgv.Driver.Answers.Commanded.{
  activate-Answers, deactive-Answers, set_rotation_speed-Answers,
}
use cqut_lgv.Driver.Answers.Connected.{connect_ends, disconnect-IsQuiet}
use cqut_lgv.CApi.{
  Handle, null, handle, to_u32, with_driver, on_members, oradar_lidar_create, oradar_lidar_destroy,
  oradar_set_serial_port, oradar_connect, oradar_disconnect, oradar_set_rotation_speed,
  oradar_activate, oradar_deactive, oradar_get_grabonescan, oradar_get_grabfullscan,
  oradar_get_grabonescan_blocking, oradar_get_grabfullscan_blocking, oradar_get_timestamp,
  oradar_get_rotation_speed,
}

-- The calls, without those that ask for device information.
pub data Call : Type 0 where
  connects : Call
  disconnects : Call
  sets_port : Option (List ℕ) → ℤ → Call
  sets_speed : ℕ → Call
  activates : Call
  deactives : Call
  grabs_one : Call
  grabs_full : Call
  grabs_one_blocking : ℕ → Call
  grabs_full_blocking : ℕ → Call
  gets_timestamp : Call
  gets_speed : Call

abbrev pub is_given {ℓ} : {A : Type ℓ} → Option A → Bool
is_given none = false
is_given (some a) = true

-- The answer of a call that gives a value.
abbrev pub told {ℓ κ} : {A : Type ℓ} {H : Type κ} → Option (Option A × H) → Option (Bool × H)
told m = m >>= λ (a, h). some (is_given a, h)

module _ {W F D : Type 0} ⦃fl : Floats F D⦄ (dev : ChannelDevice W) where
  -- A call, with what it answers.
  unfoldable pub call : Call → Handle W F D → Option (Bool × Handle W F D)
  unfolding oradar_connect oradar_disconnect oradar_set_serial_port oradar_set_rotation_speed
      oradar_activate oradar_deactive oradar_get_grabonescan oradar_get_grabfullscan
      oradar_get_grabonescan_blocking oradar_get_grabfullscan_blocking oradar_get_timestamp
      oradar_get_rotation_speed
  call connects h = oradar_connect dev h
  call disconnects h = oradar_disconnect dev h
  call (sets_port port baudrate) h = oradar_set_serial_port port baudrate h
  call (sets_speed speed) h = oradar_set_rotation_speed dev speed h
  call activates h = oradar_activate dev h
  call deactives h = oradar_deactive dev h
  call grabs_one h = told (oradar_get_grabonescan h)
  call grabs_full h = told (oradar_get_grabfullscan h)
  call (grabs_one_blocking ms) h = told (oradar_get_grabonescan_blocking dev ms h)
  call (grabs_full_blocking ms) h = told (oradar_get_grabfullscan_blocking dev ms h)
  call gets_timestamp h = told (oradar_get_timestamp h)
  call gets_speed h = told (oradar_get_rotation_speed h)

  -- Calls one after the other, with their answers.
  unfoldable pub run_calls : List Call → Handle W F D → Option (List Bool × Handle W F D)
  unfolding call
  run_calls [] h = some ([], h)
  run_calls (c ∷ calls) h =
      call c h >>= λ (b, h1). run_calls calls h1 >>= λ (answers, h2). some (b ∷ answers, h2)

  -- A program that makes a handle, sets its port, connects, makes calls, destroys the handle, and makes
  -- more calls: the answers, the channel that is left, and the answers of the calls behind the end.
  unfoldable pub run_program :
      List ℕ
      → ℤ
      → List Call
      → List Call
      → W
      → Option (List Bool × Option W × List Bool × Handle W F D)
  unfolding run_calls oradar_lidar_create oradar_set_serial_port oradar_connect oradar_lidar_destroy
  run_program port baudrate before after w =
      oradar_set_serial_port (some port) baudrate (oradar_lidar_create 0 1 w) >>= λ (set, h).
      oradar_connect dev h >>= λ (done, h1). run_calls before h1 >>= λ (answers, h2).
      oradar_lidar_destroy dev h2 >>= λ (gone, left).
      run_calls after gone >>= λ (late, h3). some (answers, left, late, h3)

  call-null : (c : Call) → call c null ≡ some (false, null)
  unfolding call with_driver
  call-null connects = refl
  call-null disconnects = refl
  call-null (sets_port none baudrate) = refl
  call-null (sets_port (some port) baudrate) = refl
  call-null (sets_speed speed) = refl
  call-null activates = refl
  call-null deactives = refl
  call-null grabs_one = refl
  call-null grabs_full = refl
  call-null (grabs_one_blocking ms) = refl
  call-null (grabs_full_blocking ms) = refl
  call-null gets_timestamp = refl
  call-null gets_speed = refl

  pub run_calls-null :
      (calls : List Call) → run_calls calls null ≡ some (map (λ c. false) calls, null)
  unfolding run_calls
  run_calls-null [] = refl
  run_calls-null (c ∷ calls) = rw (call-null c, run_calls-null calls) refl
