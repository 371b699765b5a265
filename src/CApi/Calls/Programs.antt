-- ===== src/CApi/Calls/Programs.antt =====
-- Programs that use the C interface come to an end (oradar_ros/sdk/src/ord_lidar_c_api_driver.cpp).
use cqut_lgv.Common.{
  ℕ, suc, ◌≡◌, refl, ap, inr, Bool, true, false, none, some, List, [], ◌∷◌, ◌>>=◌, map, length,
}
use cqut_lgv.Common.Int.{ℤ, pos}
use cqut_lgv.Floats.{Floats}
use cqut_lgv.Reader.Total.{init_reader-IsValid}
use cqut_lgv.Driver.{System, new_driver, set_serial_port}
use cqut_lgv.Driver.Device.{ChannelDevice}
use cqut_lgv.Driver.Session.{connect, disconnect, destroy}
use cqut_lgv.Driver.Commands.{activate, deactive, set_rotation_speed}
use cqut_lgv.Driver.Grab.{
  grab_full_scan, grab_one_scan, grab_full_scan_blocking, grab_one_scan_blocking, get_timestamp,
  get_rotation_speed,
}
use cqut_lgv.Driver.Answers.{FitsReads, IsServing}
use cqut_lgv.Driver.Answers.Commanded.{
  activate-Answers, deactive-Answers, set_rotation_speed-Answers,
}
use cqut_lgv.Driver.Answers.Connected.{connect_ends, disconnect-IsQuiet}
use cqut_lgv.CApi.{
  null, handle, to_u32, with_driver, on_members, oradar_lidar_create, oradar_lidar_destroy,
  oradar_set_serial_port, oradar_connect, oradar_disconnect, oradar_set_rotation_speed,
  oradar_activate, oradar_deactive, oradar_get_grabonescan, oradar_get_grabfullscan,
  oradar_get_grabonescan_blocking, oradar_get_grabfullscan_blocking, oradar_get_timestamp,
  oradar_get_rotation_speed,
}
use cqut_lgv.CApi.Calls.{
  Call, connects, disconnects, sets_port, sets_speed, activates, deactives, grabs_one, grabs_full,
  grabs_one_blocking, grabs_full_blocking, gets_timestamp, gets_speed, told, call, run_calls,
  run_program, run_calls-null,
}
use cqut_lgv.CApi.Calls.Fetched.{
  Works, with_driver-Works, told-Works, on_members-Fetches, answered, grab_full_scan-Keeps,
  grab_one_scan-Keeps, grab_full_scan_blocking-Fetches, grab_one_scan_blocking-Fetches,
  connect-Fetches, disconnect-Fetches, set_serial_port-Keeps,
}

module _ {W F D : Type 0} ⦃fl : Floats F D⦄ (dev : ChannelDevice W) (reads : FitsReads dev) where
  -- Each call on a driver that works comes to an end.
  call-Works :
      (c : Call) (s : System W F D)
      → IsServing dev reads s
      → Works dev reads (call dev c (handle (some s)))
  unfolding call oradar_connect oradar_disconnect oradar_set_serial_port oradar_set_rotation_speed
      oradar_activate oradar_deactive oradar_get_grabonescan oradar_get_grabfullscan
      oradar_get_grabonescan_blocking oradar_get_grabfullscan_blocking oradar_get_timestamp
      oradar_get_rotation_speed
  call-Works connects s v =
      with_driver-Works dev reads (connect dev) s (connect-Fetches dev reads s v)
  call-Works disconnects s v =
      with_driver-Works dev reads (λ t. disconnect dev t >>= λ s'. some (true, s')) s
        (disconnect-Fetches dev reads s v)
  call-Works (sets_port none baudrate) s v = (false, s, refl, v)
  call-Works (sets_port (some port) baudrate) s v =
      with_driver-Works dev reads
        (on_members (λ d. (true, set_serial_port port (to_u32 baudrate) d))) s
        (on_members-Fetches dev reads (λ d. (true, set_serial_port port (to_u32 baudrate) d)) s
          (set_serial_port-Keeps dev reads port (to_u32 baudrate) s.driver v.quiet v.serial))
  call-Works (sets_speed speed) s v =
      with_driver-Works dev reads (set_rotation_speed dev (pos speed)) s
        (answered dev reads _ (set_rotation_speed-Answers dev reads (pos speed) s v))
  call-Works activates s v =
      with_driver-Works dev reads (activate dev) s
        (answered dev reads _ (activate-Answers dev reads s v))
  call-Works deactives s v =
      with_driver-Works dev reads (deactive dev) s
        (answered dev reads _ (deactive-Answers dev reads s v))
  call-Works grabs_one s v = told-Works dev reads (on_members grab_one_scan) s (
      on_members-Fetches dev reads grab_one_scan s
        (grab_one_scan-Keeps dev reads s.driver v.quiet v.serial))
  call-Works grabs_full s v = told-Works dev reads (on_members grab_full_scan) s (
      on_members-Fetches dev reads grab_full_scan s
        (grab_full_scan-Keeps dev reads s.driver v.quiet v.serial))
  call-Works (grabs_one_blocking ms) s v =
      told-Works dev reads (grab_one_scan_blocking dev ms) s
        (grab_one_scan_blocking-Fetches dev reads ms s v)
  call-Works (grabs_full_blocking ms) s v =
      told-Works dev reads (grab_full_scan_blocking dev ms) s
        (grab_full_scan_blocking-Fetches dev reads ms s v)
  call-Works gets_timestamp s v =
      told-Works dev reads (on_members (λ d. (some (get_timestamp d), d))) s
        (on_members-Fetches dev reads (λ d. (some (get_timestamp d), d)) s (v.quiet, v.serial))
  call-Works gets_speed s v =
      told-Works dev reads (on_members (λ d. (some (get_rotation_speed d), d))) s
        (on_members-Fetches dev reads (λ d. (some (get_rotation_speed d), d)) s (v.quiet, v.serial))

  run_calls-Works :
      (calls : List Call) (s : System W F D)
      → IsServing dev reads s
      → (answers : List Bool) × (t : System W F D) × (run_calls dev calls (handle (some s))
          ≡ some (answers, handle (some t)))
        × (length answers ≡ length calls)
        × IsServing dev reads t
  unfolding run_calls
  run_calls-Works [] s v = ([], s, refl, refl, v)
  run_calls-Works (c ∷ calls) s v =
      let (b, t, e, v1) = call-Works c s v in
      let (answers, u, e', same, v2) = run_calls-Works calls t v1 in
      (b ∷ answers, u, rw (e, e') refl, ap suc same, v2)

  -- The handle whose port has been set.
  with_port : List ℕ → ℤ → W → System W F D
  unfolding new_driver set_serial_port
  with_port port baudrate w = record {
    driver = set_serial_port port (to_u32 baudrate) (new_driver 0 1);
    world = w;
  }

  connected-Works :
      (port : List ℕ) (baudrate : ℤ) (w : W)
      → (b : Bool) × (t : System W F D) × (connect dev (with_port port baudrate w) ≡ some (b, t))
        × IsServing dev reads t
  unfolding with_port new_driver set_serial_port
  connected-Works port baudrate w =
      let (b, t, e, told, v) =
        connect_ends dev reads (with_port port baudrate w)
          (record { valid = init_reader-IsValid; quiet = refl }) (inr (refl, refl)) in
      (b, t, e, v)

  destroyed :
      (s : System W F D)
      → IsServing dev reads s
      → (w : W) × (oradar_lidar_destroy dev (handle (some s)) ≡ some (null, some w))
  unfolding oradar_lidar_destroy destroy
  destroyed s v =
      let (t, e, q, kept) = disconnect-IsQuiet dev reads s v.quiet in (t.world, rw e refl)

  -- If every read fits the buffer of the receive thread: a program that makes a handle for a serial MS200,
  -- sets its port, connects, whether or not this succeeds, then makes any of the calls in any order, but
  -- none for device information, and destroys the handle, comes to an end without a fault: every call
  -- answers, whatever the channel does. The handle is null then, and every call behind answers false
  -- and leaves it so.
  pub run_program_ends :
      (port : List ℕ) (baudrate : ℤ) (before after : List Call) (w : W)
      → (answers : List Bool) × (left : W) × (run_program {F = F} {D = D} dev port baudrate before
            after w
          ≡ some (answers, some left, map (λ c. false) after, null))
        × (length answers ≡ length before)
  unfolding run_program oradar_lidar_create oradar_set_serial_port oradar_connect with_driver
      with_port
  run_program_ends port baudrate before after w =
      let (b, s, e, v) = connected-Works port baudrate w in
      let (answers, t, e1, same, v1) = run_calls-Works before s v in
      let (left, e2) = destroyed t v1 in
      (answers, left, rw (e, e1, e2, run_calls-null dev after) refl, same)
