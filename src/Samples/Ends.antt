-- ===== src/Samples/Ends.antt =====
-- The programs of oradar_ros/sdk/samples in C++ come to an end, and number the scans.
use cqut_lgv.Common.{
  ℕ, zero, suc, ◌<◌, ◌≡◌, refl, inl, inr, Bool, true, false, Option, none, some, List, [], ◌∷◌,
  ◌++◌, ◌>>=◌,
}
use cqut_lgv.Floats.{Floats}
use cqut_lgv.Protocol.{ScanData}
use cqut_lgv.Reader.Total.{init_reader-IsValid}
use cqut_lgv.Driver.{System, new_driver, set_serial_port}
use cqut_lgv.Driver.Device.{ChannelDevice}
use cqut_lgv.Driver.Receive.{IsQuiet, delay}
use cqut_lgv.Driver.Session.{disconnect, disconnect_lem, destroy}
use cqut_lgv.Driver.Grab.{grab_full_scan}
use cqut_lgv.Driver.Answers.{FitsReads, IsServing, delay-Ends}
use cqut_lgv.Driver.Answers.Connected.{HasChannel, connect_ends, disconnect-IsQuiet}
use cqut_lgv.Driver.Answers.Fetched.{
  FitsScan, grab_full_scan-Fits, delay-Rests, grab_full_scan_blocking-Grabs,
}
use cqut_lgv.Samples.{
  Line, connect_succuss, port_connect_fail, connect_fail, count_point_num, fail_get_full_scan,
  port_name_set_fail, serial_connect_fail, vailtidy_point_num, fail_to_get_lidar_data, new_device,
  report, report_scan, connect_loop, blocking_loop, polling_loop, blocking_main, polling_main,
}

-- The scans are counted from the number behind `count` on, without a gap, and each has fewer points
-- than the array of a scan holds.
abbrev pub IsNumbered : ℕ → List Line → Type 0
IsNumbered count [] = Unit
IsNumbered count (connect_succuss ∷ lines) = IsNumbered count lines
IsNumbered count (port_connect_fail ∷ lines) = IsNumbered count lines
IsNumbered count (connect_fail ∷ lines) = IsNumbered count lines
IsNumbered count (count_point_num n points ∷ lines) =
    (n ≡ suc count) × (points < 4096) × IsNumbered n lines
IsNumbered count (fail_get_full_scan ∷ lines) = IsNumbered count lines
IsNumbered count (port_name_set_fail ∷ lines) = IsNumbered count lines
IsNumbered count (serial_connect_fail ∷ lines) = IsNumbered count lines
IsNumbered count (vailtidy_point_num points ∷ lines) = IsNumbered count lines
IsNumbered count (fail_to_get_lidar_data ∷ lines) = IsNumbered count lines

-- A line that has no number.
abbrev IsSilent : Line → Type 0
IsSilent fail = (lines : List Line) → IsNumbered 0 lines → IsNumbered 0 (fail ∷ lines)

module _ {F D : Type 0} where
  report-IsNumbered :
      (count : ℕ) (scan : Option (ScanData F D)) (lines : List Line)
      → FitsScan scan
      → IsNumbered (report count scan).1 lines
      → IsNumbered count ((report count scan).0 ++ lines)
  unfolding report
  report-IsNumbered count none lines fits numbered = numbered
  report-IsNumbered count (some scan) lines fits numbered = (refl, fits, numbered)

  report_scan-IsNumbered :
      (count : ℕ) (scan : Option (ScanData F D)) (lines : List Line)
      → FitsScan scan
      → IsNumbered (report_scan count scan).1 lines
      → IsNumbered count ((report_scan count scan).0 ++ lines)
  unfolding report_scan
  report_scan-IsNumbered count none lines fits numbered = numbered
  report_scan-IsNumbered count (some scan) lines fits numbered = (refl, fits, numbered)

new_device-serial :
    {W : Type 0} (F D : Type 0) ⦃fl : Floats F D⦄ (w : W)
    → ((new_device {F = F} {D = D} w).driver.tranformer_type ≡ 0)
      × ((new_device {F = F} {D = D} w).driver.is_connected ≡ false)
unfolding new_device new_driver set_serial_port
new_device-serial F D w = (refl, refl)

module _ {W F D : Type 0} ⦃fl : Floats F D⦄ (dev : ChannelDevice W) (reads : FitsReads dev) where
  -- A loop of a program comes to an end, with its lines.
  abbrev Prints : ℕ → Option (List Line × System W F D) → Type 0
  Prints count m =
      (lines : List Line) × (t : System W F D) × (m ≡ some (lines, t))
      × IsNumbered count lines
      × IsQuiet t.driver

  blocking_loop-Prints :
      (rounds count : ℕ) (s : System W F D)
      → IsQuiet s.driver
      → Prints count (blocking_loop dev rounds count s)
  unfolding blocking_loop
  blocking_loop-Prints zero count s q = ([], s, refl, tt, q)
  blocking_loop-Prints (suc rounds) count s q =
      let (scan, t, e, fits, q1) = grab_full_scan_blocking-Grabs dev reads 1000 s q in
      let (lines, u, e', numbered, q2) = blocking_loop-Prints rounds (report count scan).1 t q1 in
      (
        (report count scan).0 ++ lines,
        u,
        rw (e, e') refl,
        report-IsNumbered count scan lines fits numbered,
        q2,
      )

  polling_loop-Prints :
      (rounds count : ℕ) (s : System W F D)
      → IsQuiet s.driver
      → Prints count (polling_loop dev rounds count s)
  unfolding polling_loop
  polling_loop-Prints zero count s q = ([], s, refl, tt, q)
  polling_loop-Prints (suc rounds) count s q =
      let scan = (grab_full_scan s.driver).0 in
      let (fits, q1) = grab_full_scan-Fits s.driver q in
      let (t, e, q2) =
        delay-Rests dev reads 100 (record s { driver = (grab_full_scan s.driver).1 }) q1 in
      let (lines, u, e', numbered, q3) =
        polling_loop-Prints rounds (report_scan count scan).1 t q2 in
      (
        (report_scan count scan).0 ++ lines,
        u,
        rw (e, e') refl,
        report_scan-IsNumbered count scan lines fits numbered,
        q3,
      )

  -- The loop that connects prints no number.
  abbrev Connects : Option (List Line × ℕ × System W F D) → Type 0
  Connects m =
      (said : List Line) × (left : ℕ) × (t : System W F D) × (m ≡ some (said, left, t))
      × ((lines : List Line) → IsNumbered 0 lines → IsNumbered 0 (said ++ lines))
      × IsQuiet t.driver

  after_attempt :
      (fail : Line) (done : Bool) (rounds : ℕ) (t : System W F D)
      → IsSilent fail
      → IsServing dev reads t
      → ((t' : System W F D) → IsServing dev reads t' → Connects (connect_loop dev fail rounds t'))
      → Connects (elim done [
        | true ↦ some (connect_succuss ∷ [], rounds, t)
        | false ↦ delay dev 1000 t >>= λ t'.
            connect_loop dev fail rounds t' >>= λ (lines, left, u). some (fail ∷ lines, left, u)
      ])
  after_attempt fail true rounds t quiet v again =
      (connect_succuss ∷ [], rounds, t, refl, λ lines h. h, v.quiet)
  after_attempt fail false rounds t quiet v again =
      let (t', e, v') = delay-Ends dev reads 1000 t v in
      let (said, left, u, e', silent, q) = again t' v' in
      (fail ∷ said, left, u, rw (e, e') refl, λ lines h. quiet (said ++ lines) (silent lines h), q)

  connect_loop-Connects :
      (fail : Line) (rounds : ℕ) (s : System W F D)
      → IsSilent fail
      → IsQuiet s.driver
      → HasChannel dev reads s
      → Connects (connect_loop dev fail rounds s)
  unfolding connect_loop
  connect_loop-Connects fail zero s quiet q channel = ([], zero, s, refl, λ lines h. h, q)
  connect_loop-Connects fail (suc rounds) s quiet q channel =
      let (done, t, e, told, v) = connect_ends dev reads s q channel in
      rw e (
        after_attempt fail done rounds t quiet v
          (λ t' v'. connect_loop-Connects fail rounds t' quiet v'.quiet (inl v'.serial)))

  new_device-IsQuiet : (w : W) → IsQuiet {F = F} {D = D} (new_device w).driver
  unfolding new_device new_driver set_serial_port
  new_device-IsQuiet w = record { valid = init_reader-IsValid; quiet = refl }

  -- The end of both programs.
  closing :
      (s : System W F D)
      → IsQuiet s.driver
      → (t : System W F D) × (u : System W F D) × (disconnect dev s ≡ some t)
        × (destroy dev t ≡ some u)
        × (u.driver.is_connected ≡ false)
        × (u.driver.has_rx_thread ≡ false)
  unfolding destroy
  closing s q =
      let (t, e, q', kept) = disconnect-IsQuiet dev reads s q in
      let (u, e', q'', kept') = disconnect-IsQuiet dev reads t q' in
      let (apart, alone, full, one) = disconnect_lem dev t u e' in (t, u, e, e', apart, alone)

  -- What a run leaves: a driver that is disconnected and has no receive thread, and scans that are counted
  -- from one on.
  abbrev pub Closes : Option (List Line × System W F D) → Type 0
  Closes m =
      (lines : List Line) × (t : System W F D) × (m ≡ some (lines, t))
      × IsNumbered 0 lines
      × (t.driver.is_connected ≡ false)
      × (t.driver.has_rx_thread ≡ false)

  -- If every read fits the buffer of the receive thread, blocking_test.cpp comes to an end without a fault,
  -- whatever the channel answers and however many rounds its loops make: the scans that it prints are
  -- counted from one on without a gap, each has fewer points than its array holds, and the driver
  -- is left disconnected and without a receive thread.
  pub blocking_main-Closes : (rounds : ℕ) (w : W) → Closes (blocking_main dev rounds w)
  unfolding blocking_main
  blocking_main-Closes rounds w =
      let (said, left, s1, e1, silent, q1) =
        connect_loop-Connects port_connect_fail rounds (new_device w) (λ lines h. h)
          (new_device-IsQuiet w) (inr (new_device-serial F D w)) in
      let (lines, s2, e2, numbered, q2) = blocking_loop-Prints left 0 s1 q1 in
      let (s3, s4, e3, e4, apart, alone) = closing s2 q2 in
      (said ++ lines, s4, rw (e1, e2, e3, e4) refl, silent lines numbered, apart, alone)

  -- If every read fits the buffer of the receive thread, non-blocking_test.cpp comes to an end without a
  -- fault, whatever the channel answers and however many rounds its loops make: the scans that it prints
  -- are counted from one on without a gap, each has fewer points than its array holds, and the driver
  -- is left disconnected and without a receive thread.
  pub polling_main-Closes : (rounds : ℕ) (w : W) → Closes (polling_main dev rounds w)
  unfolding polling_main
  polling_main-Closes rounds w =
      let (said, left, s1, e1, silent, q1) =
        connect_loop-Connects connect_fail rounds (new_device w) (λ lines h. h)
          (new_device-IsQuiet w) (inr (new_device-serial F D w)) in
      let (lines, s2, e2, numbered, q2) = polling_loop-Prints left 0 s1 q1 in
      let (s3, s4, e3, e4, apart, alone) = closing s2 q2 in
      (said ++ lines, s4, rw (e1, e2, e3, e4) refl, silent lines numbered, apart, alone)
