-- ===== src/Driver/Answers/Fetched.antt =====
-- The calls of oradar_ros/sdk/src/ord_lidar_driver.cpp that fetch a full scan come to an end.
use cqut_lgv.Common.{
  ℕ, ◌<◌, ◌≡◌, refl, ap, ◌∙◌, Option, none, some, List, ◌>>=◌, ◌==◌, if◌then◌else◌, if_either, All,
}
use cqut_lgv.Floats.{Floats}
use cqut_lgv.Protocol.{ScanData}
use cqut_lgv.Driver.{Driver, System}
use cqut_lgv.Driver.Device.{Arrival, ChannelDevice}
use cqut_lgv.Driver.Receive.{FitsBuffer, IsQuiet, rx_run, rx_run-IsQuiet, is_receiving, delay}
use cqut_lgv.Driver.Grab.{grab_full_scan, grab_full_scan_blocking, wait_rounds, take_full}
use cqut_lgv.Driver.Answers.{FitsReads}

module _ {F D : Type 0} where
  -- The points of a scan that is handed out fit its array.
  abbrev pub FitsScan : Option (ScanData F D) → Type 0
  FitsScan none = Unit
  FitsScan (some scan) = scan.vailtidy_point_num < 4096

module _ {F D : Type 0} ⦃fl : Floats F D⦄ where
  pub taken-IsQuiet : (d : Driver F D) → IsQuiet d → IsQuiet (take_full d).1
  taken-IsQuiet d q = record {
    valid = record {
      synced = q.valid.synced;
      fits = record {
        temp_length = q.valid.fits.temp_length;
        temp_num = q.valid.fits.temp_num;
        full_length = q.valid.fits.full_length;
        full_num = q.valid.fits.full_num;
        one_length = q.valid.fits.one_length;
        one_num = q.valid.fits.one_num;
      };
    };
    quiet = q.quiet;
  }

  -- A call that fetches a scan leaves a driver that works, and its scan fits.
  abbrev pub Fits : Option (ScanData F D) × Driver F D → Type 0
  Fits got = FitsScan got.0 × IsQuiet got.1

  pub grab_full_scan-Fits : (d : Driver F D) → IsQuiet d → Fits (grab_full_scan d)
  unfolding grab_full_scan
  grab_full_scan-Fits d q =
      if_either Fits (d.reader.full_scan_data.vailtidy_point_num == 0) (none, d) _
        (λ empty. (tt, q))
        (λ filled.
          if_either Fits d.reader.full_scan_ready (take_full d) (none, d)
            (λ ready. (q.valid.fits.full_num, taken-IsQuiet d q)) (λ taken. (tt, q)))

module _ {W F D : Type 0} ⦃fl : Floats F D⦄ (dev : ChannelDevice W) (reads : FitsReads dev) where
  -- The call comes to an end and leaves a driver that works.
  abbrev pub Rests : Option (System W F D) → Type 0
  Rests m = (t : System W F D) × (m ≡ some t) × IsQuiet t.driver

  -- The rounds of the receive thread.
  rounds-Rests :
      (got : List Arrival) (w : W) (d : Driver F D)
      → All FitsBuffer got
      → IsQuiet d
      → Rests (rx_run got d >>= λ d'. some (record { driver = d'; world = w }))
  rounds-Rests got w d fits q =
      let (d', e, q') = rx_run-IsQuiet got d fits q in
      let t : System W F D = record { driver = d'; world = w } in
      (t, ap (λ m. m >>= λ d''. some (record { driver = d''; world = w })) e, q')

  pub delay-Rests : (ms : ℕ) (s : System W F D) → IsQuiet s.driver → Rests (delay dev ms s)
  unfolding delay
  delay-Rests ms s q =
      if_either Rests (is_receiving s.driver) _ (some s)
        (λ on.
          rounds-Rests (dev.arrivals ms s.world).0 (dev.arrivals ms s.world).1 s.driver
            (reads.fits_arrivals ms s.world) q)
        (λ off. (s, refl, q))

  wait_rounds-Rests : (ms : ℕ) (s : System W F D) → IsQuiet s.driver → Rests (wait_rounds dev ms s)
  unfolding wait_rounds
  wait_rounds-Rests ms s q =
      if_either Rests (is_receiving s.driver) _ (some s)
        (λ on.
          rounds-Rests (dev.awaited ms s.world).0 (dev.awaited ms s.world).1 s.driver
            (reads.fits_awaited ms s.world) q)
        (λ off. (s, refl, q))

  abbrev pub Grabs : Option (Option (ScanData F D) × System W F D) → Type 0
  Grabs m =
      (scan : Option (ScanData F D)) × (t : System W F D) × (m ≡ some (scan, t))
      × FitsScan scan
      × IsQuiet t.driver

  pub grab_full_scan_blocking-Grabs :
      (ms : ℕ) (s : System W F D) → IsQuiet s.driver → Grabs (grab_full_scan_blocking dev ms s)
  unfolding grab_full_scan_blocking
  grab_full_scan_blocking-Grabs ms s q =
      let (t, e, q') = wait_rounds-Rests ms s q in
      let rest : System W F D → Option (Option (ScanData F D) × System W F D) = λ t.
        if t.driver.reader.full_data_event == s.driver.reader.full_data_event
        then some (none, t)
        else if t.driver.reader.full_scan_ready
        then some ((take_full t.driver).0, record t { driver = (take_full t.driver).1 })
        else some (none, t) in
      let later : Grabs (rest t) =
        if_either Grabs (t.driver.reader.full_data_event == s.driver.reader.full_data_event)
          (some (none, t)) _ (λ same. (none, t, refl, tt, q'))
          (λ new.
            if_either Grabs t.driver.reader.full_scan_ready
              (some ((take_full t.driver).0, record t { driver = (take_full t.driver).1 }))
              (some (none, t))
              (λ ready. (
                (take_full t.driver).0,
                record t { driver = (take_full t.driver).1 },
                refl,
                q'.valid.fits.full_num,
                taken-IsQuiet t.driver q',
              ))
              (λ taken. (none, t, refl, tt, q'))) in
      (later.0, later.1, ap (λ m. m >>= rest) e ∙ later.2, later.3, later.4)
