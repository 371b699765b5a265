-- ===== src/CApi/Calls/Fetched.antt =====
-- What the calls of the C interface do to a driver that works (oradar_ros/sdk/src/ord_lidar_c_api_driver.cpp).
use cqut_lgv.Common.{
  ℕ, ◌≡◌, ◌∙◌, refl, inl, Bool, true, false, Option, none, some, List, ◌>>=◌, ◌==◌, if_either,
}
use cqut_lgv.Floats.{Floats}
use cqut_lgv.Driver.{Driver, System, set_serial_port}
use cqut_lgv.Driver.Device.{ChannelDevice}
use cqut_lgv.Driver.Receive.{IsQuiet, is_receiving, rx_run-IsQuiet}
use cqut_lgv.Driver.Session.{connect, disconnect}
use cqut_lgv.Driver.Grab.{
  grab_full_scan, grab_one_scan, grab_full_scan_blocking, grab_one_scan_blocking, wait_rounds,
  take_full, take_one,
}
use cqut_lgv.Driver.Answers.{FitsReads, IsServing, Ends, Answers, rx_run-KeepsSerial}
use cqut_lgv.Driver.Answers.Connected.{connect_ends, disconnect-IsQuiet}
use cqut_lgv.Driver.Answers.Fetched.{taken-IsQuiet}
use cqut_lgv.CApi.{Handle, handle, with_driver, on_members}
use cqut_lgv.CApi.Calls.{is_given, told}

module _ {W F D : Type 0} ⦃fl : Floats F D⦄ (dev : ChannelDevice W) (reads : FitsReads dev) where
  -- A driver call comes to an end.
  abbrev pub Fetches : {A : Type 0} → Option (A × System W F D) → Type 0
  Fetches {A} m = (a : A) × (t : System W F D) × (m ≡ some (a, t)) × IsServing dev reads t

  -- A call on a handle comes to an end, and leaves a driver that works.
  abbrev pub Works : Option (Bool × Handle W F D) → Type 0
  Works m =
      (b : Bool) × (t : System W F D) × (m ≡ some (b, handle (some t))) × IsServing dev reads t

  pub with_driver-Works :
      (f : System W F D → Option (Bool × System W F D)) (s : System W F D)
      → Fetches (f s)
      → Works (with_driver false f (handle (some s)))
  unfolding with_driver
  with_driver-Works f s (b, t, e, v) = (b, t, rw e refl, v)

  pub told-Works :
      {A : Type 0} (f : System W F D → Option (Option A × System W F D)) (s : System W F D)
      → Fetches (f s)
      → Works (told (with_driver none f (handle (some s))))
  unfolding with_driver
  told-Works f s (a, t, e, v) = (is_given a, t, rw e refl, v)

  -- A call that changes members alone leaves a driver that works.
  abbrev pub Keeps : {A : Type 0} → A × Driver F D → Type 0
  Keeps got = IsQuiet got.1 × (got.1.has_serial ≡ true)

  pub on_members-Fetches :
      {A : Type 0} (f : Driver F D → A × Driver F D) (s : System W F D)
      → Keeps (f s.driver)
      → Fetches (on_members f s)
  on_members-Fetches f s (q, there) = (
    (f s.driver).0,
    record s { driver = (f s.driver).1 },
    refl,
    record { quiet = q; serial = there },
  )

  taken_one-IsQuiet : (d : Driver F D) → IsQuiet d → IsQuiet (take_one d).1
  taken_one-IsQuiet d q = record {
    valid = record {
      synced = q.valid.synced;
      fits = record {
        temp_length = q.valid.fits.temp_length;
        temp_num = q.valid.fits.temp_num;
        full_length = q.valid.fits.full_length;
        full_num = q.valid.fits.full_num;
        one_length = q.valid.fits.one_length;
        one_num = q.valid.fits.one_num;
      };
    };
    quiet = q.quiet;
  }

  pub grab_full_scan-Keeps :
      (d : Driver F D) → IsQuiet d → d.has_serial ≡ true → Keeps (grab_full_scan d)
  unfolding grab_full_scan
  grab_full_scan-Keeps d q there =
      if_either Keeps (d.reader.full_scan_data.vailtidy_point_num == 0) (none, d) _
        (λ empty. (q, there))
        (λ filled.
          if_either Keeps d.reader.full_scan_ready (take_full d) (none, d)
            (λ ready. (taken-IsQuiet d q, there)) (λ taken. (q, there)))

  pub grab_one_scan-Keeps :
      (d : Driver F D) → IsQuiet d → d.has_serial ≡ true → Keeps (grab_one_scan d)
  unfolding grab_one_scan
  grab_one_scan-Keeps d q there =
      if_either Keeps (d.reader.one_scan_data.vailtidy_point_num == 0) (none, d) _
        (λ empty. (q, there))
        (λ filled.
          if_either Keeps d.reader.one_scan_ready (take_one d) (none, d)
            (λ ready. (taken_one-IsQuiet d q, there)) (λ taken. (q, there)))

  wait_rounds-Ends :
      (ms : ℕ) (s : System W F D) → IsServing dev reads s → Ends dev reads (wait_rounds dev ms s)
  unfolding wait_rounds
  wait_rounds-Ends ms s v =
      if_either (Ends dev reads) (is_receiving s.driver) _ (some s)
        (λ on.
          let (got, w) = dev.awaited ms s.world in
          let (d, e, q) =
            rx_run-IsQuiet (dev.awaited ms s.world).0 s.driver (reads.fits_awaited ms s.world)
              v.quiet in
          (
            record { driver = d; world = (dev.awaited ms s.world).1 },
            rw e refl,
            record {
              quiet = q;
              serial = rx_run-KeepsSerial (dev.awaited ms s.world).0 s.driver d e ∙ v.serial;
            },
          ))
        (λ off. (s, refl, v))

  pub grab_full_scan_blocking-Fetches :
      (ms : ℕ) (s : System W F D)
      → IsServing dev reads s
      → Fetches (grab_full_scan_blocking dev ms s)
  unfolding grab_full_scan_blocking
  grab_full_scan_blocking-Fetches ms s v =
      let (t, e, v') = wait_rounds-Ends ms s v in
      rw e (
        if_either Fetches (t.driver.reader.full_data_event == s.driver.reader.full_data_event)
          (some (none, t)) _ (λ same. (none, t, refl, v'))
          (λ new.
            if_either Fetches t.driver.reader.full_scan_ready
              (some ((take_full t.driver).0, record t { driver = (take_full t.driver).1 }))
              (some (none, t))
              (λ ready. (
                (take_full t.driver).0,
                record t { driver = (take_full t.driver).1 },
                refl,
                record { quiet = taken-IsQuiet t.driver v'.quiet; serial = v'.serial },
              ))
              (λ taken. (none, t, refl, v'))))

  pub grab_one_scan_blocking-Fetches :
      (ms : ℕ) (s : System W F D)
      → IsServing dev reads s
      → Fetches (grab_one_scan_blocking dev ms s)
  unfolding grab_one_scan_blocking
  grab_one_scan_blocking-Fetches ms s v =
      let (t, e, v') = wait_rounds-Ends ms s v in
      rw e (
        if_either Fetches (t.driver.reader.one_data_event == s.driver.reader.one_data_event)
          (some (none, t)) _ (λ same. (none, t, refl, v'))
          (λ new.
            if_either Fetches t.driver.reader.one_scan_ready
              (some ((take_one t.driver).0, record t { driver = (take_one t.driver).1 }))
              (some (none, t))
              (λ ready. (
                (take_one t.driver).0,
                record t { driver = (take_one t.driver).1 },
                refl,
                record { quiet = taken_one-IsQuiet t.driver v'.quiet; serial = v'.serial },
              ))
              (λ taken. (none, t, refl, v'))))

  pub answered : (m : Option (Bool × System W F D)) → Answers dev reads m → Fetches m
  answered m (b, t, e, v) = (b, t, e, v)

  pub connect-Fetches : (s : System W F D) → IsServing dev reads s → Fetches (connect dev s)
  connect-Fetches s v =
      let (b, t, e, told, v') = connect_ends dev reads s v.quiet (inl v.serial) in (b, t, e, v')

  pub disconnect-Fetches :
      (s : System W F D)
      → IsServing dev reads s
      → Fetches (disconnect dev s >>= λ s'. some (true, s'))
  disconnect-Fetches s v =
      let (t, e, q, kept) = disconnect-IsQuiet dev reads s v.quiet in
      (true, t, rw e refl, record { quiet = q; serial = kept ∙ v.serial })

  pub set_serial_port-Keeps :
      (port : List ℕ) (rate : ℕ) (d : Driver F D)
      → IsQuiet d
      → d.has_serial ≡ true
      → IsQuiet (set_serial_port port rate d) × ((set_serial_port port rate d).has_serial ≡ true)
  unfolding set_serial_port
  set_serial_port-Keeps port rate d q there = (record { valid = q.valid; quiet = q.quiet }, there)
