-- ===== src/Driver/Grab.antt =====
-- The calls that fetch a scan or a setting: `GrabFullScan`, `GrabOneScan`, their blocking forms and the
-- `Get` functions of oradar_ros/sdk/src/ord_lidar_driver.cpp. The event (oradar_ros/sdk/core/base/locker.h) wakes
-- a waiting call for a `set` during its wait, and for no earlier one.
use cqut_lgv.Common.{
  ℕ, ◌≡◌, ◌≢◌, ==_iff, ==_ne, refl, inl, inr, sym, ap, Bool, true, false, not, ◌&&◌, Option, none,
  some, List, [], ◌∷◌, ◌>>=◌, ◌==◌, if◌then◌else◌, Bool-cases, some-ne-none,
}
use cqut_lgv.Floats.{Floats}
use cqut_lgv.Protocol.{ScanData}
use cqut_lgv.Driver.{Driver, System}
use cqut_lgv.Driver.Device.{ChannelDevice}
use cqut_lgv.Driver.Receive.{rx_run, is_receiving}

abbrev pub is_empty : List ℕ → Bool
is_empty [] = true
is_empty (b ∷ bytes) = false

module _ {F D : Type 0} where
  -- The scan is handed out once.
  abbrev pub take_full : Driver F D → Option (ScanData F D) × Driver F D
  take_full d = (
    some d.reader.full_scan_data,
    record d { reader = record d.reader { full_scan_ready = false } },
  )

  abbrev pub take_one : Driver F D → Option (ScanData F D) × Driver F D
  take_one d = (
    some d.reader.one_scan_data,
    record d { reader = record d.reader { one_scan_ready = false } },
  )

  -- `none` stands for the answer false, which leaves the caller's scan alone.
  unfoldable pub grab_full_scan : Driver F D → Option (ScanData F D) × Driver F D
  grab_full_scan d =
      if d.reader.full_scan_data.vailtidy_point_num == 0
      then (none, d)
      else if d.reader.full_scan_ready
      then take_full d
      else (none, d)

  unfoldable pub grab_one_scan : Driver F D → Option (ScanData F D) × Driver F D
  grab_one_scan d =
      if d.reader.one_scan_data.vailtidy_point_num == 0
      then (none, d)
      else if d.reader.one_scan_ready
      then take_one d
      else (none, d)

  unfoldable pub get_timestamp : Driver F D → ℕ
  get_timestamp d = d.reader.parsed_data.timestamp

  unfoldable pub get_rotation_speed : Driver F D → D
  get_rotation_speed d = d.reader.parsed_data.speed

  abbrev ask_info : Driver F D → Driver F D
  ask_info d = record d { info = record d.info { init_info_flag = true } }

  unfoldable pub get_firmware_version : Driver F D → Option (List ℕ × List ℕ) × Driver F D
  get_firmware_version d =
      if not (is_empty d.info.top_fw_version) && not (is_empty d.info.bot_fw_version)
      then (some (d.info.top_fw_version, d.info.bot_fw_version), d)
      else (none, ask_info d)

  unfoldable pub get_device_sn : Driver F D → Option (List ℕ) × Driver F D
  get_device_sn d =
      if is_empty d.info.device_sn then (none, ask_info d) else (some d.info.device_sn, d)

  take_full-some :
      (d d' : Driver F D) (scan : ScanData F D)
      → take_full d ≡ (some scan, d')
      → scan ≡ d.reader.full_scan_data
  take_full-some d d' scan e =
      let e' : some d.reader.full_scan_data ≡ some scan = ap (λ w. w.0) e in cc

  take_one-some :
      (d d' : Driver F D) (scan : ScanData F D)
      → take_one d ≡ (some scan, d')
      → scan ≡ d.reader.one_scan_data
  take_one-some d d' scan e =
      let e' : some d.reader.one_scan_data ≡ some scan = ap (λ w. w.0) e in cc

  -- A scan is handed out once: after a successful call the next one answers false and changes nothing,
  -- until the receive thread has announced another scan.
  pub grab_full_scan-once :
      (d d' : Driver F D) (scan : ScanData F D)
      → grab_full_scan d ≡ (some scan, d')
      → (scan ≡ d.reader.full_scan_data) × (grab_full_scan d' ≡ (none, d'))
  unfolding grab_full_scan
  grab_full_scan-once d d' scan h =
      elim (Bool-cases (d.reader.full_scan_data.vailtidy_point_num == 0)) [
        | inl empty ↦ absurd (some-ne-none scan (sym (ap (λ w. w.0) (rw empty at h))))
        | inr filled ↦ elim (Bool-cases d.reader.full_scan_ready) [
          | inr taken ↦
              absurd (some-ne-none scan (sym (ap (λ w. w.0) (rw taken at (rw filled at h)))))
          | inl ready ↦
              let e : take_full d ≡ (some scan, d') = rw ready at (rw filled at h) in
              (take_full-some d d' scan e, rw (sym (ap (λ w. w.1) e)) (rw filled refl))
        ]
      ]

  -- The same holds of the scans of a package.
  pub grab_one_scan-once :
      (d d' : Driver F D) (scan : ScanData F D)
      → grab_one_scan d ≡ (some scan, d')
      → (scan ≡ d.reader.one_scan_data) × (grab_one_scan d' ≡ (none, d'))
  unfolding grab_one_scan
  grab_one_scan-once d d' scan h =
      elim (Bool-cases (d.reader.one_scan_data.vailtidy_point_num == 0)) [
        | inl empty ↦ absurd (some-ne-none scan (sym (ap (λ w. w.0) (rw empty at h))))
        | inr filled ↦ elim (Bool-cases d.reader.one_scan_ready) [
          | inr taken ↦
              absurd (some-ne-none scan (sym (ap (λ w. w.0) (rw taken at (rw filled at h)))))
          | inl ready ↦
              let e : take_one d ≡ (some scan, d') = rw ready at (rw filled at h) in
              (take_one-some d d' scan e, rw (sym (ap (λ w. w.1) e)) (rw filled refl))
        ]
      ]

module _ {W F D : Type 0} ⦃fl : Floats F D⦄ (dev : ChannelDevice W) where
  -- What the receive thread does while an event is waited for.
  unfoldable pub wait_rounds : ℕ → System W F D → Option (System W F D)
  unfolding rx_run
  wait_rounds timeout s =
      if is_receiving s.driver
      then (let (got, w) = dev.awaited timeout s.world in
          rx_run got s.driver >>= λ d. some (record { driver = d; world = w }))
      else some s

  unfoldable pub grab_full_scan_blocking :
      ℕ → System W F D → Option (Option (ScanData F D) × System W F D)
  unfolding wait_rounds
  grab_full_scan_blocking timeout s = wait_rounds timeout s >>= λ s'.
      if s'.driver.reader.full_data_event == s.driver.reader.full_data_event
      then some (none, s')
      else if s'.driver.reader.full_scan_ready
      then some ((take_full s'.driver).0, record s' { driver = (take_full s'.driver).1 })
      else some (none, s')

  unfoldable pub grab_one_scan_blocking :
      ℕ → System W F D → Option (Option (ScanData F D) × System W F D)
  unfolding wait_rounds
  grab_one_scan_blocking timeout s = wait_rounds timeout s >>= λ s'.
      if s'.driver.reader.one_data_event == s.driver.reader.one_data_event
      then some (none, s')
      else if s'.driver.reader.one_scan_ready
      then some ((take_one s'.driver).0, record s' { driver = (take_one s'.driver).1 })
      else some (none, s')

  wait_rounds_calm :
      (timeout : ℕ) (s : System W F D)
      → dev.awaited timeout s.world ≡ ([], s.world)
      → wait_rounds timeout s ≡ some s
  unfolding wait_rounds rx_run
  wait_rounds_calm timeout s calm = elim (Bool-cases (is_receiving s.driver)) [
    | inr off ↦ rw off refl
    | inl on ↦ rw (on, calm) refl
  ]

  -- When a full scan with points is ready and nothing arrives during the wait, the call that does
  -- not block hands the scan out, and the one that blocks answers false and leaves it: it waits for
  -- a new event.
  pub grab_full_scan_blocking-misses :
      (timeout : ℕ) (s : System W F D)
      → dev.awaited timeout s.world ≡ ([], s.world)
      → s.driver.reader.full_scan_ready ≡ true
      → s.driver.reader.full_scan_data.vailtidy_point_num ≢ 0
      → ((grab_full_scan s.driver).0 ≡ some s.driver.reader.full_scan_data)
        × (grab_full_scan_blocking timeout s ≡ some (none, s))
  unfolding grab_full_scan grab_full_scan_blocking
  grab_full_scan_blocking-misses timeout s calm ready filled = (
    rw ((==_ne s.driver.reader.full_scan_data.vailtidy_point_num 0 filled), ready) refl,
    rw (wait_rounds_calm timeout s calm, (==_iff s.driver.reader.full_data_event _).1 refl) refl,
  )
