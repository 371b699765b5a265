-- ===== src/Driver/Race.antt =====
-- `GrabFullScan` and the receive thread of oradar_ros/sdk/src/ord_lidar_driver.cpp side by side: the lock
-- around them is commented out. A round of the receive thread is one step, and so is each statement of
-- the caller.
pub mod Lost
use cqut_lgv.Common.{
  ◌<◌, ◌≡◌, ◌≢◌, refl, sym, ap, ◌∙◌, inl, inr, true, false, Bool-cases, Option, none, some, List,
  ◌∷◌, ◌==◌, length, All, arith, some_subst, subst, some-ne-none,
}
use cqut_lgv.Floats.{Floats}
use cqut_lgv.Protocol.{ScanData}
use cqut_lgv.Driver.{Driver}
use cqut_lgv.Driver.Device.{Arrival}
use cqut_lgv.Driver.Receive.{FitsBuffer, rx_step, IsQuiet, rx_step-IsQuiet}
use cqut_lgv.Driver.Grab.{take_full, grab_full_scan}

-- Where the caller is: outside, behind the two tests, or behind `scan_data = full_scan_data_`.
pub data Phase (F D : Type 0) : Type 0 where
  outside : Phase F D
  checked : Phase F D
  copied : ScanData F D → Phase F D

-- The driver, the caller, and the scans that it has been given, the last one first.
pub record Threads (F D : Type 0) : Type 0 where
  pub driver : Driver F D
  pub phase : Phase F D
  pub given : List (ScanData F D)

abbrev pub threads : {F D : Type 0} → Driver F D → Phase F D → List (ScanData F D) → Threads F D
threads d phase given = record { driver = d; phase = phase; given = given }

-- The two tests of `GrabFullScan` pass.
abbrev pub IsReady : {F D : Type 0} → Driver F D → Type 0
IsReady d = (d.reader.full_scan_data.vailtidy_point_num ≢ 0) × (d.reader.full_scan_ready ≡ true)

-- `ResetFullScanReady`
abbrev pub reset_full : {F D : Type 0} → Driver F D → Driver F D
reset_full d = record d { reader = record d.reader { full_scan_ready = false } }

abbrev given_by {ℓ} : {A : Type ℓ} → Option A → List A → List A
given_by none given = given
given_by (some scan) given = scan ∷ given

module _ {F D : Type 0} ⦃fl : Floats F D⦄ where
  pub data Step : Threads F D → Threads F D → Type 0 where
    receive :
        (a : Arrival) (d d' : Driver F D) (phase : Phase F D) (given : List (ScanData F D))
        → FitsBuffer a
        → rx_step a d ≡ some d'
        → Step (threads d phase given) (threads d' phase given)
    check :
        (d : Driver F D) (given : List (ScanData F D))
        → IsReady d
        → Step (threads d outside given) (threads d checked given)
    copy :
        (d : Driver F D) (given : List (ScanData F D))
        → Step (threads d checked given) (threads d (copied d.reader.full_scan_data) given)
    reset :
        (d : Driver F D) (scan : ScanData F D) (given : List (ScanData F D))
        → Step (threads d (copied scan) given) (threads (reset_full d) outside (scan ∷ given))

  -- Any number of steps.
  pub data Steps : Threads F D → Threads F D → Type 0 where
    still : (s : Threads F D) → Steps s s
    later : (s s' s'' : Threads F D) → Step s s' → Steps s' s'' → Steps s s''

  -- A scan in the array of its declaration, with fewer points than it has room for.
  pub record FitsScan (scan : ScanData F D) : Type 0 where
    pub scan_length : length scan.data_points ≡ 4097
    pub scan_num : scan.vailtidy_point_num < 4096

  abbrev pub FitsPhase : Phase F D → Type 0
  FitsPhase outside = Unit
  FitsPhase checked = Unit
  FitsPhase (copied scan) = FitsScan scan

  pub record IsSound (s : Threads F D) : Type 0 where
    pub quiet : IsQuiet s.driver
    pub fits_phase : FitsPhase s.phase
    pub fits_given : All FitsScan s.given

  full_scan-FitsScan : (d : Driver F D) → IsQuiet d → FitsScan d.reader.full_scan_data
  full_scan-FitsScan d q = record {
    scan_length = q.valid.fits.full_length;
    scan_num = q.valid.fits.full_num;
  }

  reset_full-IsQuiet : (d : Driver F D) → IsQuiet d → IsQuiet (reset_full d)
  reset_full-IsQuiet d q = record {
    valid = record {
      synced = q.valid.synced;
      fits = record {
        temp_length = q.valid.fits.temp_length;
        temp_num = q.valid.fits.temp_num;
        full_length = q.valid.fits.full_length;
        full_num = q.valid.fits.full_num;
        one_length = q.valid.fits.one_length;
        one_num = q.valid.fits.one_num;
      };
    };
    quiet = q.quiet;
  }

  Step-IsSound : (s s' : Threads F D) → Step s s' → IsSound s → IsSound s'
  Step-IsSound _ _ (receive a d d' phase given fits e) v =
      let (d1, e1, q1) = rx_step-IsQuiet a d fits v.quiet in
      record {
        quiet = some_subst IsQuiet d1 d' (sym e1 ∙ e) q1;
        fits_phase = v.fits_phase;
        fits_given = v.fits_given;
      }
  Step-IsSound _ _ (check d given ready) v = record {
    quiet = v.quiet;
    fits_phase = tt;
    fits_given = v.fits_given;
  }
  Step-IsSound _ _ (copy d given) v = record {
    quiet = v.quiet;
    fits_phase = full_scan-FitsScan d v.quiet;
    fits_given = v.fits_given;
  }
  Step-IsSound _ _ (reset d scan given) v = record {
    quiet = reset_full-IsQuiet d v.quiet;
    fits_phase = tt;
    fits_given = (v.fits_phase, v.fits_given);
  }

  -- From a valid driver that looks for no device information: however the rounds of the receive
  -- thread and the statements of `GrabFullScan` come between each other, the driver stays valid,
  -- and every scan that is handed out has the array of its declaration with a count of points below
  -- 4096.
  pub Steps-IsSound : (s s' : Threads F D) → Steps s s' → IsSound s → IsSound s'
  Steps-IsSound _ _ (still s) v = v
  Steps-IsSound _ _ (later s s' s'' step rest) v =
      Steps-IsSound s' s'' rest (Step-IsSound s s' step v)

  -- Three steps in a row are a call of `GrabFullScan` that succeeds.
  pub grab_full_scan-Steps :
      (d d' : Driver F D) (scan : ScanData F D) (given : List (ScanData F D))
      → grab_full_scan d ≡ (some scan, d')
      → Steps (threads d outside given) (threads d' outside (scan ∷ given))
  unfolding grab_full_scan
  grab_full_scan-Steps d d' scan given e =
      elim (Bool-cases (d.reader.full_scan_data.vailtidy_point_num == 0)) [
        | inl empty ↦ absurd (some-ne-none scan (sym (ap (λ w. w.0) (rw empty at e))))
        | inr filled ↦ elim (Bool-cases d.reader.full_scan_ready) [
          | inr taken ↦
              absurd (some-ne-none scan (sym (ap (λ w. w.0) (rw taken at (rw filled at e)))))
          | inl ready ↦
              let e' : take_full d ≡ (some scan, d') = rw ready at (rw filled at e) in
              subst
                (λ w. Steps (threads d outside given) (threads w.1 outside (given_by w.0 given))) e'
                (later _ _ _ (check d given (ground arith, ready)) (
                  later _ _ _ (copy d given)
                    (later _ _ _ (reset d d.reader.full_scan_data given) (still _))))
        ]
      ]

  pub grab_full_scan_not_ready :
      (d : Driver F D) → d.reader.full_scan_ready ≡ false → grab_full_scan d ≡ (none, d)
  unfolding grab_full_scan
  grab_full_scan_not_ready d e =
      elim (Bool-cases (d.reader.full_scan_data.vailtidy_point_num == 0)) [
        | inl empty ↦ rw empty refl
        | inr filled ↦ rw (filled, e) refl
      ]
