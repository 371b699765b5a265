-- ===== src/Filter/Intensity.antt =====
-- `intensity_filter`, oradar_ros/sdk/src/filters/FullScanFilter.cpp. The source's test
-- `intensity <- Weak_Intensity_Th` is read as the compiler reads it: less than the negated threshold.
use cqut_lgv.Common.{
  ℕ, ◌≡◌, inl, inr, ap, Option, none, some, arith, ◌==◌, if◌then◌else◌, Bool-cases, get_or,
}
use cqut_lgv.Common.Int.{pos, ltb_ℤ, ◌-ℤ◌, ◌≤ℤ◌}
use cqut_lgv.Floats.{Floats}
use cqut_lgv.Protocol.{ScanData, zero_point}
use cqut_lgv.Filter.Base.{FilterPara, for_points, for_points_idle}

module _ {F D : Type 0} ⦃fl : Floats F D⦄ where
  -- The round for the point `i`.
  unfoldable pub intensity_round : ScanData F D → FilterPara → ℕ → Option ℕ
  intensity_round inp para_inf i =
      let p = get_or inp.data_points i (zero_point D) in
      if ltb_ℤ (pos p.distance) para_inf.intesntiy_filter_range
      then (if ltb_ℤ (pos p.intensity) (pos 0 -ℤ para_inf.weak_intensity_th) then some 0 else none)
      else none

  unfoldable pub intensity_filter : ScanData F D → FilterPara → ScanData F D
  unfolding intensity_round
  intensity_filter inp para_inf = if inp.vailtidy_point_num == 0 then inp else record inp {
    data_points =
        for_points (intensity_round inp para_inf) inp.vailtidy_point_num 0 inp.data_points;
  }

  -- With a threshold that is not negative, as the default is, no round writes anything.
  intensity_round-none :
      (inp : ScanData F D) (para_inf : FilterPara)
      → pos 0 ≤ℤ para_inf.weak_intensity_th
      → (i : ℕ) → intensity_round inp para_inf i ≡ none
  unfolding intensity_round
  intensity_round-none inp para_inf h i = ground arith

  -- The intensity filter never changes a scan, however weak its points are, unless the intensity
  -- threshold is negative.
  pub intensity_filter-id :
      (inp : ScanData F D) (para_inf : FilterPara)
      → pos 0 ≤ℤ para_inf.weak_intensity_th
      → intensity_filter inp para_inf ≡ inp
  unfolding intensity_filter
  intensity_filter-id inp para_inf h = elim (Bool-cases (inp.vailtidy_point_num == 0)) [
    | inl empty ↦ rw empty
    | inr some_points ↦ rw some_points (
        ap (λ ps. record inp { data_points = ps })
          (for_points_idle (intensity_round inp para_inf) inp.vailtidy_point_num 0 inp.data_points
            (intensity_round-none inp para_inf h)))
  ]
