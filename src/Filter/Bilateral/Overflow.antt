-- ===== src/Filter/Bilateral/Overflow.antt =====
-- When `Diff_R * Diff_R` in `bilateral_filter` of oradar_ros/sdk/src/filters/FullScanFilter.cpp is
-- more than an `int` holds.
use cqut_lgv.Common.{
  ℕ, get_or, ◌+◌, ◌-◌, ◌*◌, ◌^◌, ◌≤◌, ◌<◌, ◌≡◌, ap, ◌∙◌, inl, inr, true, Option, none, List, [],
  ◌∷◌, ◌++◌, arith, le→ltb, Option-cases,
}
use native.Mathlib.Nat.{mul-le-mul}
use cqut_lgv.Common.Int.{abs, pos}
use cqut_lgv.Floats.{Floats}
use cqut_lgv.Protocol.{ScanData}
use cqut_lgv.Filter.Base.{FilterPara, is_valid_range, try_points_fault}
use cqut_lgv.Filter.Smooth.{distance_at}
use cqut_lgv.Filter.Bilateral.{
  int_of, diff_r, range_weight, window_step, window_sum, window_around, bilateral_round,
  bilateral_filter, temp_dists_data, spatial_weight,
}
use cqut_lgv.Filter.Bilateral.Padding.{get_or-temp_dists_data}

-- A difference that wraps around to 46341 or more has a square outside `int`.
int_of-diff_r :
    (current win : ℕ)
    → current < win
    → win ≤ current + 19195
    → int_of (diff_r current win * diff_r current win) ≡ none
int_of-diff_r current win lo hi =
    let e : diff_r current win ≡ current + 2 ^ 16 - win = omega arith in
    let big : 46341 ≤ diff_r current win = omega (arith, e) in
    rw (
      le→ltb (diff_r current win * diff_r current win) (2 ^ 31) (omega (arith, mul-le-mul big big)))

module _ (F D : Type 0) ⦃fl : Floats F D⦄ where
  -- A farther distance in the window makes the round of the inner loop fault.
  window_step-fault :
      (kernel_r : Option ℕ) (current : ℕ) (spatial : F) (win : ℕ) (sums : F × F)
      → current < win
      → win ≤ current + 19195
      → window_step F D kernel_r current spatial win sums ≡ none
  unfolding window_step range_weight
  window_step-fault kernel_r current spatial win sums lo hi =
      rw (int_of-diff_r current win lo hi) (ground arith)

  -- So does it the loop, wherever it stands in the window.
  window_sum-fault :
      (kernel_r : Option ℕ) (current : ℕ) (spatial : F) (win : ℕ) (before rest : List (F × ℕ))
      (sums : F × F)
      → current < win
      → win ≤ current + 19195
      → window_sum F D kernel_r current (before ++ (spatial, win) ∷ rest) sums ≡ none
  unfolding window_sum
  window_sum-fault kernel_r current spatial win [] rest sums lo hi =
      rw (window_step-fault kernel_r current spatial win sums lo hi)
  window_sum-fault kernel_r current spatial win ((s, w) ∷ before) rest sums lo hi =
      elim (Option-cases (window_step F D kernel_r current s w sums)) [
        | inl fault ↦ rw fault
        | inr (sums', e) ↦
            rw e (window_sum-fault kernel_r current spatial win before rest sums' lo hi)
      ]

  bilateral_round-fault :
      (para_inf : FilterPara) (temp : List ℕ) (kernel_d : ℕ) (kernel_r : Option ℕ) (k : ℕ)
      → is_valid_range para_inf (get_or temp (k + 2) 0) ≡ true
      → get_or temp (k + 2) 0 < get_or temp (k + 3) 0
      → get_or temp (k + 3) 0 ≤ get_or temp (k + 2) 0 + 19195
      → bilateral_round F D para_inf temp kernel_d kernel_r k ≡ none
  unfolding bilateral_round window_around
  bilateral_round-fault para_inf temp kernel_d kernel_r k in_range lo hi = rw in_range (
      rw (
        window_sum-fault kernel_r (get_or temp (k + 2) 0) (spatial_weight F D kernel_d 1)
          (get_or temp (k + 3) 0)
          ((spatial_weight F D kernel_d 4, get_or temp k 0)
            ∷ (spatial_weight F D kernel_d 1, get_or temp (k + 1) 0)
            ∷ (spatial_weight F D kernel_d 0, get_or temp (k + 2) 0)
            ∷ [])
          ((spatial_weight F D kernel_d 4, get_or temp (k + 4) 0) ∷ [])
          (fl.float_of (pos 0), fl.float_of (pos 0)) lo hi))

module _ {F D : Type 0} ⦃fl : Floats F D⦄ where
  -- Where a point in range is nearer than the next point, by at most 19195, the filter squares a
  -- difference that has wrapped around, and the square overflows.
  pub bilateral_filter-overflow :
      (inp : ScanData F D) (para_inf : FilterPara) (k : ℕ)
      → 2 < inp.vailtidy_point_num
      → k + 1 < inp.vailtidy_point_num
      → is_valid_range para_inf (distance_at inp k) ≡ true
      → distance_at inp k < distance_at inp (k + 1)
      → distance_at inp (k + 1) ≤ distance_at inp k + 19195
      → bilateral_filter inp para_inf ≡ none
  unfolding bilateral_filter bilateral_round window_around
  bilateral_filter-overflow inp para_inf k h in_circle in_range lo hi =
      let n = inp.vailtidy_point_num in
      let temp = temp_dists_data inp in
      let now = get_or-temp_dists_data inp k (omega arith) in
      let shift : k + 3 ≡ k + 1 + 2 = omega arith in
      let next = ap (λ i. get_or temp i 0) shift ∙ get_or-temp_dists_data inp (k + 1) in_circle in
      rw (le→ltb n 3 h)
        (elim (Option-cases (int_of (2 * abs para_inf.sigma_d * abs para_inf.sigma_d))) [
          | inl fault ↦ rw fault
          | inr (kernel_d, e) ↦ rw e (
              rw (
                try_points_fault
                  (bilateral_round F D para_inf temp kernel_d
                    (int_of (2 * abs para_inf.sigma_r * abs para_inf.sigma_r)))
                  n 0 inp.data_points k (omega arith) (omega arith)
                  (bilateral_round-fault F D para_inf temp kernel_d
                    (int_of (2 * abs para_inf.sigma_r * abs para_inf.sigma_r)) k
                    (ap (is_valid_range para_inf) now ∙ in_range) (omega (arith, now, next))
                    (omega (arith, now, next)))))
        ])
