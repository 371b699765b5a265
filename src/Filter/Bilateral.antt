-- ===== src/Filter/Bilateral.antt =====
-- `bilateral_filter`, oradar_ros/sdk/src/filters/FullScanFilter.cpp. A fault, `none`, is an `int`
-- product that overflows or an `int` division by zero. The loop's `i` is two more than the index of
-- the point that it writes.
pub mod Padding
pub mod Overflow
use cqut_lgv.Common.{
  ℕ, zero, suc, ◌+◌, ◌-◌, ◌*◌, ◌/◌, ◌%◌, ◌^◌, Bool, Option, none, some, List, [], ◌∷◌, ◌>>=◌, ltb,
  leb, ◌==◌, if◌then◌else◌, get_or, set, replicate,
}
use cqut_lgv.Common.Int.{ℤ, pos, negsuc, sub_ℕ, abs}
use cqut_lgv.Floats.{Floats}
use cqut_lgv.Protocol.{ScanData, zero_point}
use cqut_lgv.Filter.Base.{FilterPara, is_valid_range, try_points}
use cqut_lgv.Filter.Smooth.{distance_at}

abbrev pub w_r : ℕ
w_r = 2

abbrev pub filter_window_size : ℕ
filter_window_size = 3

module _ {F D : Type 0} ⦃fl : Floats F D⦄ where
  -- temp_dists_data[i + 2] = in.data[i].distance, for the rounds left from `i` on.
  unfoldable pub copy_dists : ScanData F D → ℕ → ℕ → List ℕ → List ℕ
  copy_dists inp zero i temp = temp
  copy_dists inp (suc rounds) i temp =
      copy_dists inp rounds (suc i) (set temp (i + 2) (distance_at inp i))

  -- The loop that pads: i = 0, 1 and j = w_r - i.
  unfoldable pub pad_dists : ScanData F D → ℕ → ℕ → ℕ → List ℕ → List ℕ
  pad_dists inp zero i j temp = temp
  pad_dists inp (suc rounds) i j temp =
      let n = inp.vailtidy_point_num in
      pad_dists inp rounds (suc i) (j - 1)
        (set (set temp i (distance_at inp (n - j))) (n + i) (distance_at inp i))

  -- `temp_dists_data`
  unfoldable pub temp_dists_data : ScanData F D → List ℕ
  unfolding copy_dists pad_dists
  temp_dists_data inp =
      let n = inp.vailtidy_point_num in
      copy_dists inp n 0 (pad_dists inp w_r 0 w_r (replicate (n + w_r * 2) 0))

-- An `int` that is not negative, if it does not overflow.
abbrev pub int_of : ℕ → Option ℕ
int_of n = if ltb n (2 ^ 31) then some n else none

-- `Diff_R = current_data - wins_data[j]`, a `uint16_t`.
abbrev pub diff_r : ℕ → ℕ → ℕ
diff_r current_data win = (current_data + 2 ^ 16 - win) % 2 ^ 16

module _ (F D : Type 0) ⦃fl : Floats F D⦄ where
  open fl use {narrow, float_of, double_of, fadd, fmul, dmul, ddiv, exp, sqrt}

  -- `w_spatial[i]`, where `rx[i] * rx[i]` is `square`.
  unfoldable pub spatial_weight : ℕ → ℕ → F
  spatial_weight kernel square = narrow (
      exp (
        ddiv (dmul (double_of (negsuc 0)) (sqrt (double_of (pos square))))
          (double_of (pos kernel))))

  -- `w_distance[j]`: the quotient is one of `int`s.
  unfoldable pub range_weight : Option ℕ → ℕ → Option F
  range_weight kernel_r diff = int_of (diff * diff) >>= λ square. kernel_r >>= λ kernel.
      if kernel == 0 then none else some (narrow (exp (double_of (sub_ℕ 0 (square / kernel)))))

  -- A round of the loop over the window, with the sums `w_d_sum` and `w_s_sum`.
  unfoldable pub window_step : Option ℕ → ℕ → F → ℕ → F × F → Option (F × F)
  unfolding range_weight
  window_step kernel_r current spatial win (w_d_sum, w_s_sum) =
      if win == 0
      then some (w_d_sum, w_s_sum)
      else (range_weight kernel_r (diff_r current win) >>= λ w_distance.
          let w_s = fmul spatial w_distance in
          some (fadd w_d_sum (fmul (float_of (pos win)) w_s), fadd w_s_sum w_s))

  unfoldable pub window_sum : Option ℕ → ℕ → List (F × ℕ) → F × F → Option (F × F)
  unfolding window_step
  window_sum kernel_r current [] sums = some sums
  window_sum kernel_r current ((spatial, win) ∷ rest) sums =
      window_step kernel_r current spatial win sums >>= λ sums'.
      window_sum kernel_r current rest sums'

  -- The window around temp_dists_data[k + 2], with the spatial weights.
  unfoldable pub window_around : ℕ → List ℕ → ℕ → List (F × ℕ)
  unfolding spatial_weight
  window_around kernel temp k =
      (spatial_weight kernel 4, get_or temp k 0)
      ∷ (spatial_weight kernel 1, get_or temp (k + 1) 0)
      ∷ (spatial_weight kernel 0, get_or temp (k + 2) 0)
      ∷ (spatial_weight kernel 1, get_or temp (k + 3) 0)
      ∷ (spatial_weight kernel 4, get_or temp (k + 4) 0)
      ∷ []

  -- The round that writes the point `k`, given the two kernels 2 * Sigma * Sigma; the second is
  -- computed only where it is used.
  unfoldable pub bilateral_round : FilterPara → List ℕ → ℕ → Option ℕ → ℕ → Option (Option ℕ)
  unfolding is_valid_range window_sum window_around
  bilateral_round para_inf temp kernel_d kernel_r k =
      let current = get_or temp (k + 2) 0 in
      if is_valid_range para_inf current
      then (window_sum kernel_r current (window_around kernel_d temp k)
            (fl.float_of (pos 0), fl.float_of (pos 0))
          >>= λ sums. some (some (fl.float_to_u16 (fl.fdiv sums.0 sums.1))))
      else some none

unfoldable pub bilateral_filter :
    {F D : Type 0} ⦃fl : Floats F D⦄ → ScanData F D → FilterPara → Option (ScanData F D)
unfolding temp_dists_data bilateral_round try_points
bilateral_filter {F} {D} inp para_inf =
    let n = inp.vailtidy_point_num in
    if ltb n filter_window_size
    then some inp
    else (int_of (2 * abs para_inf.sigma_d * abs para_inf.sigma_d) >>= λ kernel_d.
        try_points
          (bilateral_round F D para_inf (temp_dists_data inp) kernel_d
            (int_of (2 * abs para_inf.sigma_r * abs para_inf.sigma_r)))
          n 0 inp.data_points
        >>= λ points. some (record inp { data_points = points }))
