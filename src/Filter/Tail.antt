-- ===== src/Filter/Tail.antt =====
-- `tail_filter`, oradar_ros/sdk/src/filters/FullScanFilter.cpp. A read outside the array `data` is a
-- fault, `none`. The source adds a negative `j` to `i`; here `m` is -j.
pub mod Faults
use cqut_lgv.Common.{
  ℕ, zero, suc, ◌+◌, ◌-◌, ◌%◌, ◌^◌, Bool, true, false, ◌&&◌, Option, none, some, List, ◌>>=◌, ltb,
  leb, ◌==◌, if◌then◌else◌, length, get_elem?, get_or,
}
use cqut_lgv.Common.Int.{ℤ, pos, negsuc, sub_ℕ, abs}
use cqut_lgv.Floats.{Floats}
use cqut_lgv.Protocol.{Point, ScanData, zero_point}
use cqut_lgv.Filter.Base.{FilterPara, try_points}

module _ (F D : Type 0) ⦃fl : Floats F D⦄ where
  open fl use {decimal, double_of, dsub, dmul, ddiv, dlt}

  -- The switch over `Rotation`: `AngleResSin` and `AngleResCos`.
  unfoldable pub angle_res : ℤ → D × D
  angle_res (negsuc n) = (decimal 0 1, decimal 0 1)
  angle_res (pos r) =
      if r == 5
      then (decimal 6981260297962 15, decimal 999975630705395 15)
      else if r == 6
      then (decimal 8377482414771 15, decimal 999964908278481 15)
      else if r == 7
      then (decimal 9773688199249 15, decimal 999952236368810 15)
      else if r == 8
      then (decimal 11169874929422 15, decimal 999937615001086 15)
      else if r == 9
      then (decimal 12566039883353 15, decimal 999921044203816 15)
      else if r == 10
      then (decimal 13962180339145 15, decimal 999902524009304 15)
      else if r == 11
      then (decimal 15358293574953 15, decimal 999882054453657 15)
      else if r == 12
      then (decimal 16754376868981 15, decimal 999859635576780 15)
      else if r == 13
      then (decimal 18150427499495 15, decimal 999835267422382 15)
      else if r == 14
      then (decimal 19546442744821 15, decimal 999808950037968 15)
      else if r == 15
      then (decimal 20942419883357 15, decimal 999780683474845 15)
      else (decimal 0 1, decimal 0 1)

  -- The switch over `level`: `TanAngleThreshold` and `PointNumThreshold`.
  unfoldable pub threshold : ℤ → D × ℕ
  threshold (negsuc n) = (decimal 0 1, 0)
  threshold (pos l) =
      if l == 0
      then (decimal 140540834702391 15, 2)
      else if l == 1
      then (decimal 267949192431123 15, 2)
      else if l == 2
      then (decimal 324919696232906 15, 2)
      else if l == 3
      then (decimal 363970234266202 15, 1)
      else (decimal 0 1, 0)

  -- Whether a neighbour at the distance `other` counts as a trailing point of `range`.
  unfoldable pub is_abnormal : FilterPara → ℕ → ℕ → Bool
  unfolding angle_res threshold
  is_abnormal para_inf range other =
      let (angle_res_sin, angle_res_cos) = angle_res para_inf.rotation in
      let (tan_angle_threshold, point_num_threshold) = threshold para_inf.level in
      let tan_angle =
        ddiv (dmul (double_of (pos range)) angle_res_sin)
          (dsub (double_of (pos other)) (dmul (double_of (pos range)) angle_res_cos)) in
      let diff = abs (sub_ℕ other range) in
      ltb 20 diff
      && ltb diff 80
      && dlt tan_angle tan_angle_threshold
      && dlt (dmul (double_of (negsuc 0)) tan_angle_threshold) tan_angle

  -- What a sum of abnormal neighbours writes.
  unfoldable pub tail_write : FilterPara → ℕ → Option ℕ
  unfolding threshold
  tail_write para_inf sum_abnormal =
      if leb (threshold para_inf.level).1 sum_abnormal then some 0 else none

-- `in.data[i - m]`: an index in front of the array is a fault.
unfoldable pub read_before : {A : Type 0} → List A → ℕ → ℕ → Option A
read_before items i m = if ltb i m then none else get_elem? items (i - m)

module _ {F D : Type 0} ⦃fl : Floats F D⦄ where
  -- A round of the inner loop: both neighbours are read before anything is tested.
  unfoldable pub tail_inner : ScanData F D → FilterPara → ℕ → ℕ → ℕ → ℕ → Option ℕ
  unfolding is_abnormal read_before
  tail_inner inp para_inf i m range sum_abnormal = do
    left ← read_before inp.data_points i m
    right ← get_elem? inp.data_points (i + m)
    let left_counts = if is_abnormal F D para_inf range left.distance then 1 else 0
    let right_counts = if is_abnormal F D para_inf range right.distance then 1 else 0
    some (sum_abnormal + left_counts + right_counts)

  -- The inner loop runs with j = -2 and j = -1.
  unfoldable pub tail_sum : ScanData F D → FilterPara → ℕ → ℕ → Option ℕ
  unfolding tail_inner
  tail_sum inp para_inf i range = do
    sum_abnormal ← tail_inner inp para_inf i 2 range 0
    tail_inner inp para_inf i 1 range sum_abnormal

  unfoldable pub tail_range : ScanData F D → FilterPara → ℕ → ℕ → Option (Option ℕ)
  unfolding tail_sum tail_write
  tail_range inp para_inf i range =
      if range == 0
      then some none
      else tail_sum inp para_inf i range >>= λ n. some (tail_write F D para_inf n)

  -- The round for the point `i`. `some none` writes nothing.
  unfoldable pub tail_round : ScanData F D → FilterPara → ℕ → Option (Option ℕ)
  unfolding tail_range
  tail_round inp para_inf i =
      get_elem? inp.data_points i >>= λ p. tail_range inp para_inf i p.distance

  unfoldable pub tail_filter : ScanData F D → FilterPara → Option (ScanData F D)
  unfolding tail_round try_points
  tail_filter inp para_inf =
      if inp.vailtidy_point_num == 0
      then some inp
      else (try_points (tail_round inp para_inf) inp.vailtidy_point_num 0 inp.data_points
          >>= λ points. some (record inp { data_points = points }))
