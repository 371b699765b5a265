-- ===== src/Filter/Smooth.antt =====
-- `smooth_filter`, oradar_ros/sdk/src/filters/FullScanFilter.cpp.
pub mod Near
use cqut_lgv.Common.{
  ℕ, zero, suc, ◌+◌, ◌-◌, ◌/◌, ◌%◌, ◌^◌, Bool, Option, none, some, List, [], ◌∷◌, ltb, ◌==◌,
  if◌then◌else◌, get_or, replicate,
}
use cqut_lgv.Common.Int.{sub_ℕ, abs}
use cqut_lgv.Floats.{Floats}
use cqut_lgv.Protocol.{ScanData, zero_point}
use cqut_lgv.Filter.Base.{FilterPara, is_valid_range, for_points}
use cqut_lgv.Filter.Sort.{bubble_sort}

abbrev pub window_size : ℕ
window_size = 5

abbrev pub dis_threshold : ℕ
dis_threshold = 40

-- The loop over the window: how many of its distances count, and their sum. Zeros do not, nor does
-- what is 40 or more away from the point in the middle.
unfoldable pub add_window : ℕ → List ℕ → ℕ × ℕ → ℕ × ℕ
add_window centre [] acc = acc
add_window centre (d ∷ ds) (cnt, sum_value) = add_window centre ds (
    if d == 0
    then (cnt, sum_value)
    else if ltb (abs (sub_ℕ centre d)) dis_threshold
    then (cnt + 1, sum_value + d)
    else (cnt, sum_value))

-- The assignment behind the loop: an integer division, stored as `uint16_t`.
unfoldable pub mean : ℕ × ℕ → Option ℕ
mean (cnt, sum_value) = if cnt == 0 then none else some (sum_value / cnt % 2 ^ 16)

module _ {F D : Type 0} ⦃fl : Floats F D⦄ where
  -- `in.data[i].distance`
  abbrev pub distance_at : ScanData F D → ℕ → ℕ
  distance_at inp i = (get_or inp.data_points i (zero_point D)).distance

  -- `in.data[i + j - 2].distance` for j = 0, ..., 4, where i is at least 2.
  abbrev pub window_at : ScanData F D → ℕ → List ℕ
  window_at inp i =
      distance_at inp (i + 0 - 2)
      ∷ distance_at inp (i + 1 - 2)
      ∷ distance_at inp (i + 2 - 2)
      ∷ distance_at inp (i + 3 - 2)
      ∷ distance_at inp (i + 4 - 2)
      ∷ []

  -- `data_fifo` of the round `i`, sorted: every entry is read at `i - 2`. It is not read afterwards.
  unfoldable pub data_fifo : ScanData F D → ℕ → List ℕ
  unfolding bubble_sort
  data_fifo inp i = bubble_sort (replicate window_size (distance_at inp (i - 2))) window_size

  -- The round for the point `i`.
  unfoldable pub smooth_round : ScanData F D → FilterPara → ℕ → Option ℕ
  unfolding is_valid_range add_window mean
  smooth_round inp para_inf i =
      if is_valid_range para_inf (distance_at inp i)
      then mean (add_window (distance_at inp i) (window_at inp i) (0, 0))
      else none

  unfoldable pub smooth_filter : ScanData F D → FilterPara → ScanData F D
  unfolding smooth_round for_points
  smooth_filter inp para_inf =
      let count = inp.vailtidy_point_num in
      if ltb count window_size then inp else record inp {
        data_points =
            for_points (smooth_round inp para_inf) (count - window_size / 2 - window_size / 2)
              (window_size / 2) inp.data_points;
      }
