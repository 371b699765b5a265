-- ===== src/Tests/Filters.antt =====
-- The filters on small scans.
use cqut_lgv.Common.{
  ℕ, zero, suc, All, ◌<◌, ◌≡◌, ◌↔◌, ◌⊎◌, refl, none, List, [], ◌∷◌, get_or, arith,
}
use cqut_lgv.Common.Int.{ℤ}
use cqut_lgv.Floats.Fixed.{fixed}
use cqut_lgv.Protocol.{zero_point}
use cqut_lgv.Filter.{filter}
use cqut_lgv.Filter.Base.{default_para, is_valid_range}
use cqut_lgv.Filter.Sort.{bubble_sort}
use cqut_lgv.Filter.Sort.Laws.{IsSorted, count, bubble_sort-IsSorted}
use cqut_lgv.Filter.Smooth.{distance_at, smooth_filter}
use cqut_lgv.Filter.Smooth.Near.{Smoothed, Fits16, smooth_filter-Smoothed}
use cqut_lgv.Filter.Tail.{tail_filter}
use cqut_lgv.Filter.Tail.Faults.{StartsEarly, tail_filter-faults_iff}
use cqut_lgv.Filter.Bilateral.{temp_dists_data, bilateral_filter}
use cqut_lgv.Filter.Bilateral.Padding.{temp_dists_data-padding}
use cqut_lgv.Filter.Bilateral.Overflow.{bilateral_filter-overflow}
use cqut_lgv.Filter.Frame.{IsStrategy, KeepsFrame, filter-KeepsFrame}
use cqut_lgv.Tests.Samples.{sample_scan, roomy_scan}

-- Six points, of which the fourth is near the others.
abbrev bumpy : List ℕ
bumpy = 100 ∷ 100 ∷ 110 ∷ 130 ∷ 100 ∷ 100 ∷ []

sample_scan-Fits16 : (ds : List ℕ) → All (λ d. d < 65536) ds → Fits16 (sample_scan ds)
sample_scan-Fits16 [] h i = omega arith
sample_scan-Fits16 (d ∷ ds) h zero = h.0
sample_scan-Fits16 (d ∷ ds) h (suc i) = sample_scan-Fits16 ds h.1 i

bumpy-Fits16 : Fits16 (sample_scan bumpy)
bumpy-Fits16 = sample_scan-Fits16 bumpy (ground arith)

smooth_filter_run : distance_at (smooth_filter (sample_scan bumpy) default_para) 3 ≡ 108
unfolding smooth_filter
smooth_filter_run = refl

smooth_filter-Smoothed_example :
    Smoothed default_para
      (get_or (sample_scan bumpy).data_points 3 (zero_point ℤ))
      (get_or (smooth_filter (sample_scan bumpy) default_para).data_points 3 (zero_point ℤ))
smooth_filter-Smoothed_example =
    smooth_filter-Smoothed (sample_scan bumpy) default_para 3 bumpy-Fits16 (omega arith)

filter-KeepsFrame_example :
    (IsStrategy default_para.filter_type
      × KeepsFrame (sample_scan bumpy) (smooth_filter (sample_scan bumpy) default_para))
    ⊎ ((¬ IsStrategy default_para.filter_type)
        × (smooth_filter (sample_scan bumpy) default_para ≡ sample_scan []))
unfolding filter
filter-KeepsFrame_example =
    filter-KeepsFrame (sample_scan bumpy) default_para (sample_scan [])
      (smooth_filter (sample_scan bumpy) default_para) refl

bilateral_filter-overflow_example : bilateral_filter (sample_scan bumpy) default_para ≡ none
unfolding is_valid_range
bilateral_filter-overflow_example =
    bilateral_filter-overflow (sample_scan bumpy) default_para 1 (omega arith) (omega arith) refl
      (omega arith) (omega arith)

temp_dists_data-padding_example :
    (get_or (temp_dists_data (sample_scan bumpy)) 0 0 ≡ 100)
    × (get_or (temp_dists_data (sample_scan bumpy)) 1 0 ≡ 100)
    × (get_or (temp_dists_data (sample_scan bumpy)) 5 0 ≡ 130)
    × (get_or (temp_dists_data (sample_scan bumpy)) 8 0 ≡ 0)
    × (get_or (temp_dists_data (sample_scan bumpy)) 9 0 ≡ 0)
temp_dists_data-padding_example =
    temp_dists_data-padding (sample_scan bumpy) 3 (omega arith) (omega arith)

tail_filter-faults_iff_example :
    (tail_filter (roomy_scan bumpy) default_para ≡ none)
    ↔ StartsEarly (roomy_scan bumpy) default_para
tail_filter-faults_iff_example =
    tail_filter-faults_iff (roomy_scan bumpy) default_para (omega arith) (omega arith)

bubble_sort-IsSorted_example :
    IsSorted (bubble_sort (3 ∷ 1 ∷ 2 ∷ []) 3)
    × ((v : ℕ) → count v (bubble_sort (3 ∷ 1 ∷ 2 ∷ []) 3) ≡ count v (3 ∷ 1 ∷ 2 ∷ []))
bubble_sort-IsSorted_example = bubble_sort-IsSorted (3 ∷ 1 ∷ 2 ∷ [])
