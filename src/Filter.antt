-- ===== src/Filter.antt =====
-- `FullScanFilter`, oradar_ros/sdk/src/filters/FullScanFilter.h and FullScanFilter.cpp: the choice of
-- a filter. Each filter has a module of its own. `none` is a fault: a read outside the array of
-- points, or `int` arithmetic that is undefined.
pub mod Base
pub mod Sort
pub mod Smooth
pub mod Intensity
pub mod Tail
pub mod Bilateral
pub mod Frame
use cqut_lgv.Common.{Option, some, if◌then◌else◌}
use cqut_lgv.Common.Int.{ℤ, pos, eqb_ℤ}
use cqut_lgv.Floats.{Floats}
use cqut_lgv.Protocol.{ScanData}
use cqut_lgv.Filter.Base.{FilterPara}
use cqut_lgv.Filter.Smooth.{smooth_filter}
use cqut_lgv.Filter.Bilateral.{bilateral_filter}
use cqut_lgv.Filter.Tail.{tail_filter}
use cqut_lgv.Filter.Intensity.{intensity_filter}

-- `FilterStrategy`
abbrev pub fs_smooth : ℤ
fs_smooth = pos 0

abbrev pub fs_bilateral : ℤ
fs_bilateral = pos 1

abbrev pub fs_tail : ℤ
fs_tail = pos 2

abbrev pub fs_intensity : ℤ
fs_intensity = pos 3

-- `filter`: what `out` holds afterwards, which was `out` before.
unfoldable pub filter :
    {F D : Type 0} ⦃fl : Floats F D⦄
    → ScanData F D
    → FilterPara
    → ScanData F D
    → Option (ScanData F D)
filter inp para_inf out =
    if eqb_ℤ fs_smooth para_inf.filter_type
    then some (smooth_filter inp para_inf)
    else if eqb_ℤ fs_bilateral para_inf.filter_type
    then bilateral_filter inp para_inf
    else if eqb_ℤ fs_tail para_inf.filter_type
    then tail_filter inp para_inf
    else if eqb_ℤ fs_intensity para_inf.filter_type
    then some (intensity_filter inp para_inf)
    else some out
