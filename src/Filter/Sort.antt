-- ===== src/Filter/Sort.antt =====
-- `swap` and `BubbleSort`, oradar_ros/sdk/src/filters/FullScanFilter.cpp. The loops count `int`s, and
-- make no round where a bound is not positive.
pub mod Laws
use cqut_lgv.Common.{ℕ, zero, suc, ◌-◌, List, ltb, if◌then◌else◌, get_or, set}

unfoldable pub swap : List ℕ → ℕ → ℕ → List ℕ
swap items a b = let tmp = get_or items a 0 in set (set items a (get_or items b 0)) b tmp

-- The inner loop, with its rounds left and its index.
unfoldable pub bubble_inner : ℕ → ℕ → List ℕ → List ℕ
unfolding swap
bubble_inner zero j items = items
bubble_inner (suc rounds) j items =
    bubble_inner rounds (suc j)
      (if ltb (get_or items (suc j) 0) (get_or items j 0) then swap items j (suc j) else items)

-- The outer loop.
unfoldable pub bubble_outer : ℕ → ℕ → ℕ → List ℕ → List ℕ
unfolding bubble_inner
bubble_outer zero i len items = items
bubble_outer (suc rounds) i len items =
    bubble_outer rounds (suc i) len (bubble_inner (len - 1 - i) 0 items)

unfoldable pub bubble_sort : List ℕ → ℕ → List ℕ
unfolding bubble_outer
bubble_sort items len = bubble_outer (len - 1) 0 len items
