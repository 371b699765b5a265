-- ===== src/Filter/Bilateral/Padding.antt =====
-- What `bilateral_filter` of oradar_ros/sdk/src/filters/FullScanFilter.cpp pads a circle with.
use cqut_lgv.Common.{
  ℕ, zero, suc, ◌+◌, ◌-◌, ◌≤◌, ◌<◌, ◌≡◌, refl, ◌∙◌, inl, inr, ◌⊎◌, List, arith, ltb, ltb→lt, ltb→ge,
  Bool-cases, length, get_or, set, replicate, length-set, length-replicate, get_or-set_self,
  get_or-set_ne,
}
use cqut_lgv.Floats.{Floats}
use cqut_lgv.Protocol.{ScanData}
use cqut_lgv.Filter.Smooth.{distance_at}
use cqut_lgv.Filter.Bilateral.{copy_dists, pad_dists, temp_dists_data}

-- The four writes of the loop that pads.
abbrev four_sets : List ℕ → ℕ → ℕ → ℕ → ℕ → ℕ → List ℕ
four_sets base n a b c d = set (set (set (set base 0 a) (n + 0) b) 1 c) (n + 1) d

length-four_sets : (base : List ℕ) (n a b c d : ℕ) → length (four_sets base n a b c d) ≡ length base
length-four_sets base n a b c d =
    length-set (set (set (set base 0 a) (n + 0) b) 1 c) (n + 1) d
    ∙ length-set (set (set base 0 a) (n + 0) b) 1 c
    ∙ length-set (set base 0 a) (n + 0) b
    ∙ length-set base 0 a

four_sets_first :
    (base : List ℕ) (n a b c d : ℕ)
    → 2 < n
    → n < length base
    → get_or (four_sets base n a b c d) 0 0 ≡ a
four_sets_first base n a b c d h room =
    get_or-set_ne (set (set (set base 0 a) (n + 0) b) 1 c) (n + 1) 0 d 0 (omega arith)
    ∙ get_or-set_ne (set (set base 0 a) (n + 0) b) 1 0 c 0 (omega arith)
    ∙ get_or-set_ne (set base 0 a) (n + 0) 0 b 0 (omega arith)
    ∙ get_or-set_self base 0 a 0 (omega arith)

four_sets_second :
    (base : List ℕ) (n a b c d : ℕ)
    → 2 < n
    → n < length base
    → get_or (four_sets base n a b c d) 1 0 ≡ c
four_sets_second base n a b c d h room =
    get_or-set_ne (set (set (set base 0 a) (n + 0) b) 1 c) (n + 1) 1 d 0 (omega arith)
    ∙ get_or-set_self (set (set base 0 a) (n + 0) b) 1 c 0
        (omega (arith, length-set (set base 0 a) (n + 0) b, length-set base 0 a))

four_sets_rest :
    (base : List ℕ) (n a b c d k : ℕ)
    → 2 < n
    → n + 1 < k
    → get_or (four_sets base n a b c d) k 0 ≡ get_or base k 0
four_sets_rest base n a b c d k h lo =
    get_or-set_ne (set (set (set base 0 a) (n + 0) b) 1 c) (n + 1) k d 0 (omega arith)
    ∙ get_or-set_ne (set (set base 0 a) (n + 0) b) 1 k c 0 (omega arith)
    ∙ get_or-set_ne (set base 0 a) (n + 0) k b 0 (omega arith)
    ∙ get_or-set_ne base 0 k a 0 (omega arith)

get_or-replicate : (n k : ℕ) → get_or {A = ℕ} (replicate n 0) k 0 ≡ 0
get_or-replicate zero k = refl
get_or-replicate (suc n) zero = refl
get_or-replicate (suc n) (suc k) = get_or-replicate n k

module _ {F D : Type 0} ⦃fl : Floats F D⦄ (inp : ScanData F D) where
  -- The loop that copies leaves the places outside its range alone.
  copy_dists_outside :
      (rounds i : ℕ) (temp : List ℕ) (k : ℕ)
      → (k < i + 2) ⊎ (i + rounds + 2 ≤ k)
      → get_or (copy_dists inp rounds i temp) k 0 ≡ get_or temp k 0
  unfolding copy_dists
  copy_dists_outside zero i temp k h = refl
  copy_dists_outside (suc rounds) i temp k h =
      copy_dists_outside rounds (suc i) (set temp (i + 2) (distance_at inp i)) k (omega arith)
      ∙ get_or-set_ne temp (i + 2) k (distance_at inp i) 0 (omega arith)

  -- Inside its range it stores the distances.
  copy_dists_inside :
      (rounds i : ℕ) (temp : List ℕ) (k : ℕ)
      → i ≤ k
      → k < i + rounds
      → i + rounds + 2 ≤ length temp
      → get_or (copy_dists inp rounds i temp) (k + 2) 0 ≡ distance_at inp k
  unfolding copy_dists
  copy_dists_inside zero i temp k lo hi room = absurd (omega arith)
  copy_dists_inside (suc rounds) i temp k lo hi room = elim (Bool-cases (ltb i k)) [
    | inl lt ↦
        copy_dists_inside rounds (suc i) (set temp (i + 2) (distance_at inp i)) k (ltb→lt _ _ lt)
          (omega arith) (omega (arith, length-set temp (i + 2) (distance_at inp i)))
    | inr ge ↦
        let e : i ≡ k = omega (arith, ltb→ge _ _ ge) in
        copy_dists_outside rounds (suc i) (set temp (i + 2) (distance_at inp i)) (k + 2)
          (inl (omega arith))
        ∙ rw e (get_or-set_self temp (k + 2) (distance_at inp k) 0 (omega arith))
  ]

  pub get_or-temp_dists_data :
      (k : ℕ)
      → k < inp.vailtidy_point_num
      → get_or (temp_dists_data inp) (k + 2) 0 ≡ distance_at inp k
  unfolding temp_dists_data pad_dists
  get_or-temp_dists_data k h =
      let n = inp.vailtidy_point_num in
      copy_dists_inside n 0 _ k (omega arith) (omega arith) (
        omega (
          arith,
          length-four_sets (replicate (n + 4) 0) n _ _ _ _,
          length-replicate {A = ℕ} (n + 4) 0,
        ))

  -- In a circle of at least three points, the buffer holds the last two distances, then all of them,
  -- then two zeros: the first two distances, stored behind the end of the circle, are lost.
  pub temp_dists_data-padding :
      (k : ℕ)
      → 2 < inp.vailtidy_point_num
      → k < inp.vailtidy_point_num
      → (get_or (temp_dists_data inp) 0 0 ≡ distance_at inp (inp.vailtidy_point_num - 2))
        × (get_or (temp_dists_data inp) 1 0 ≡ distance_at inp (inp.vailtidy_point_num - 1))
        × (get_or (temp_dists_data inp) (k + 2) 0 ≡ distance_at inp k)
        × (get_or (temp_dists_data inp) (inp.vailtidy_point_num + 2) 0 ≡ 0)
        × (get_or (temp_dists_data inp) (inp.vailtidy_point_num + 3) 0 ≡ 0)
  unfolding temp_dists_data pad_dists
  temp_dists_data-padding k h in_circle =
      let n = inp.vailtidy_point_num in
      let zeros : List ℕ = replicate (n + 4) 0 in
      let room = length-replicate {A = ℕ} (n + 4) 0 in
      (
        copy_dists_outside n 0 _ 0 (inl (omega arith))
            ∙ four_sets_first zeros n _ _ _ _ h (omega (arith, room)),
        copy_dists_outside n 0 _ 1 (inl (omega arith))
            ∙ four_sets_second zeros n _ _ _ _ h (omega (arith, room)),
        get_or-temp_dists_data k in_circle,
        copy_dists_outside n 0 _ (n + 2) (inr (omega arith))
            ∙ four_sets_rest zeros n _ _ _ _ (n + 2) h (omega arith)
            ∙ get_or-replicate (n + 4) (n + 2),
        copy_dists_outside n 0 _ (n + 3) (inr (omega arith))
            ∙ four_sets_rest zeros n _ _ _ _ (n + 3) h (omega arith)
            ∙ get_or-replicate (n + 4) (n + 3),
      )
