-- ===== src/Filter/Tail/Faults.antt =====
-- When `tail_filter` of oradar_ros/sdk/src/filters/FullScanFilter.cpp reads outside its array.
use cqut_lgv.Common.{
  ℕ, zero, suc, ◌+◌, ◌-◌, ◌≤◌, ◌<◌, ◌≡◌, ◌≢◌, ◌⊎◌, ◌↔◌, inl, inr, false, none, arith, ltb, ltb→ge,
  ltb→lt, lt→ltb, le→ltb, ◌==◌, Bool-cases, length, get_elem?, get_elem?-eq-get_or,
  get_elem?-ne-none, >>=-ne-none, some-ne-none,
}
use cqut_lgv.Floats.{Floats}
use cqut_lgv.Protocol.{ScanData, zero_point}
use cqut_lgv.Filter.Base.{FilterPara, try_points, try_points_fault, try_points_defined}
use cqut_lgv.Filter.Smooth.{distance_at}
use cqut_lgv.Filter.Tail.{tail_inner, tail_sum, tail_range, tail_round, tail_filter, read_before}

module _ {F D : Type 0} ⦃fl : Floats F D⦄ (inp : ScanData F D) (para_inf : FilterPara) where
  -- The first two points have no neighbour two places before them.
  tail_sum_early : (i range : ℕ) → i < 2 → tail_sum inp para_inf i range ≡ none
  unfolding tail_sum tail_inner read_before
  tail_sum_early i range h = rw (lt→ltb i 2 h)

  tail_inner_defined :
      (i m range n : ℕ)
      → m ≤ i
      → i + m < length inp.data_points
      → tail_inner inp para_inf i m range n ≢ none
  unfolding tail_inner read_before
  tail_inner_defined i m range n lo hi = rw (le→ltb i m lo) (
      >>=-ne-none (get_elem? inp.data_points (i - m)) _
        (get_elem?-ne-none inp.data_points (i - m) (omega arith))
        (λ left.
          >>=-ne-none (get_elem? inp.data_points (i + m)) _
            (get_elem?-ne-none inp.data_points (i + m) hi) (λ right. some-ne-none _)))

  tail_sum_defined :
      (i range : ℕ) → 2 ≤ i → i + 2 < length inp.data_points → tail_sum inp para_inf i range ≢ none
  unfolding tail_sum
  tail_sum_defined i range lo hi =
      >>=-ne-none (tail_inner inp para_inf i 2 range 0) _ (tail_inner_defined i 2 range 0 lo hi)
        (λ n. tail_inner_defined i 1 range n (omega arith) (omega arith))

  tail_range_defined :
      (i range : ℕ)
      → (range ≡ 0) ⊎ (2 ≤ i)
      → i + 2 < length inp.data_points
      → tail_range inp para_inf i range ≢ none
  unfolding tail_range
  tail_range_defined i range h hi = elim (Bool-cases (range == 0)) [
    | inl z ↦ rw z (some-ne-none none)
    | inr nz ↦ rw nz (
        >>=-ne-none (tail_sum inp para_inf i range) _ (tail_sum_defined i range (ground arith) hi)
          (λ n. some-ne-none _))
  ]

  tail_round_defined :
      (i : ℕ)
      → (distance_at inp i ≡ 0) ⊎ (2 ≤ i)
      → i + 2 < length inp.data_points
      → tail_round inp para_inf i ≢ none
  unfolding tail_round
  tail_round_defined i h hi =
      rw (get_elem?-eq-get_or inp.data_points i (zero_point D) (omega arith))
        (tail_range_defined i (distance_at inp i) h hi)

  tail_round_early :
      (i : ℕ)
      → i < 2
      → i < length inp.data_points
      → distance_at inp i ≢ 0
      → tail_round inp para_inf i ≡ none
  unfolding tail_round tail_range
  tail_round_early i h hi nz = rw (get_elem?-eq-get_or inp.data_points i (zero_point D) hi) (
      let test : (distance_at inp i == 0) ≡ false = ground arith in
      rw (test, tail_sum_early i (distance_at inp i) h))

  -- One of the first two points of the scan has a distance.
  abbrev pub StartsEarly : Type 0
  StartsEarly = (distance_at inp 0 ≢ 0) ⊎ ((1 < inp.vailtidy_point_num) × (distance_at inp 1 ≢ 0))

  tail_filter-none :
      (k : ℕ)
      → k < inp.vailtidy_point_num
      → tail_round inp para_inf k ≡ none
      → tail_filter inp para_inf ≡ none
  unfolding tail_filter
  tail_filter-none k h e =
      let test : (inp.vailtidy_point_num == 0) ≡ false = ground arith in
      rw (
        test,
        try_points_fault (tail_round inp para_inf) inp.vailtidy_point_num 0 inp.data_points k
            (omega arith) (omega arith) e,
      )

  tail_filter-defined :
      inp.vailtidy_point_num + 2 ≤ length inp.data_points
      → ((i : ℕ) → i < 2 → i < inp.vailtidy_point_num → distance_at inp i ≡ 0)
      → tail_filter inp para_inf ≢ none
  unfolding tail_filter
  tail_filter-defined room zeros = elim (Bool-cases (inp.vailtidy_point_num == 0)) [
    | inl z ↦ rw z (some-ne-none inp)
    | inr nz ↦ rw nz (
        >>=-ne-none (try_points (tail_round inp para_inf) inp.vailtidy_point_num 0 inp.data_points)
          _
          (try_points_defined (tail_round inp para_inf) inp.vailtidy_point_num 0 inp.data_points
            (λ k lo hi. tail_round_defined k (split k hi) (omega arith)))
          (λ points. some-ne-none _))
  ]
    where
      split : (k : ℕ) → k < 0 + inp.vailtidy_point_num → (distance_at inp k ≡ 0) ⊎ (2 ≤ k)
      split k hi = elim (Bool-cases (ltb k 2)) [
        | inl lt ↦ inl (zeros k (ltb→lt k 2 lt) (omega arith))
        | inr ge ↦ inr (ltb→ge k 2 ge)
      ]

  zeros :
      distance_at inp 0 ≡ 0
      → (distance_at inp 1 ≡ 0) ⊎ (inp.vailtidy_point_num ≤ 1)
      → (i : ℕ) → i < 2
      → i < inp.vailtidy_point_num
      → distance_at inp i ≡ 0
  zeros d0 d1 zero h hi = d0
  zeros d0 d1 (suc zero) h hi = elim d1 [ inl e ↦ e | inr one ↦ absurd (omega arith) ]
  zeros d0 d1 (suc (suc i)) h hi = absurd (omega arith)

  -- On a scan that holds points, with room for two more in its array, the tail filter reads in front
  -- of the array exactly when one of the scan's first two points has a distance that is not zero; in
  -- every other case it gives a result.
  pub tail_filter-faults_iff :
      0 < inp.vailtidy_point_num
      → inp.vailtidy_point_num + 2 ≤ length inp.data_points
      → (tail_filter inp para_inf ≡ none) ↔ StartsEarly
  tail_filter-faults_iff some_points room = (
    only,
    λ early. elim early [
      | inl d0 ↦ tail_filter-none 0 some_points (tail_round_early 0 (omega arith) (omega arith) d0)
      | inr (h, d1) ↦ tail_filter-none 1 h (tail_round_early 1 (omega arith) (omega arith) d1)
    ],
  )
    where
      only : tail_filter inp para_inf ≡ none → StartsEarly
      only e = elim (Bool-cases (distance_at inp 0 == 0)) [
        | inr d0 ↦ inl (ground arith)
        | inl d0 ↦ elim (Bool-cases (ltb 1 inp.vailtidy_point_num)) [
          | inr one ↦ absurd (
              tail_filter-defined room
                (zeros (ground arith) (inr (ltb→ge 1 inp.vailtidy_point_num one))) e)
          | inl two ↦ elim (Bool-cases (distance_at inp 1 == 0)) [
            | inr d1 ↦ inr (ltb→lt _ _ two, ground arith)
            | inl d1 ↦
                absurd (tail_filter-defined room (zeros (ground arith) (inl (ground arith))) e)
          ]
        ]
      ]
