-- ===== src/Filter/Smooth/Near.antt =====
-- What `smooth_filter` of oradar_ros/sdk/src/filters/FullScanFilter.cpp may do to a distance.

use native.Mathlib.Nat.{div-le_of_le-mul, le-div_iff_mul-le}
use cqut_lgv.Common.{
  ℕ, ◌+◌, ◌-◌, ◌*◌, ◌/◌, ◌%◌, ◌≤◌, ◌<◌, ◌≡◌, refl, ap, ◌⊎◌, inl, inr, true, Option, none, some,
  List, [], ◌∷◌, arith, ltb, ltb→lt, ltb→ge, ◌==◌, Bool-cases, length, get_or, All,
}
use cqut_lgv.Common.Int.{sub_ℕ, abs, abs-sub_ℕ}
use cqut_lgv.Floats.{Floats}
use cqut_lgv.Protocol.{ScanData, Point, zero_point}
use cqut_lgv.Filter.Base.{
  FilterPara, is_valid_range, replaced, for_points_inside, for_points_outside,
}
use cqut_lgv.Filter.Smooth.{add_window, mean, distance_at, window_at, smooth_round, smooth_filter}

-- The sum of `cnt` distances that are each less than 40 away from `centre` and fit 16 bits.
record IsNear (centre : ℕ) (acc : ℕ × ℕ) : Type 0 where
  low : acc.0 * centre ≤ acc.1 + acc.0 * 39
  high : acc.1 ≤ acc.0 * (centre + 39)
  fits : acc.1 ≤ acc.0 * 65535

IsNear-add :
    (centre d cnt sum_value : ℕ)
    → abs (sub_ℕ centre d) < 40
    → d < 65536
    → IsNear centre (cnt, sum_value)
    → IsNear centre (cnt + 1, sum_value + d)
IsNear-add centre d cnt sum_value h hd n = omega (arith, abs-sub_ℕ centre d)

add_window-IsNear :
    (centre : ℕ) (ds : List ℕ) (acc : ℕ × ℕ)
    → All (λ d. d < 65536) ds
    → IsNear centre acc
    → IsNear centre (add_window centre ds acc)
unfolding add_window
add_window-IsNear centre [] acc h n = n
add_window-IsNear centre (d ∷ ds) (cnt, sum_value) h n = elim (Bool-cases (d == 0)) [
  | inl z ↦ rw z (add_window-IsNear centre ds (cnt, sum_value) h.1 n)
  | inr nz ↦ elim (Bool-cases (ltb (abs (sub_ℕ centre d)) 40)) [
    | inl t ↦
        rw (nz, t)
          (add_window-IsNear centre ds (cnt + 1, sum_value + d) h.1
            (IsNear-add centre d cnt sum_value (ltb→lt _ _ t) h.0 n))
    | inr t ↦ rw (nz, t) (add_window-IsNear centre ds (cnt, sum_value) h.1 n)
  ]
]

module _ (centre cnt sum_value : ℕ) (pos_cnt : 0 < cnt) (n : IsNear centre (cnt, sum_value)) where
  mean_fits : sum_value / cnt ≤ 65535
  mean_fits = div-le_of_le-mul cnt n.fits

  mean_high : sum_value / cnt ≤ centre + 39
  mean_high = div-le_of_le-mul cnt n.high

  mean_low : centre ≤ sum_value / cnt + 39
  mean_low =
      let x = centre - 39 in
      let low : (centre ≤ 39) ⊎ (x * cnt ≤ sum_value) = near_low in
      elim low [
        | inl small ↦ omega arith
        | inr large ↦
            omega (arith, (le-div_iff_mul-le {k = cnt} {x = x} {y = sum_value} pos_cnt).1 large)
      ]
    where
      shifted : (x : ℕ) → centre ≡ x + 39 → x * cnt ≤ sum_value
      shifted x e = omega (arith, n.low, ap (λ (c : ℕ). cnt * c) e)

      near_low : (centre ≤ 39) ⊎ ((centre - 39) * cnt ≤ sum_value)
      near_low = elim (Bool-cases (ltb centre 39)) [
        | inl lt ↦ inl (omega (arith, ltb→lt centre 39 lt))
        | inr ge ↦ inr (shifted (centre - 39) (omega (arith, ltb→ge centre 39 ge)))
      ]

-- Closer than the threshold of 40.
abbrev pub Near : ℕ → ℕ → Type 0
Near d e = (d ≤ e + 39) × (e ≤ d + 39)

mean-Near : (centre q : ℕ) (acc : ℕ × ℕ) → IsNear centre acc → mean acc ≡ some q → Near q centre
unfolding mean
mean-Near centre q (cnt, sum_value) n e = elim (Bool-cases (cnt == 0)) [
  | inl z ↦ absurd (ground arith)
  | inr nz ↦
      let p : 0 < cnt = ground arith in
      let q_eq : q ≡ sum_value / cnt % 65536 = ground arith in
      omega (
        arith,
        q_eq,
        mean_fits centre cnt sum_value p n,
        mean_high centre cnt sum_value p n,
        mean_low centre cnt sum_value p n,
      )
]

-- What the filter may do to a point: move its distance by less than the threshold, and nothing at
-- all where the distance is not in the range of the parameters.
abbrev pub Smoothed : {F : Type 0} → FilterPara → Point F → Point F → Type 0
Smoothed para_inf p q =
    Near q.distance p.distance
    × (q.angle ≡ p.angle)
    × (q.intensity ≡ p.intensity)
    × ((is_valid_range para_inf p.distance ≡ true) ⊎ (q.distance ≡ p.distance))

replaced-Smoothed :
    {F : Type 0} (para_inf : FilterPara) (p : Point F) (w : Option ℕ)
    → ((q : ℕ) → w ≡ some q → Near q p.distance × (is_valid_range para_inf p.distance ≡ true))
    → Smoothed para_inf p (replaced w p)
replaced-Smoothed para_inf p none h = (omega arith, refl, refl, inr refl)
replaced-Smoothed para_inf p (some q) h =
    let (near, within) = h q refl in (near, refl, refl, inl within)

module _ {F D : Type 0} ⦃fl : Floats F D⦄ where
  -- Every distance is a `uint16_t`.
  abbrev pub Fits16 : ScanData F D → Type 0
  Fits16 inp = (i : ℕ) → distance_at inp i < 65536

  smooth_round-Near :
      (inp : ScanData F D) (para_inf : FilterPara) (i q : ℕ)
      → Fits16 inp
      → smooth_round inp para_inf i ≡ some q
      → Near q (distance_at inp i)
  unfolding smooth_round
  smooth_round-Near inp para_inf i q h e =
      elim (Bool-cases (is_valid_range para_inf (distance_at inp i))) [
        | inr out ↦ absurd (ground arith)
        | inl within ↦
            mean-Near (distance_at inp i) q
              (add_window (distance_at inp i) (window_at inp i) (0, 0))
              (add_window-IsNear (distance_at inp i) (window_at inp i) (0, 0)
                (
                  h (i + 0 - 2),
                  (h (i + 1 - 2), (h (i + 2 - 2), (h (i + 3 - 2), (h (i + 4 - 2), tt)))),
                )
                (omega arith))
              (rw within at e)
      ]

  smooth_round-valid :
      (inp : ScanData F D) (para_inf : FilterPara) (i q : ℕ)
      → smooth_round inp para_inf i ≡ some q
      → is_valid_range para_inf (distance_at inp i) ≡ true
  unfolding smooth_round
  smooth_round-valid inp para_inf i q e =
      elim (Bool-cases (is_valid_range para_inf (distance_at inp i))) [
        | inr out ↦ absurd (ground arith)
        | inl within ↦ within
      ]

  -- For a scan whose points fit its array, the smoothing filter moves every distance by less than 40,
  -- and leaves the angle and the intensity of every point; a point whose distance is not in the range
  -- of the parameters keeps its distance.
  pub smooth_filter-Smoothed :
      (inp : ScanData F D) (para_inf : FilterPara) (k : ℕ)
      → Fits16 inp
      → inp.vailtidy_point_num ≤ length inp.data_points
      → Smoothed para_inf
          (get_or inp.data_points k (zero_point D))
          (get_or (smooth_filter inp para_inf).data_points k (zero_point D))
  unfolding smooth_filter
  smooth_filter-Smoothed inp para_inf k fits room = elim (Bool-cases (ltb count 5)) [
    | inl few ↦ rw few same
    | inr enough ↦ rw enough (elim (Bool-cases (ltb k 2)) [
      | inl early ↦
          rw (for_points_outside f (count - 2 - 2) 2 inp.data_points k z (inl (ltb→lt k 2 early)))
            same
      | inr later ↦ elim (Bool-cases (ltb k (2 + (count - 2 - 2)))) [
        | inr past ↦
            rw (for_points_outside f (count - 2 - 2) 2 inp.data_points k z (inr (ltb→ge _ _ past)))
              same
        | inl inside ↦
            rw
              (for_points_inside f (count - 2 - 2) 2 inp.data_points k z (ltb→ge k 2 later)
                (ltb→lt _ _ inside) (omega (arith, ltb→lt _ _ inside, ltb→ge count 5 enough)))
              (replaced-Smoothed para_inf (get_or inp.data_points k z) (f k) (λ q e.
                (smooth_round-Near inp para_inf k q fits e, smooth_round-valid inp para_inf k q e)))
      ]
    ])
  ]
    where
      count : ℕ
      count = inp.vailtidy_point_num

      z : Point F
      z = zero_point D

      f : ℕ → Option ℕ
      f = smooth_round inp para_inf

      same : Smoothed para_inf (get_or inp.data_points k z) (get_or inp.data_points k z)
      same = (omega arith, refl, refl, inr refl)
