-- ===== src/Filter/Frame.antt =====
-- What no filter of oradar_ros/sdk/src/filters/FullScanFilter.cpp changes.
use cqut_lgv.Common.{
  ℕ, zero, suc, ◌-◌, ◌*◌, ◌/◌, ◌≡◌, true, false, arith, refl, subst, sym, ap, ◌∙◌, inl, inr, Option,
  none, some, List, [], ◌∷◌, ◌>>=◌, map, ◌⊎◌, ltb, ◌==◌, Bool-cases, Option-cases, some-ne-none,
}
use cqut_lgv.Common.Int.{ℤ, pos, negsuc, abs, eqb_ℤ}
use cqut_lgv.Floats.{Floats}
use cqut_lgv.Protocol.{Point, ScanData}
use cqut_lgv.Filter.Base.{FilterPara, set_distance, write_distance, for_points, try_points}
use cqut_lgv.Filter.Smooth.{smooth_filter, smooth_round, window_size}
use cqut_lgv.Filter.Bilateral.{int_of, bilateral_filter}
use cqut_lgv.Filter.Tail.{tail_filter}
use cqut_lgv.Filter.Intensity.{intensity_filter, intensity_round}
use cqut_lgv.Filter.{filter, fs_smooth, fs_bilateral, fs_tail, fs_intensity}

module _ {F : Type 0} where
  -- The points without their distances.
  abbrev pub undistanced : List (Point F) → List (ℕ × F)
  undistanced ps = map (λ p. (p.intensity, p.angle)) ps

  undistanced-set_distance :
      (ps : List (Point F)) (i d : ℕ) → undistanced (set_distance ps i d) ≡ undistanced ps
  undistanced-set_distance [] i d = refl
  undistanced-set_distance (p ∷ ps) zero d = refl
  undistanced-set_distance (p ∷ ps) (suc i) d =
      ap (λ rest. (p.intensity, p.angle) ∷ rest) (undistanced-set_distance ps i d)

  undistanced-write_distance :
      (w : Option ℕ) (ps : List (Point F)) (i : ℕ)
      → undistanced (write_distance w ps i) ≡ undistanced ps
  undistanced-write_distance none ps i = refl
  undistanced-write_distance (some d) ps i = undistanced-set_distance ps i d

  undistanced-for_points :
      (f : ℕ → Option ℕ) (rounds i : ℕ) (ps : List (Point F))
      → undistanced (for_points f rounds i ps) ≡ undistanced ps
  unfolding for_points
  undistanced-for_points f zero i ps = refl
  undistanced-for_points f (suc rounds) i ps =
      undistanced-for_points f rounds (suc i) (write_distance (f i) ps i)
      ∙ undistanced-write_distance (f i) ps i

  undistanced-try_points :
      (f : ℕ → Option (Option ℕ)) (rounds i : ℕ) (ps ps' : List (Point F))
      → try_points f rounds i ps ≡ some ps'
      → undistanced ps' ≡ undistanced ps
  unfolding try_points
  undistanced-try_points f zero i ps ps' h = let e : ps' ≡ ps = cc in ap undistanced e
  undistanced-try_points f (suc rounds) i ps ps' h = elim (Option-cases (f i)) [
    | inl fault ↦ absurd (some-ne-none ps' (sym h ∙ rw fault))
    | inr (w, e) ↦
        undistanced-try_points f rounds (suc i) (write_distance w ps i) ps' (rw e at h)
        ∙ undistanced-write_distance w ps i
  ]

-- `FilterStrategy`: a type that names a filter.
abbrev pub IsStrategy : ℤ → Type 0
IsStrategy type = (type ≡ pos 0) ⊎ ((type ≡ pos 1) ⊎ ((type ≡ pos 2) ⊎ (type ≡ pos 3)))

eqb_ℤ-≡ : (a b : ℤ) → eqb_ℤ a b ≡ true → b ≡ a
eqb_ℤ-≡ (pos n) (pos m) e = ground arith
eqb_ℤ-≡ (pos n) (negsuc m) e = absurd (ground arith)
eqb_ℤ-≡ (negsuc n) (pos m) e = absurd (ground arith)
eqb_ℤ-≡ (negsuc n) (negsuc m) e = ground arith

not-IsStrategy :
    (type : ℤ)
    → eqb_ℤ fs_smooth type ≡ false
    → eqb_ℤ fs_bilateral type ≡ false
    → eqb_ℤ fs_tail type ≡ false
    → eqb_ℤ fs_intensity type ≡ false
    → ¬ IsStrategy type
not-IsStrategy (pos n) e0 e1 e2 e3 h = ground arith
not-IsStrategy (negsuc n) e0 e1 e2 e3 h = ground arith

module _ {F D : Type 0} where
  -- The same points up to their distances, the same count of points and the same speed.
  abbrev pub KeepsFrame : ScanData F D → ScanData F D → Type 0
  KeepsFrame inp out =
      (undistanced out.data_points ≡ undistanced inp.data_points)
      × (out.vailtidy_point_num ≡ inp.vailtidy_point_num)
      × (out.speed ≡ inp.speed)

module _ {F D : Type 0} ⦃fl : Floats F D⦄ where
  smooth_filter-KeepsFrame :
      (inp : ScanData F D) (para_inf : FilterPara) → KeepsFrame inp (smooth_filter inp para_inf)
  unfolding smooth_filter
  smooth_filter-KeepsFrame inp para_inf = elim (Bool-cases (ltb inp.vailtidy_point_num 5)) [
    | inl few ↦ rw few (refl, refl, refl)
    | inr enough ↦ rw enough (
      undistanced-for_points (smooth_round inp para_inf)
          (inp.vailtidy_point_num - window_size / 2 - window_size / 2) (window_size / 2)
          inp.data_points,
      refl,
      refl,
    )
  ]

  intensity_filter-KeepsFrame :
      (inp : ScanData F D) (para_inf : FilterPara) → KeepsFrame inp (intensity_filter inp para_inf)
  unfolding intensity_filter
  intensity_filter-KeepsFrame inp para_inf = elim (Bool-cases (inp.vailtidy_point_num == 0)) [
    | inl empty ↦ rw empty (refl, refl, refl)
    | inr some_points ↦ rw some_points (
      undistanced-for_points (intensity_round inp para_inf) inp.vailtidy_point_num 0
          inp.data_points,
      refl,
      refl,
    )
  ]

  result-KeepsFrame :
      (inp s out : ScanData F D) → some s ≡ some out → KeepsFrame inp s → KeepsFrame inp out
  result-KeepsFrame inp s out h kept = let e : s ≡ out = cc in subst (KeepsFrame inp) e kept

  -- A loop that may fault, stored over the points.
  try_points-KeepsFrame :
      (f : ℕ → Option (Option ℕ)) (inp out : ScanData F D)
      → (try_points f inp.vailtidy_point_num 0 inp.data_points >>= λ points.
          some (record inp { data_points = points }))
        ≡ some out
      → KeepsFrame inp out
  try_points-KeepsFrame f inp out h =
      elim (Option-cases (try_points f inp.vailtidy_point_num 0 inp.data_points)) [
        | inl fault ↦ absurd (some-ne-none out (sym h ∙ rw fault))
        | inr (points, e) ↦
            result-KeepsFrame inp (record inp { data_points = points }) out (rw e at h)
              (
                undistanced-try_points f inp.vailtidy_point_num 0 inp.data_points points e,
                refl,
                refl,
              )
      ]

  tail_filter-KeepsFrame :
      (inp : ScanData F D) (para_inf : FilterPara) (out : ScanData F D)
      → tail_filter inp para_inf ≡ some out
      → KeepsFrame inp out
  unfolding tail_filter
  tail_filter-KeepsFrame inp para_inf out h = elim (Bool-cases (inp.vailtidy_point_num == 0)) [
    | inl empty ↦ result-KeepsFrame inp inp out (rw empty at h) (refl, refl, refl)
    | inr some_points ↦ try_points-KeepsFrame _ inp out (rw some_points at h)
  ]

  bilateral_filter-KeepsFrame :
      (inp : ScanData F D) (para_inf : FilterPara) (out : ScanData F D)
      → bilateral_filter inp para_inf ≡ some out
      → KeepsFrame inp out
  unfolding bilateral_filter
  bilateral_filter-KeepsFrame inp para_inf out h =
      elim (Bool-cases (ltb inp.vailtidy_point_num 3)) [
        | inl few ↦ result-KeepsFrame inp inp out (rw few at h) (refl, refl, refl)
        | inr enough ↦
            elim (Option-cases (int_of (2 * abs para_inf.sigma_d * abs para_inf.sigma_d))) [
              | inl fault ↦ absurd (some-ne-none out (sym h ∙ rw enough (rw fault)))
              | inr (kernel_d, e) ↦ try_points-KeepsFrame _ inp out (rw e at (rw enough at h))
            ]
      ]

  -- Whatever the parameters are: if `filter` gives a result, then the type is one of the four, 0 to 3, and
  -- nothing of the input scan has changed but distances, that is, the points keep their angles and
  -- intensities, the scan its count of points and its speed; or the type is none of the four, and the
  -- output is as it was.
  pub filter-KeepsFrame :
      (inp : ScanData F D) (para_inf : FilterPara) (out out' : ScanData F D)
      → filter inp para_inf out ≡ some out'
      → (IsStrategy para_inf.filter_type × KeepsFrame inp out')
        ⊎ ((¬ IsStrategy para_inf.filter_type) × (out' ≡ out))
  unfolding filter
  filter-KeepsFrame inp para_inf out out' h =
      elim (Bool-cases (eqb_ℤ fs_smooth para_inf.filter_type)) [
        | inl smooth ↦ inl (
          inl (eqb_ℤ-≡ fs_smooth _ smooth),
          result-KeepsFrame inp (smooth_filter inp para_inf) out' (rw smooth at h)
              (smooth_filter-KeepsFrame inp para_inf),
        )
        | inr not_smooth ↦ elim (Bool-cases (eqb_ℤ fs_bilateral para_inf.filter_type)) [
          | inl bilateral ↦ inl (
            inr (inl (eqb_ℤ-≡ fs_bilateral _ bilateral)),
            bilateral_filter-KeepsFrame inp para_inf out' (rw bilateral at (rw not_smooth at h)),
          )
          | inr not_bilateral ↦ elim (Bool-cases (eqb_ℤ fs_tail para_inf.filter_type)) [
            | inl tail ↦ inl (
              inr (inr (inl (eqb_ℤ-≡ fs_tail _ tail))),
              tail_filter-KeepsFrame inp para_inf out'
                  (rw tail at (rw not_bilateral at (rw not_smooth at h))),
            )
            | inr not_tail ↦ elim (Bool-cases (eqb_ℤ fs_intensity para_inf.filter_type)) [
              | inl intensity ↦ inl (
                inr (inr (inr (eqb_ℤ-≡ fs_intensity _ intensity))),
                result-KeepsFrame inp (intensity_filter inp para_inf) out'
                    (rw intensity at (rw not_tail at (rw not_bilateral at (rw not_smooth at h))))
                    (intensity_filter-KeepsFrame inp para_inf),
              )
              | inr other ↦
                  let e : some out ≡ some out' =
                    rw other at (rw not_tail at (rw not_bilateral at (rw not_smooth at h))) in
                  inr (
                    not-IsStrategy para_inf.filter_type not_smooth not_bilateral not_tail other,
                    cc,
                  )
            ]
          ]
        ]
      ]
