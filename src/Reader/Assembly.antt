-- ===== src/Reader/Assembly.antt =====
-- The full scans that ord_lidar_driver.cpp assembles, against a description of the stream of points:
-- a circle ends where the angle falls by more than one degree.
use cqut_lgv.Common.{
  ℕ, zero, suc, ◌+◌, ◌-◌, ◌%◌, ◌^◌, ◌≤◌, ◌<◌, ◌≡◌, inl, inr, refl, sym, ap, ap₂, subst, ◌∙◌, false,
  Option, none, some, List, [], ◌∷◌, ◌++◌, arith, if◌then◌else◌, Bool-cases, length, take, drop,
  get_or, copy_into, length-take, length-drop, length-append, take-append_add, drop-append_add,
  get_or-append_add, take-append_all, take-append_le, drop-append_le, get_or-append_lt,
}
use cqut_lgv.Common.Int.{pos}
use cqut_lgv.Floats.{Floats}
use cqut_lgv.Protocol.{Point, ScanData, zero_point}
use cqut_lgv.Reader.{Reader, find_wrap, publish_full, finish_package}

-- The points that a scan holds.
abbrev pub contents : {F D : Type 0} → ScanData F D → List (Point F)
contents s = take s.vailtidy_point_num s.data_points

module _ {F : Type 0} (D : Type 0) ⦃fl : Floats F D⦄ where
  -- The points up to the first wrap, and those from it on.
  unfoldable pub split_wrap : F → List (Point F) → Option (List (Point F) × List (Point F))
  split_wrap last [] = none
  split_wrap last (p ∷ ps) =
      if fl.flt (fl.float_of (pos 1)) (fl.fsub last p.angle)
      then some ([], p ∷ ps)
      else elim (split_wrap p.angle ps) [
        | none ↦ none
        | some (before, after) ↦ some (p ∷ before, after)
      ]

  -- The angle of the last point, or `last`.
  unfoldable pub last_angle_of : F → List (Point F) → F
  last_angle_of last [] = last
  last_angle_of last (p ∷ ps) = last_angle_of p.angle ps

  -- What `find_wrap` says in terms of `split_wrap`.
  abbrev pub Splits : F → List (Point F) → ℕ → Option ℕ × F → Type 0
  Splits last ps i (none, last') = (split_wrap last ps ≡ none) × (last' ≡ last_angle_of last ps)
  Splits last ps i (some k, last') =
      (i ≤ k) × (k < i + length ps) × (split_wrap last ps ≡ some (take (k - i) ps, drop (k - i) ps))

  split_wrap_later :
      (last : F) (p : Point F) (ps : List (Point F)) (i : ℕ) (w : Option ℕ × F)
      → fl.flt (fl.float_of (pos 1)) (fl.fsub last p.angle) ≡ false
      → Splits p.angle ps (suc i) w
      → Splits last (p ∷ ps) i w
  unfolding split_wrap last_angle_of
  split_wrap_later last p ps i (none, last') t (e, e') = (rw (t, e), e')
  split_wrap_later last p ps i (some k, last') t (le, lt, e) =
      let k_eq : k - i ≡ suc (k - suc i) = omega arith in
      (omega arith, omega arith, rw (t, e, k_eq))

  pub find_wrap-Splits :
      (last : F) (ps : List (Point F)) (i : ℕ) → Splits last ps i (find_wrap D last ps i)
  unfolding find_wrap split_wrap last_angle_of
  find_wrap-Splits last [] i = (refl, refl)
  find_wrap-Splits last (p ∷ ps) i =
      elim (Bool-cases (fl.flt (fl.float_of (pos 1)) (fl.fsub last p.angle))) [
        | inl t ↦
            let k_eq : i - i ≡ 0 = omega arith in rw t (omega arith, omega arith, rw (t, k_eq))
        | inr t ↦ rw t (
            split_wrap_later last p ps i (find_wrap D p.angle ps (suc i)) t
              (find_wrap-Splits p.angle ps (suc i)))
      ]

-- The stream of points as it is cut into circles: the circle in progress and the last angle seen.
pub record Assembly (F : Type 0) : Type 0 where
  pub segment : List (Point F)
  pub last : F

module _ {F : Type 0} (D : Type 0) ⦃fl : Floats F D⦄ where
  abbrev pub absorb_split :
      Option (List (Point F) × List (Point F))
      → List (Point F)
      → Assembly F
      → Option (List (Point F)) × Assembly F
  absorb_split none points a =
      (none, record { segment = a.segment ++ points; last = last_angle_of D a.last points })
  absorb_split (some (before, after)) points a =
      (some (a.segment ++ before), record { segment = after; last = last_angle_of D a.last points })

  -- A package extends the circle in progress. If it holds a wrap, the circle ends there, and the
  -- points from the wrap on start the next one.
  unfoldable pub absorb : List (Point F) → Assembly F → Option (List (Point F)) × Assembly F
  absorb points a = absorb_split (split_wrap D a.last points) points a

  -- The assembly that a state of the driver holds.
  abbrev pub assembly_of : Reader F D → Assembly F
  assembly_of r = record { segment = contents r.temp_data; last = r.last_angle }

  -- What the driver's state shows after a package, given what the stream does.
  abbrev pub Shows : Reader F D → Reader F D → Option (List (Point F)) × Assembly F → Type 0
  Shows r r' (none, a) = (assembly_of r' ≡ a) × (r'.full_scan_data ≡ r.full_scan_data)
  Shows r r' (some circle, a) = (assembly_of r' ≡ a) × (contents r'.full_scan_data ≡ circle)

module _ {ℓ} {A : Type ℓ} (segment points rest : List A) where
  -- The array after a package, cut at the end of it and at a point of it.
  take_package :
      (k : ℕ)
      → k ≡ length segment + length points
      → take k (segment ++ (points ++ rest)) ≡ segment ++ points
  take_package k e =
      take-append_add segment (points ++ rest) (length points) k e
      ∙ ap (◌++◌ segment) (take-append_all points rest (length points) refl)

  module _ (i k : ℕ) (e : k ≡ length segment + i) (le : i ≤ length points) where
    take_circle : take k (segment ++ (points ++ rest)) ≡ segment ++ take i points
    take_circle =
        take-append_add segment (points ++ rest) i k e
        ∙ ap (◌++◌ segment) (take-append_le points rest i le)

    drop_circle : drop k (segment ++ (points ++ rest)) ≡ drop i points ++ rest
    drop_circle = drop-append_add segment (points ++ rest) i k e ∙ drop-append_le points rest i le

    -- The finished circle, and the start of the next one, as they are copied.
    copied_circle :
        (full : List A)
        → take k (copy_into full 0 (take k (segment ++ (points ++ rest))))
          ≡ segment ++ take i points
    copied_circle full = rw take_circle (
        take-append_all (segment ++ take i points) _ k
          (omega (arith, length-append segment (take i points), length-take i points)))

    copied_rest :
        (m : ℕ) (old : List A)
        → m ≡ length points - i
        → take m (copy_into old 0 (take m (drop k (segment ++ (points ++ rest))))) ≡ drop i points
    copied_rest m old em =
        rw
          (
            drop_circle,
            take-append_all (drop i points) rest m (omega (arith, em, length-drop i points)),
          )
          (take-append_all (drop i points) _ m (omega (arith, em, length-drop i points)))

module _ {F : Type 0} (D : Type 0) ⦃fl : Floats F D⦄ where
  last_angle_of-get_or :
      (last : F) (points : List (Point F)) (m : ℕ) (d : Point F)
      → length points ≡ suc m
      → (get_or points m d).angle ≡ last_angle_of D last points
  unfolding last_angle_of
  last_angle_of-get_or last [] m d e = absurd (omega arith)
  last_angle_of-get_or last (p ∷ []) zero d e = refl
  last_angle_of-get_or last (p ∷ q ∷ ps) zero d e = absurd (omega arith)
  last_angle_of-get_or last (p ∷ []) (suc m) d e = absurd (omega arith)
  last_angle_of-get_or last (p ∷ q ∷ ps) (suc m) d e =
      last_angle_of-get_or p.angle (q ∷ ps) m d (omega arith)

abbrev pub assembled : {F : Type 0} → List (Point F) → F → Assembly F
assembled points last = record { segment = points; last = last }

module _ {F D : Type 0} ⦃fl : Floats F D⦄ where
  pub finish_package-Shows :
      (r : Reader F D) (segment points rest : List (Point F)) (w : Option ℕ × F)
      → r.temp_data.data_points ≡ segment ++ (points ++ rest)
      → length segment ≡ r.temp_data.vailtidy_point_num
      → length points ≡ 12
      → length segment + 12 < 4096
      → r.parsed_data.point_num ≡ 12
      → Splits D r.last_angle points 0 w
      → Shows D r (finish_package w r) (absorb D points (assembled segment r.last_angle))
  unfolding finish_package absorb publish_full
  finish_package-Shows r segment points rest (none, last) layout n p room twelve (e, e') =
      subst
        (λ s.
          Shows D r (finish_package (none, last) r)
            (absorb_split D s points (assembled segment r.last_angle)))
        (sym e)
        (ap₂ assembled (rw layout (take_package segment points rest _ (omega arith))) e', refl)
  finish_package-Shows r segment points rest (some k, last) layout n p room twelve (le, lt, e) =
      subst
        (λ s.
          Shows D r (finish_package (some k, last) r)
            (absorb_split D s points (assembled segment r.last_angle)))
        (sym e)
        (
          ap₂ assembled
              (rw (layout, k_eq)
                (copied_rest segment points rest k (num + k) (omega arith) (omega arith) (12 - k) _
                  (omega arith)))
              (rw layout (
                ap (λ q. q.angle) (get_or-append_add segment (points ++ rest) 11 _ d (omega arith))
                ∙ (ap (λ q. q.angle) (get_or-append_lt points rest 11 d (omega arith))
                    ∙ last_angle_of-get_or D r.last_angle points 11 d p))),
          rw (layout, fits, k_eq)
              (copied_circle segment points rest k (num + k) (omega arith) (omega arith) _),
        )
    where
      num : ℕ
      num = r.temp_data.vailtidy_point_num

      d : Point F
      d = zero_point D

      k_eq : k - 0 ≡ k
      k_eq = omega arith

      fits : (num + k) % 2 ^ 16 ≡ num + k
      fits = omega arith
