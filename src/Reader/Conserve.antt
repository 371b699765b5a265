-- ===== src/Reader/Conserve.antt =====
-- No point is lost between the circles that ord_lidar_driver.cpp assembles.
use cqut_lgv.Common.{
  ◌+◌, ◌<◌, ◌≡◌, ◌⊎◌, inl, inr, refl, ap, ◌∙◌, Option, none, some, List, [], ◌∷◌, ◌++◌, Bool-cases,
  length, append_assoc,
}
use cqut_lgv.Common.Int.{pos}
use cqut_lgv.Floats.{Floats}
use cqut_lgv.Protocol.{Point, LidarFrame}
use cqut_lgv.Reader.{Reader, store_package, point_data_parse_frame_ms200}
use cqut_lgv.Reader.Invariant.{FitsArrays}
use cqut_lgv.Reader.Assembly.{contents, absorb, absorb_split, assembly_of, Shows, split_wrap}
use cqut_lgv.Reader.Packages.{store_package-Shows}

-- The two parts of a split make up the list.
abbrev pub Joins {ℓ} : {A : Type ℓ} → List A → Option (List A × List A) → Type ℓ
Joins xs none = Unit
Joins xs (some (before, after)) = before ++ after ≡ xs

Joins-cons {ℓ} :
    {A : Type ℓ} (x : A) (xs : List A) (s : Option (List A × List A))
    → Joins xs s
    → Joins (x ∷ xs) (elim s [ none ↦ none | some (before, after) ↦ some (x ∷ before, after) ])
Joins-cons x xs none h = tt
Joins-cons x xs (some (before, after)) h = ap (◌∷◌ x) h

module _ {F : Type 0} (D : Type 0) ⦃fl : Floats F D⦄ where
  pub split_wrap-Joins :
      (last : F) (points : List (Point F)) → Joins points (split_wrap D last points)
  unfolding split_wrap
  split_wrap-Joins last [] = tt
  split_wrap-Joins last (p ∷ ps) =
      elim (Bool-cases (fl.flt (fl.float_of (pos 1)) (fl.fsub last p.angle))) [
        | inl t ↦ rw t refl
        | inr t ↦ rw t (Joins-cons p ps (split_wrap D p.angle ps) (split_wrap-Joins p.angle ps))
      ]

-- The points of the scan in progress, and of the full scan in front of it if there is a new one.
abbrev pub Conserves : {F D : Type 0} → Reader F D → Reader F D → List (Point F) → Type 0
Conserves r r' points =
    ((contents r'.temp_data ≡ contents r.temp_data ++ points)
      × (r'.full_scan_data ≡ r.full_scan_data))
    ⊎ (contents r'.full_scan_data ++ contents r'.temp_data ≡ contents r.temp_data ++ points)

module _ {F D : Type 0} ⦃fl : Floats F D⦄ where
  split-Conserves :
      (r r' : Reader F D) (points : List (Point F)) (s : Option (List (Point F) × List (Point F)))
      → Joins points s
      → Shows D r r' (absorb_split D s points (assembly_of D r))
      → Conserves r r' points
  split-Conserves r r' points none j (e, k) = inl (ap (λ a. a.segment) e, k)
  split-Conserves r r' points (some (before, after)) j (e, k) = inr (
      rw (k, ap (λ a. a.segment) e)
        (append_assoc (contents r.temp_data) before after ∙ ap (◌++◌ (contents r.temp_data)) j))

  -- Where the circle has room for the 12 points of a frame, no point is lost or invented: the scan in
  -- progress followed by the frame's points is afterwards the scan in progress, with the full scan as
  -- before, or it is the full scan followed by the scan in progress.
  pub store_package-Conserves :
      (pkg : LidarFrame) (r : Reader F D)
      → FitsArrays r
      → length pkg.point ≡ 12
      → r.parsed_data.point_num ≡ 12
      → r.temp_data.vailtidy_point_num + 12 < 4096
      → Conserves r (store_package pkg r) (point_data_parse_frame_ms200 D pkg)
  unfolding absorb
  store_package-Conserves pkg r v p twelve room =
      let points = point_data_parse_frame_ms200 D pkg in
      split-Conserves r (store_package pkg r) points (split_wrap D r.last_angle points)
        (split_wrap-Joins D r.last_angle points) (store_package-Shows pkg r v p twelve room)
