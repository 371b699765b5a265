-- ===== src/ScanNode/Ranges.antt =====
-- When `publish_msg` of oradar_ros/src/oradar_scan_node.cpp stays inside its arrays.
use cqut_lgv.Common.{
  ℕ, ◌+◌, ◌-◌, ◌%◌, ◌^◌, ◌≤◌, ◌<◌, ◌≡◌, ◌⊎◌, refl, inl, inr, ◌∙◌, Option, none, some, List, [], ◌∷◌,
  arith, ltb, ltb→lt, lt→ltb, ◌==◌, ==_iff, Bool-cases, Option-cases, length, get_elem?,
  get_elem?-ne-none, set, take, length-set, length-replicate,
}
use cqut_lgv.Floats.{Floats}
use cqut_lgv.Protocol.{Point, ScanData}
use cqut_lgv.ScanNode.{
  Limits, LaserScan, Cells, set_at, fill_gap, put_range, put_intensity, put_point, put_points,
  cell_index, point_range, point_intensity, end_points, angle_of, increment, empty_cells, message,
  publish_msg,
}

-- The arrays have a cell for each point, and so has the last index.
pub record FitsCells {F : Type 0} (n : ℕ) (c : Cells F) : Type 0 where
  pub ranges : length c.ranges ≡ n
  pub intensities : length c.intensities ≡ n
  pub last : c.last_index ≤ n

-- A result that keeps the arrays.
abbrev pub Keeps : {F : Type 0} → ℕ → Option (Cells F) → Type 0
Keeps {F} n m = (c : Cells F) × (m ≡ some c) × FitsCells n c

set_at_inside :
    {A : Type 0} (items : List A) (i : ℕ) (v : A)
    → i < length items
    → set_at items i v ≡ some (set items i v)
unfolding set_at
set_at_inside items i v h = rw (lt→ltb i (length items) h) refl

module _ {F : Type 0} (n : ℕ) (small : n ≤ 65535) where
  fill_gap-Keeps :
      (index : ℕ) (range intensity : F) (c : Cells F)
      → index < n
      → FitsCells n c
      → Keeps n (fill_gap index range intensity c)
  unfolding fill_gap
  fill_gap-Keeps index range intensity c h fits =
      elim (Bool-cases ((index + 2 ^ 32 - c.last_index) % 2 ^ 32 == 2)) [
        | inr near ↦ (c, rw near refl, fits)
        | inl gap ↦
            let e : (index + 2 ^ 32 - c.last_index) % 2 ^ 32 ≡ 2 = (==_iff _ _).0 gap in
            let before : ℕ = (index + 2 ^ 32 - 1) % 2 ^ 32 in
            let inside : before < n = omega (arith, e, fits.last) in
            (
              record c {
                ranges = set c.ranges before (some range);
                intensities = set c.intensities before (some intensity);
              },
              rw
                  (
                    gap,
                    set_at_inside c.ranges before (some range) (omega (arith, fits.ranges, inside)),
                    set_at_inside c.intensities before (some intensity)
                        (omega (arith, fits.intensities, inside)),
                  )
                  refl,
              record {
                ranges = length-set c.ranges before (some range) ∙ fits.ranges;
                intensities = length-set c.intensities before (some intensity) ∙ fits.intensities;
                last = fits.last;
              },
            )
      ]

  module _ (D : Type 0) ⦃fl : Floats F D⦄ where
    put_range-Keeps :
        (there : Option F) (index : ℕ) (range intensity : F) (c : Cells F)
        → index < n
        → FitsCells n c
        → Keeps n (put_range D there index range intensity c)
    unfolding put_range
    put_range-Keeps none index range intensity c h fits =
        rw (set_at_inside c.ranges index (some range) (omega (arith, fits.ranges))) (
          fill_gap-Keeps index range intensity
            (record c { ranges = set c.ranges index (some range) }) h
            (record {
              ranges = length-set c.ranges index (some range) ∙ fits.ranges;
              intensities = fits.intensities;
              last = fits.last;
            }))
    put_range-Keeps (some there) index range intensity c h fits =
        elim (Bool-cases (fl.flt range there)) [
          | inr farther ↦ (c, rw farther refl, fits)
          | inl nearer ↦ (
            record c { ranges = set c.ranges index (some range) },
            rw (nearer, set_at_inside c.ranges index (some range) (omega (arith, fits.ranges)))
                refl,
            record {
              ranges = length-set c.ranges index (some range) ∙ fits.ranges;
              intensities = fits.intensities;
              last = fits.last;
            },
          )
        ]

    put_point-Keeps :
        (index : ℕ) (range intensity : F) (c : Cells F)
        → FitsCells n c
        → Keeps n (put_point D n index range intensity c)
    unfolding put_point put_intensity
    put_point-Keeps index range intensity c fits = elim (Bool-cases (ltb index n)) [
      | inr outside ↦ (c, rw outside refl, fits)
      | inl inside ↦ elim (Option-cases (get_elem? c.ranges index)) [
        | inl missing ↦ absurd (
            get_elem?-ne-none c.ranges index (omega (arith, fits.ranges, ltb→lt _ _ inside))
              missing)
        | inr (there, found) ↦
            let (c', e, fits') =
              put_range-Keeps there index range intensity c (ltb→lt _ _ inside) fits in
            (
              record c' {
                intensities = set c'.intensities index (some intensity);
                last_index = index;
              },
              rw
                  (
                    inside,
                    found,
                    e,
                    set_at_inside c'.intensities index (some intensity)
                        (omega (arith, fits'.intensities, ltb→lt _ _ inside)),
                  )
                  refl,
              record {
                ranges = fits'.ranges;
                intensities = length-set c'.intensities index (some intensity) ∙ fits'.intensities;
                last = omega (arith, ltb→lt _ _ inside);
              },
            )
      ]
    ]

    put_points-Keeps :
        (limits : Limits D) (angle_min angle_increment : F) (ps : List (Point F)) (c : Cells F)
        → FitsCells n c
        → Keeps n (put_points D limits angle_min angle_increment n ps c)
    unfolding put_points
    put_points-Keeps limits angle_min angle_increment [] c fits = (c, refl, fits)
    put_points-Keeps limits angle_min angle_increment (p ∷ ps) c fits =
        let (c1, e1, fits1) =
          put_point-Keeps (cell_index D limits angle_min angle_increment p) (point_range D limits p)
            (point_intensity D limits p) c fits in
        let (c2, e2, fits2) = put_points-Keeps limits angle_min angle_increment ps c1 fits1 in
        (c2, rw e1 e2, fits2)

empty_cells-FitsCells :
    (F D : Type 0) ⦃fl : Floats F D⦄ (n : ℕ) → FitsCells {F = F} n (empty_cells D n)
unfolding empty_cells
empty_cells-FitsCells F D n = record {
  ranges = length-replicate n none;
  intensities = length-replicate n none;
  last = omega arith;
}

module _ {F D : Type 0} ⦃fl : Floats F D⦄ where
  -- For a scan that holds points inside its array, and no more than 65535, `publish_msg` publishes a
  -- message that has a range and an intensity for each point, without a write outside them. For an
  -- empty scan it reads in front of the array of points.
  pub publish_msg-inside :
      (limits : Limits D) (frame_id : List ℕ) (start scan_time : D) (scan_frame : ScanData F D)
      → scan_frame.vailtidy_point_num ≤ length scan_frame.data_points
      → scan_frame.vailtidy_point_num ≤ 65535
      → ((scan_frame.vailtidy_point_num ≡ 0)
          × (publish_msg D limits frame_id start scan_time scan_frame ≡ none))
        ⊎ ((msg : LaserScan F D) × (publish_msg D limits frame_id start scan_time scan_frame
              ≡ some msg)
            × (length msg.ranges ≡ scan_frame.vailtidy_point_num)
            × (length msg.intensities ≡ scan_frame.vailtidy_point_num))
  unfolding publish_msg end_points
  publish_msg-inside limits frame_id start scan_time scan_frame room small =
      let n = scan_frame.vailtidy_point_num in
      elim (Bool-cases (n == 0)) [
        | inl empty ↦ inl ((==_iff _ _).0 empty, rw empty refl)
        | inr filled ↦ elim (Option-cases (get_elem? scan_frame.data_points 0)) [
          | inl missing ↦ absurd (get_elem?-ne-none scan_frame.data_points 0 (ground arith) missing)
          | inr (first, e0) ↦ elim (Option-cases (get_elem? scan_frame.data_points (n - 1))) [
            | inl missing ↦
                absurd (get_elem?-ne-none scan_frame.data_points (n - 1) (ground arith) missing)
            | inr (last, e1) ↦
                let (c, e, fits) =
                  put_points-Keeps n small D limits (angle_of D first) (increment D n first last)
                    (take n scan_frame.data_points) (empty_cells D n)
                    (empty_cells-FitsCells F D n) in
                inr (
                  message D limits frame_id start scan_time n first last c,
                  rw (filled, e0, e1, e) refl,
                  fits.ranges,
                  fits.intensities,
                )
          ]
        ]
      ]
