-- ===== src/ScanNode/Limited.antt =====
-- What stands in the cells of a message of oradar_ros/src/oradar_scan_node.cpp.
use cqut_lgv.Common.{
  ℕ, zero, suc, ◌+◌, ◌-◌, ◌%◌, ◌^◌, ◌≡◌, ◌⊎◌, refl, inl, inr, Bool, true, false, ◌||◌, Option, none,
  some, List, [], ◌∷◌, ◌>>=◌, >>=-some, some_subst, some-ne-none, ltb, ◌==◌, Bool-cases, All,
  length, get_elem?, set, take, replicate, arith, sym, ◌∙◌,
}
use cqut_lgv.Common.Int.{pos}
use cqut_lgv.Floats.{Floats}
use cqut_lgv.Protocol.{Point, ScanData}
use cqut_lgv.ScanNode.{
  Limits, LaserScan, Cells, set_at, fill_gap, put_range, put_intensity, put_point, put_points,
  cell_index, point_range, point_intensity, is_cut, dir_angle, metres, end_points, angle_of,
  increment, empty_cells, message, publish_msg,
}

-- A cell that holds nothing, or a number with the property.
abbrev pub Filled : {F : Type 0} → (F → Type 0) → Option F → Type 0
Filled P none = Unit
Filled P (some v) = P v

module _ {F : Type 0} (P : F → Type 0) where
  All-set :
      (cells : List (Option F)) (i : ℕ) (v : Option F)
      → Filled P v
      → All (Filled P) cells
      → All (Filled P) (set cells i v)
  All-set [] i v p h = tt
  All-set (x ∷ cells) zero v p h = (p, h.1)
  All-set (x ∷ cells) (suc i) v p h = (h.0, All-set cells i v p h.1)

  set_at-All :
      (cells : List (Option F)) (i : ℕ) (v : F) (cells' : List (Option F))
      → P v
      → All (Filled P) cells
      → set_at cells i (some v) ≡ some cells'
      → All (Filled P) cells'
  unfolding set_at
  set_at-All cells i v cells' p h e = elim (Bool-cases (ltb i (length cells))) [
    | inl inside ↦
        some_subst (All (Filled P)) (set cells i (some v)) cells' (rw inside at e)
          (All-set cells i (some v) p h)
    | inr outside ↦ absurd (some-ne-none cells' (sym e ∙ rw outside refl))
  ]

  All-replicate : (n : ℕ) → All (Filled P) (replicate n none)
  All-replicate zero = tt
  All-replicate (suc n) = (tt, All-replicate n)

  fill_gap-All :
      (index : ℕ) (range intensity : F) (c c' : Cells F)
      → P range
      → All (Filled P) c.ranges
      → fill_gap index range intensity c ≡ some c'
      → All (Filled P) c'.ranges
  unfolding fill_gap
  fill_gap-All index range intensity c c' p h e =
      elim (Bool-cases ((index + 2 ^ 32 - c.last_index) % 2 ^ 32 == 2)) [
        | inr near ↦ some_subst (λ x. All (Filled P) x.ranges) c c' (rw near at e) h
        | inl gap ↦
            let before : ℕ = (index + 2 ^ 32 - 1) % 2 ^ 32 in
            let (rs, e1, e2) = >>=-some (set_at c.ranges before (some range)) _ c' (rw gap at e) in
            let (ints, e3, e4) =
              >>=-some (set_at c.intensities before (some intensity))
                (λ ints. some (record c { ranges = rs; intensities = ints })) c' e2 in
            some_subst (λ x. All (Filled P) x.ranges) (record c { ranges = rs; intensities = ints })
              c' e4 (set_at-All c.ranges before range rs p h e1)
      ]

  module _ (D : Type 0) ⦃fl : Floats F D⦄ where
    put_range-All :
        (there : Option F) (index : ℕ) (range intensity : F) (c c' : Cells F)
        → P range
        → All (Filled P) c.ranges
        → put_range D there index range intensity c ≡ some c'
        → All (Filled P) c'.ranges
    unfolding put_range
    put_range-All none index range intensity c c' p h e =
        let (rs, e1, e2) =
          >>=-some (set_at c.ranges index (some range))
            (λ rs. fill_gap index range intensity (record c { ranges = rs })) c' e in
        fill_gap-All index range intensity (record c { ranges = rs }) c' p
          (set_at-All c.ranges index range rs p h e1) e2
    put_range-All (some there) index range intensity c c' p h e =
        elim (Bool-cases (fl.flt range there)) [
          | inr farther ↦ some_subst (λ x. All (Filled P) x.ranges) c c' (rw farther at e) h
          | inl nearer ↦
              let (rs, e1, e2) =
                >>=-some (set_at c.ranges index (some range))
                  (λ rs. some (record c { ranges = rs })) c' (rw nearer at e) in
              some_subst (λ x. All (Filled P) x.ranges) (record c { ranges = rs }) c' e2
                (set_at-All c.ranges index range rs p h e1)
        ]

    put_point-All :
        (n index : ℕ) (range intensity : F) (c c' : Cells F)
        → P range
        → All (Filled P) c.ranges
        → put_point D n index range intensity c ≡ some c'
        → All (Filled P) c'.ranges
    unfolding put_point put_intensity
    put_point-All n index range intensity c c' p h e = elim (Bool-cases (ltb index n)) [
      | inr outside ↦ some_subst (λ x. All (Filled P) x.ranges) c c' (rw outside at e) h
      | inl inside ↦
          let (there, e1, e2) =
            >>=-some (get_elem? c.ranges index)
              (λ there. put_range D there index range intensity c >>= λ c1.
                put_intensity index intensity c1)
              c' (rw inside at e) in
          let (c1, e3, e4) =
            >>=-some (put_range D there index range intensity c)
              (λ c1. put_intensity index intensity c1) c' e2 in
          let (ints, e5, e6) =
            >>=-some (set_at c1.intensities index (some intensity))
              (λ ints. some (record c1 { intensities = ints; last_index = index })) c' e4 in
          some_subst (λ x. All (Filled P) x.ranges)
            (record c1 { intensities = ints; last_index = index }) c' e6
            (put_range-All there index range intensity c c1 p h e3)
    ]

    put_points-All :
        (limits : Limits D) (angle_min angle_increment : F) (n : ℕ) (ps : List (Point F))
        (c c' : Cells F)
        → ((p : Point F) → P (point_range D limits p))
        → All (Filled P) c.ranges
        → put_points D limits angle_min angle_increment n ps c ≡ some c'
        → All (Filled P) c'.ranges
    unfolding put_points
    put_points-All limits angle_min angle_increment n [] c c' good h e =
        some_subst (λ x. All (Filled P) x.ranges) c c' e h
    put_points-All limits angle_min angle_increment n (p ∷ ps) c c' good h e =
        let index = cell_index D limits angle_min angle_increment p in
        let (c1, e1, e2) =
          >>=-some (put_point D n index (point_range D limits p) (point_intensity D limits p) c)
            (put_points D limits angle_min angle_increment n ps) c' e in
        put_points-All limits angle_min angle_increment n ps c1 c' good
          (put_point-All n index (point_range D limits p) (point_intensity D limits p) c c1 (good p)
            h e1)
          e2

or-both-false : (a b c d : Bool) → ((a || b) || (c || d)) ≡ false → (a ≡ false) × (b ≡ false)
or-both-false true b c d h = absurd (ground arith)
or-both-false false true c d h = absurd (ground arith)
or-both-false false false c d h = (refl, refl)

module _ {F D : Type 0} ⦃fl : Floats F D⦄ where
  -- A range that is zero, or inside the limits.
  abbrev pub IsLimited : Limits D → F → Type 0
  IsLimited limits v =
      (v ≡ fl.float_of (pos 0))
      ⊎ ((fl.dlt limits.max_range (fl.widen v) ≡ false)
          × (fl.dlt (fl.widen v) limits.min_range ≡ false))

  point_range-IsLimited :
      (limits : Limits D) (p : Point F) → IsLimited limits (point_range D limits p)
  unfolding point_range is_cut
  point_range-IsLimited limits p = elim (Bool-cases (is_cut D limits p (metres D p))) [
    | inl cut ↦ rw cut (inl refl)
    | inr kept ↦ rw kept (
        inr (
          or-both-false _ _ (fl.dlt (fl.widen (dir_angle D limits p)) limits.angle_min)
            (fl.dlt limits.angle_max (fl.widen (dir_angle D limits p))) kept))
  ]

  -- Every range that is published is zero or inside the limits of the parameters; the other cells hold
  -- no number.
  pub publish_msg-IsLimited :
      (limits : Limits D) (frame_id : List ℕ) (start scan_time : D) (scan_frame : ScanData F D)
      (msg : LaserScan F D)
      → publish_msg D limits frame_id start scan_time scan_frame ≡ some msg
      → All (Filled (IsLimited limits)) msg.ranges
  unfolding publish_msg empty_cells
  publish_msg-IsLimited limits frame_id start scan_time scan_frame msg e =
      let n = scan_frame.vailtidy_point_num in
      let ps = take n scan_frame.data_points in
      let (ends, e1, e2) =
        >>=-some (end_points D scan_frame)
          (λ ends.
            put_points D limits (angle_of D ends.0) (increment D n ends.0 ends.1) n ps
              (empty_cells D n)
            >>= λ c. some (message D limits frame_id start scan_time n ends.0 ends.1 c))
          msg e in
      let (c, e3, e4) =
        >>=-some
          (put_points D limits (angle_of D ends.0) (increment D n ends.0 ends.1) n ps
            (empty_cells D n))
          (λ c. some (message D limits frame_id start scan_time n ends.0 ends.1 c)) msg e2 in
      some_subst (λ m. All (Filled (IsLimited limits)) m.ranges)
        (message D limits frame_id start scan_time n ends.0 ends.1 c) msg e4
        (put_points-All (IsLimited limits) D limits (angle_of D ends.0)
          (increment D n ends.0 ends.1) n ps (empty_cells D n) c (point_range-IsLimited limits)
          (All-replicate (IsLimited limits) n) e3)
