-- ===== src/Reader/Invariant.antt =====
-- The arrays of the receiving half keep their lengths, its counters stay inside them, and the two
-- flags of the parser agree (oradar_ros/sdk/src/ord_lidar_driver.cpp).
use cqut_lgv.Common.{
  ℕ, zero, suc, ◌+◌, ◌-◌, ◌≤◌, ◌<◌, ◌≡◌, ◌⊎◌, inl, inr, refl, ap, Option, none, some, List, [], ◌∷◌,
  arith, ltb, Bool-cases, length, take, drop, length-take, length-copy_into, length-replicate,
}
use cqut_lgv.Floats.{Floats}
use cqut_lgv.Protocol.{
  Point, LidarPoint, LidarFrame, head_flag_none, head_flag_ok, version_none, version_ms200,
  zero_scan, zero_point, frame_of_bytes, lidar_points,
}
use cqut_lgv.Reader.{
  Reader, init_reader, parse_points, point_data_parse_frame_ms200, find_wrap, publish_one,
  publish_full, finish_package, append_points, close_package, store_package, parse_header,
  reset_flags,
}
use cqut_lgv.Reader.Loop.{accept_frame}

-- The head flag is set exactly when a version is known.
abbrev pub IsSynced : {F D : Type 0} → Reader F D → Type 0
IsSynced r =
    ((r.parsed_data.head_flag ≡ head_flag_none) × (r.parsed_data.version ≡ version_none))
    ⊎ ((r.parsed_data.head_flag ≡ head_flag_ok) × (r.parsed_data.version ≡ version_ms200))

-- The arrays have the lengths of their declarations and the counters stay below them.
pub record FitsArrays {F D : Type 0} (r : Reader F D) : Type 0 where
  pub temp_length : length r.temp_data.data_points ≡ 4097
  pub temp_num : r.temp_data.vailtidy_point_num < 4096
  pub full_length : length r.full_scan_data.data_points ≡ 4097
  pub full_num : r.full_scan_data.vailtidy_point_num < 4096
  pub one_length : length r.one_scan_data.data_points ≡ 201
  pub one_num : r.one_scan_data.vailtidy_point_num ≤ 12

pub init_reader-FitsArrays :
    {F D : Type 0} ⦃fl : Floats F D⦄ → FitsArrays {F = F} {D = D} init_reader
unfolding init_reader zero_scan
init_reader-FitsArrays {F} {D} = record {
  temp_length = length-replicate 4097 (zero_point {F = F} D);
  temp_num = omega arith;
  full_length = length-replicate 4097 (zero_point {F = F} D);
  full_num = omega arith;
  one_length = length-replicate 201 (zero_point {F = F} D);
  one_num = omega arith;
}

module _ {F : Type 0} (D : Type 0) ⦃fl : Floats F D⦄ where
  -- A package's points number as many as the frame's.
  length-parse_points :
      (start step : F) (i : ℕ) (ps : List LidarPoint)
      → length (parse_points D start step i ps) ≡ length ps
  unfolding parse_points
  length-parse_points start step i [] = refl
  length-parse_points start step i (p ∷ ps) =
      omega (arith, length-parse_points start step (suc i) ps)

  -- The wrap, if there is one, is at one of the points looked at.
  pub find_wrap-lt :
      (last : F) (ps : List (Point F)) (i k : ℕ)
      → (find_wrap D last ps i).0 ≡ some k
      → (i ≤ k) × (k < i + length ps)
  unfolding find_wrap
  find_wrap-lt last [] i k e = absurd (ground arith)
  find_wrap-lt last (p ∷ ps) i k e = ground (arith, find_wrap-lt p.angle ps (suc i) k)

pub length-point_data_parse_frame_ms200 :
    (F D : Type 0) ⦃fl : Floats F D⦄ (pkg : LidarFrame)
    → length (point_data_parse_frame_ms200 {F = F} D pkg) ≡ length pkg.point
unfolding point_data_parse_frame_ms200
length-point_data_parse_frame_ms200 F D pkg = length-parse_points D _ _ 0 pkg.point

length-lidar_points : (n : ℕ) (bytes : List ℕ) → length (lidar_points n bytes) ≡ n
unfolding lidar_points
length-lidar_points zero bytes = refl
length-lidar_points (suc n) bytes = ap suc (length-lidar_points n (drop 3 bytes))

pub length-point-frame_of_bytes : (bytes : List ℕ) → length (frame_of_bytes bytes).point ≡ 12
unfolding frame_of_bytes
length-point-frame_of_bytes bytes = length-lidar_points 12 (drop 6 bytes)

module _ {F D : Type 0} ⦃fl : Floats F D⦄ {r : Reader F D} (v : FitsArrays r) where
  append_points-FitsArrays :
      (points : List (Point F))
      → r.temp_data.vailtidy_point_num + length points ≤ 4097
      → FitsArrays (append_points points r)
  unfolding append_points
  append_points-FitsArrays points h =
      ground (arith, length-copy_into r.temp_data.data_points r.temp_data.vailtidy_point_num points)

  publish_one-FitsArrays : r.parsed_data.point_num ≡ 12 → FitsArrays (publish_one r)
  unfolding publish_one
  publish_one-FitsArrays h =
      let some_points =
        take r.parsed_data.point_num
          (drop r.temp_data.vailtidy_point_num r.temp_data.data_points) in
      ground (
        arith,
        length-copy_into r.one_scan_data.data_points 0 some_points,
        length-take r.parsed_data.point_num
            (drop r.temp_data.vailtidy_point_num r.temp_data.data_points),
      )

  publish_full-FitsArrays :
      (i : ℕ) → i < 12 → r.temp_data.vailtidy_point_num + 12 < 4096 → FitsArrays (publish_full i r)
  unfolding publish_full
  publish_full-FitsArrays i hi h =
      let n = r.temp_data.vailtidy_point_num in
      let points = r.temp_data.data_points in
      omega (
        arith,
        length-copy_into r.full_scan_data.data_points 0 (take (n + i) points),
        length-take (n + i) points,
        length-copy_into points 0 (take (12 - i) (drop (n + i) points)),
        length-take (12 - i) (drop (n + i) points),
      )

  finish_package-FitsArrays :
      (w : Option ℕ × F)
      → ((k : ℕ) → w.0 ≡ some k → k < 12)
      → r.temp_data.vailtidy_point_num + 12 < 4096
      → r.parsed_data.point_num ≡ 12
      → FitsArrays (finish_package w r)
  unfolding finish_package
  finish_package-FitsArrays (some i, last) small h e = publish_full-FitsArrays i (small i refl) h
  finish_package-FitsArrays (none, last) small h e = omega arith

  close_package-FitsArrays :
      r.temp_data.vailtidy_point_num + 12 < 4096
      → r.parsed_data.point_num ≡ 12
      → FitsArrays (close_package r)
  unfolding close_package
  close_package-FitsArrays h e =
      let n = r.temp_data.vailtidy_point_num in
      let points = take 12 (drop n r.temp_data.data_points) in
      finish_package-FitsArrays (find_wrap D r.last_angle points 0)
        (λ k q. omega (
          arith,
          find_wrap-lt D r.last_angle points 0 k q,
          length-take 12 (drop n r.temp_data.data_points),
        ))
        h e

-- What a state shares with the one after `publish_one`.
abbrev pub SameStream : {F D : Type 0} → Reader F D → Reader F D → Type 0
SameStream r r' =
    (r'.temp_data ≡ r.temp_data)
    × (r'.parsed_data ≡ r.parsed_data)
    × (r'.last_angle ≡ r.last_angle)
    × (r'.full_scan_data ≡ r.full_scan_data)
    × (r'.bin_buf ≡ r.bin_buf)

-- The package scan and its flag are all that `publish_one` changes.
pub publish_one_keeps :
    {F D : Type 0} ⦃fl : Floats F D⦄ (r : Reader F D) → SameStream r (publish_one r)
unfolding publish_one
publish_one_keeps r = ground arith

module _ {F D : Type 0} ⦃fl : Floats F D⦄ {r : Reader F D} (v : FitsArrays r) where
  store_package-FitsArrays :
      (pkg : LidarFrame)
      → length pkg.point ≡ 12
      → r.parsed_data.point_num ≡ 12
      → FitsArrays (store_package pkg r)
  unfolding store_package append_points
  store_package-FitsArrays pkg hp e =
      let n = r.temp_data.vailtidy_point_num in
      let points = point_data_parse_frame_ms200 {F = F} D pkg in
      let r' = append_points points r in
      elim (Bool-cases (ltb (n + r.parsed_data.point_num) 4096)) [
        | inl fits ↦
            let room : n + 12 < 4096 = ground arith in
            let v' : FitsArrays r' =
              append_points-FitsArrays v points
                (omega (arith, length-point_data_parse_frame_ms200 F D pkg)) in
            rw fits (
              close_package-FitsArrays (publish_one-FitsArrays v' e)
                (ground (arith, publish_one_keeps r')) (ground (arith, publish_one_keeps r')))
        | inr full ↦ rw full (omega arith)
      ]

-- A stored frame leaves every array and counter as the declarations want them.
pub accept_frame-FitsArrays :
    {F D : Type 0} ⦃fl : Floats F D⦄ {r : Reader F D} → FitsArrays r → FitsArrays (accept_frame r)
unfolding accept_frame parse_header reset_flags
accept_frame-FitsArrays {r} v =
    let pkg = frame_of_bytes r.bin_buf in
    let v' : FitsArrays (parse_header pkg r) = omega arith in
    let s : FitsArrays (store_package pkg (parse_header pkg r)) =
      store_package-FitsArrays v' pkg (length-point-frame_of_bytes r.bin_buf) refl in
    omega arith
