-- ===== src/Reader/Packages.antt =====
-- What storing a package does to the scans of ord_lidar_driver.cpp.
use cqut_lgv.Common.{
  ℕ, ◌+◌, ◌<◌, ◌≡◌, refl, sym, ap, subst, ◌∙◌, true, Option, none, some, List, ◌++◌, arith, ltb,
  lt→ltb, length, take, drop, length-take, drop-append_add, take-append_all,
}
use cqut_lgv.Floats.{Floats}
use cqut_lgv.Protocol.{Point, LidarFrame}
use cqut_lgv.Reader.{
  Reader, find_wrap, publish_one, finish_package, append_points, close_package, store_package,
  point_data_parse_frame_ms200,
}
use cqut_lgv.Reader.Invariant.{
  FitsArrays, SameStream, publish_one_keeps, length-point_data_parse_frame_ms200,
}
use cqut_lgv.Reader.Assembly.{
  Assembly, assembled, absorb, assembly_of, Shows, find_wrap-Splits, finish_package-Shows,
}

-- The package's points as they stand in the array.
window {ℓ} :
    {A : Type ℓ} (segment points rest : List A) (n : ℕ)
    → n ≡ length segment
    → take (length points) (drop n (segment ++ (points ++ rest))) ≡ points
window segment points rest n e =
    ap (take (length points)) (drop-append_add segment (points ++ rest) 0 n (omega arith))
    ∙ take-append_all points rest (length points) refl

module _ {F D : Type 0} ⦃fl : Floats F D⦄ where
  close_package-Shows :
      (r : Reader F D) (segment points rest : List (Point F))
      → r.temp_data.data_points ≡ segment ++ (points ++ rest)
      → length segment ≡ r.temp_data.vailtidy_point_num
      → length points ≡ 12
      → length segment + 12 < 4096
      → r.parsed_data.point_num ≡ 12
      → Shows D r (close_package r) (absorb D points (assembled segment r.last_angle))
  unfolding close_package
  close_package-Shows r segment points rest layout n p room twelve =
      subst
        (λ ps.
          Shows D r (finish_package (find_wrap D r.last_angle ps 0) r)
            (absorb D points (assembled segment r.last_angle)))
        (sym seen)
        (finish_package-Shows r segment points rest (find_wrap D r.last_angle points 0) layout n p
          room twelve (find_wrap-Splits D r.last_angle points 0))
    where
      seen : take 12 (drop r.temp_data.vailtidy_point_num r.temp_data.data_points) ≡ points
      seen = rw (layout, ← p) (window segment points rest r.temp_data.vailtidy_point_num (sym n))

  -- The full scan is all that `Shows` compares with the state before.
  close_package_before :
      (r r' r'' : Reader F D) (w : Option (List (Point F)) × Assembly F)
      → r'.full_scan_data ≡ r.full_scan_data
      → Shows D r' r'' w
      → Shows D r r'' w
  close_package_before r r' r'' (none, a) e (h, k) = (h, k ∙ e)
  close_package_before r r' r'' (some circle, a) e h = h

  -- Where the circle has room for the 12 points of a frame, storing it does to the stream of points
  -- what the description says: the scan in progress and the last angle are those of `absorb`, and if
  -- the points hold a wrap, the full scan is the circle that ends there; otherwise it stays.
  pub store_package-Shows :
      (pkg : LidarFrame) (r : Reader F D)
      → FitsArrays r
      → length pkg.point ≡ 12
      → r.parsed_data.point_num ≡ 12
      → r.temp_data.vailtidy_point_num + 12 < 4096
      → Shows D r
          (store_package pkg r)
          (absorb D (point_data_parse_frame_ms200 D pkg) (assembly_of D r))
  unfolding store_package append_points
  store_package-Shows pkg r v p twelve room = rw fits (
      close_package_before r announced (close_package announced) _ kept.3 (
        subst
          (λ last.
            Shows D announced (close_package announced) (absorb D points (assembled segment last)))
          kept.2
          (close_package-Shows announced segment points rest (ap (λ t. t.data_points) kept.0) n len
            (omega (arith, length-take num r.temp_data.data_points))
            (ap (λ q. q.point_num) kept.1 ∙ twelve))))
    where
      num : ℕ
      num = r.temp_data.vailtidy_point_num

      points : List (Point F)
      points = point_data_parse_frame_ms200 D pkg

      len : length points ≡ 12
      len = length-point_data_parse_frame_ms200 F D pkg ∙ p

      segment : List (Point F)
      segment = take num r.temp_data.data_points

      rest : List (Point F)
      rest = drop (num + length points) r.temp_data.data_points

      announced : Reader F D
      announced = publish_one (append_points points r)

      kept : SameStream (append_points points r) announced
      kept = publish_one_keeps (append_points points r)

      n : length segment ≡ announced.temp_data.vailtidy_point_num
      n =
          omega
            (arith, length-take num r.temp_data.data_points, ap (λ t. t.vailtidy_point_num) kept.0)

      fits : ltb (num + r.parsed_data.point_num) 4096 ≡ true
      fits = lt→ltb _ _ (omega arith)
