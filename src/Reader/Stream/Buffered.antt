-- ===== src/Reader/Stream/Buffered.antt =====
-- The buffer has no part in what storing a package does (oradar_ros/sdk/src/ord_lidar_driver.cpp).
use cqut_lgv.Common.{
  ℕ, ◌+◌, ◌≡◌, refl, ap, ◌∙◌, Option, some, List, ltb, inl, inr, Option, none, Bool-cases, take,
  drop,
}
use cqut_lgv.Floats.{Floats}
use cqut_lgv.Protocol.{Point, LidarFrame}
use cqut_lgv.Reader.{
  Reader, find_wrap, store_package, publish_one, append_points, close_package, finish_package,
  publish_full, point_data_parse_frame_ms200,
}

-- The same state with other bytes buffered.
abbrev pub with_buf : {F D : Type 0} → List ℕ → Reader F D → Reader F D
with_buf bytes r = record r { bin_buf = bytes }

module _ {F D : Type 0} ⦃fl : Floats F D⦄ where
  finish_package-with_buf :
      (w : Option ℕ × F) (r : Reader F D) (b : List ℕ)
      → finish_package w (with_buf b r) ≡ with_buf b (finish_package w r)
  unfolding finish_package publish_full
  finish_package-with_buf (some i, last) r b = refl
  finish_package-with_buf (none, last) r b = refl

  close_package-with_buf :
      (r : Reader F D) (b : List ℕ) → close_package (with_buf b r) ≡ with_buf b (close_package r)
  unfolding close_package
  close_package-with_buf r b =
      finish_package-with_buf
        (find_wrap D r.last_angle
          (take 12 (drop r.temp_data.vailtidy_point_num r.temp_data.data_points)) 0)
        r b

  publish_one-with_buf :
      (r : Reader F D) (b : List ℕ) → publish_one (with_buf b r) ≡ with_buf b (publish_one r)
  unfolding publish_one
  publish_one-with_buf r b = elim (Bool-cases (ltb r.parsed_data.point_num 200)) [
    | inl small ↦ rw small refl
    | inr large ↦ rw large refl
  ]

  append_points-with_buf :
      (points : List (Point F)) (r : Reader F D) (b : List ℕ)
      → append_points points (with_buf b r) ≡ with_buf b (append_points points r)
  unfolding append_points
  append_points-with_buf points r b = refl

  -- What is buffered has no part in storing a package.
  pub store_package-with_buf :
      (pkg : LidarFrame) (r : Reader F D) (b : List ℕ)
      → store_package pkg (with_buf b r) ≡ with_buf b (store_package pkg r)
  unfolding store_package
  store_package-with_buf pkg r b =
      elim (Bool-cases (ltb (r.temp_data.vailtidy_point_num + r.parsed_data.point_num) 4096)) [
        | inr full ↦ rw full refl
        | inl room ↦
            let points = point_data_parse_frame_ms200 {F = F} D pkg in
            rw room (
              ap (λ s. close_package (publish_one s)) (append_points-with_buf points r b)
              ∙ (ap close_package (publish_one-with_buf (append_points points r) b)
                  ∙ close_package-with_buf (publish_one (append_points points r)) b))
      ]
