-- ===== src/Reader/Stream/Circles.antt =====
-- The circles that ord_lidar_driver.cpp assembles from a stream of frames.
use cqut_lgv.Common.{
  ◌+◌, ◌<◌, ◌≡◌, refl, sym, ap, ◌∙◌, Option, none, some, List, [], ◌∷◌, ◌++◌, arith, length,
  length-take, append_assoc, append-nil, subst, All,
}
use cqut_lgv.Floats.{Floats}
use cqut_lgv.Protocol.{Point, LidarFrame}
use cqut_lgv.Protocol.Layout.{frame_bytes}
use cqut_lgv.Reader.{Reader, point_data_parse_frame_ms200, store_package, parse_header, reset_flags}
use cqut_lgv.Reader.Invariant.{FitsArrays, accept_frame-FitsArrays}
use cqut_lgv.Reader.Assembly.{
  Assembly, contents, absorb, absorb_split, assembly_of, Shows, split_wrap,
}
use cqut_lgv.Reader.Packages.{store_package-Shows}
use cqut_lgv.Reader.Conserve.{Joins, split_wrap-Joins}
use cqut_lgv.Reader.Resync.{at_frame, stored}
use cqut_lgv.Reader.Stream.{IsSent, run_frames, accept_frame-sent}

-- The points of all circles, one behind the other.
abbrev pub concat {ℓ} : {A : Type ℓ} → List (List A) → List A
concat [] = []
concat (xs ∷ xss) = xs ++ concat xss

-- The last of the circles, or what was there before.
abbrev pub last_circle {ℓ} : {A : Type ℓ} → A → List A → A
last_circle before [] = before
last_circle before (c ∷ cs) = last_circle c cs

abbrev pub with_circle {ℓ} : {A : Type ℓ} → Option A → List A → List A
with_circle none cs = cs
with_circle (some c) cs = c ∷ cs

module _ {F : Type 0} (D : Type 0) ⦃fl : Floats F D⦄ where
  -- The points of frames, one behind the other.
  unfoldable pub points_of : List LidarFrame → List (Point F)
  points_of [] = []
  points_of (f ∷ fs) = point_data_parse_frame_ms200 D f ++ points_of fs

  -- The circles that the points of frames complete, and what is in progress after them.
  unfoldable pub absorb_all : List LidarFrame → Assembly F → List (List (Point F)) × Assembly F
  absorb_all [] a = ([], a)
  absorb_all (f ∷ fs) a =
      let (circle, a') = absorb D (point_data_parse_frame_ms200 D f) a in
      let (circles, last) = absorb_all fs a' in (with_circle circle circles, last)

  -- Every circle has room for the points of the next frame.
  abbrev pub HasRoom : List LidarFrame → Assembly F → Type 0
  HasRoom [] a = Unit
  HasRoom (f ∷ fs) a =
      (length a.segment + 12 < 4096) × HasRoom fs (absorb D (point_data_parse_frame_ms200 D f) a).1

  absorb_conserves :
      (points : List (Point F)) (a : Assembly F) (s : Option (List (Point F) × List (Point F)))
      (circles : List (List (Point F))) (segment more : List (Point F))
      → Joins points s
      → concat circles ++ segment ≡ (absorb_split D s points a).1.segment ++ more
      → concat (with_circle (absorb_split D s points a).0 circles) ++ segment
        ≡ a.segment ++ (points ++ more)
  absorb_conserves points a none circles segment more j e = e ∙ append_assoc a.segment points more
  absorb_conserves points a (some (before, after)) circles segment more j e =
      append_assoc (a.segment ++ before) (concat circles) segment
      ∙ (ap (◌++◌ (a.segment ++ before)) e
          ∙ (append_assoc a.segment before (after ++ more)
              ∙ ap (◌++◌ a.segment)
                  (sym (append_assoc before after more) ∙ ap (λ xs. xs ++ more) j)))

  -- The circles followed by what is in progress are the circle that was in progress followed by the
  -- points of the frames.
  pub absorb_all_conserves :
      (fs : List LidarFrame) (a : Assembly F)
      → concat (absorb_all fs a).0 ++ (absorb_all fs a).1.segment ≡ a.segment ++ points_of fs
  unfolding absorb_all points_of absorb
  absorb_all_conserves [] a = sym (append-nil a.segment)
  absorb_all_conserves (f ∷ fs) a =
      let points = point_data_parse_frame_ms200 D f in
      let s = split_wrap D a.last points in
      let next = (absorb_split D s points a).1 in
      absorb_conserves points a s (absorb_all fs next).0 (absorb_all fs next).1.segment
        (points_of fs) (split_wrap-Joins D a.last points) (absorb_all_conserves fs next)

at_frame_fits :
    {F D : Type 0} (f : LidarFrame) (r : Reader F D)
    → FitsArrays r
    → FitsArrays (at_frame (frame_bytes f []) r)
at_frame_fits f r v = omega arith

module _ {F D : Type 0} ⦃fl : Floats F D⦄ where
  stored-FitsArrays :
      (f : LidarFrame) (r : Reader F D) → IsSent f → FitsArrays r → FitsArrays (stored f r)
  stored-FitsArrays f r sent v =
      let w =
        subst FitsArrays (accept_frame-sent f sent [] r)
          (accept_frame-FitsArrays (at_frame_fits f r v)) in
      record {
        temp_length = w.temp_length;
        temp_num = w.temp_num;
        full_length = w.full_length;
        full_num = w.full_num;
        one_length = w.one_length;
        one_num = w.one_num;
      }

  -- Reading the header and resetting the flags leave the scans alone.
  stored-Shows_of :
      (f : LidarFrame) (r : Reader F D) (w : Option (List (Point F)) × Assembly F)
      → Shows D r (store_package f (parse_header f (at_frame (frame_bytes f []) r))) w
      → Shows D r (stored f r) w
  unfolding reset_flags
  stored-Shows_of f r (none, a) h = h
  stored-Shows_of f r (some circle, a) h = h

  header-Shows :
      (f : LidarFrame) (r r' : Reader F D) (w : Option (List (Point F)) × Assembly F)
      → Shows D (parse_header f (at_frame (frame_bytes f []) r)) r' w
      → Shows D r r' w
  unfolding parse_header
  header-Shows f r r' (none, a) h = h
  header-Shows f r r' (some circle, a) h = h

  header_fits : (f : LidarFrame) (r : Reader F D) → FitsArrays r → FitsArrays (parse_header f r)
  unfolding parse_header
  header_fits f r v = omega arith

  stored-Shows :
      (f : LidarFrame) (r : Reader F D)
      → IsSent f
      → FitsArrays r
      → r.temp_data.vailtidy_point_num + 12 < 4096
      → Shows D r (stored f r) (absorb D (point_data_parse_frame_ms200 D f) (assembly_of D r))
  unfolding parse_header
  stored-Shows f r sent v room =
      let there = at_frame (frame_bytes f []) r in
      let w = absorb D (point_data_parse_frame_ms200 D f) (assembly_of D r) in
      stored-Shows_of f r w (
        header-Shows f r (store_package f (parse_header f there)) w (
          store_package-Shows f (parse_header f there) (header_fits f there (at_frame_fits f r v))
            sent.points refl room))

  Shows-assembly :
      (r r' : Reader F D) (w : Option (List (Point F)) × Assembly F)
      → Shows D r r' w
      → assembly_of D r' ≡ w.1
  Shows-assembly r r' (none, a) h = h.0
  Shows-assembly r r' (some circle, a) h = h.0

  Shows-circles :
      (r r' : Reader F D) (w : Option (List (Point F)) × Assembly F)
      (circles : List (List (Point F)))
      → Shows D r r' w
      → last_circle (contents r'.full_scan_data) circles
        ≡ last_circle (contents r.full_scan_data) (with_circle w.0 circles)
  Shows-circles r r' (none, a) circles h = ap (λ s. last_circle (contents s) circles) h.1
  Shows-circles r r' (some circle, a) circles h = ap (λ c. last_circle c circles) h.1

  segment_length :
      (r : Reader F D)
      → FitsArrays r
      → length (contents r.temp_data) ≡ r.temp_data.vailtidy_point_num
  segment_length r v =
      omega (arith, length-take r.temp_data.vailtidy_point_num r.temp_data.data_points)

  -- What a reader shows after frames: what the description of the stream says.
  abbrev pub Follows : List LidarFrame → Reader F D → Reader F D → Type 0
  Follows fs r r' =
      (assembly_of D r' ≡ (absorb_all D fs (assembly_of D r)).1)
      × (contents r'.full_scan_data
          ≡ last_circle (contents r.full_scan_data) (absorb_all D fs (assembly_of D r)).0)

  pub run_frames-Follows :
      (fs : List LidarFrame) (r : Reader F D)
      → All IsSent fs
      → FitsArrays r
      → HasRoom D fs (assembly_of D r)
      → Follows fs r (run_frames fs r)
  unfolding absorb_all
  run_frames-Follows [] r sent v room = (refl, refl)
  run_frames-Follows (f ∷ fs) r sent v room =
      let w = absorb D (point_data_parse_frame_ms200 D f) (assembly_of D r) in
      let shows = stored-Shows f r sent.0 v (omega (arith, segment_length r v)) in
      let e = Shows-assembly r (stored f r) w shows in
      let (segment, full) =
        run_frames-Follows fs (stored f r) sent.1 (stored-FitsArrays f r sent.0 v)
          (subst (HasRoom D fs) (sym e) room.1) in
      let later = ap (absorb_all D fs) e in
      (
        segment ∙ ap (λ q. q.1) later,
        full
            ∙ (ap (λ q. last_circle (contents (stored f r).full_scan_data) q.0) later
                ∙ Shows-circles r (stored f r) w (absorb_all D fs w.1).0 shows),
      )
