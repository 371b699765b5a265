-- ===== src/Reader/Stream.antt =====
-- A call of `uart_data_handle` (oradar_ros/sdk/src/ord_lidar_driver.cpp) on a buffer of whole frames.
pub mod Buffered
pub mod Split
pub mod Circles
use cqut_lgv.Common.{
  ℕ, zero, suc, ◌+◌, ◌-◌, ◌*◌, ◌/◌, ◌%◌, ◌^◌, ◌≤◌, ◌<◌, ◌≡◌, refl, sym, ap, ap₂, ◌∙◌, Bool, true,
  false, Option, some, List, [], ◌∷◌, ◌++◌, arith, ltb, lt→ltb, le→ltb, ==_iff, inl, inr, Option,
  none, if◌then◌else◌, Bool-cases, length, take, drop, length-append, take-append_le,
  drop-append_add, All,
}
use cqut_lgv.Common.Int.{ℤ}
use cqut_lgv.Floats.{Floats}
use cqut_lgv.Crc.{crc8}
use cqut_lgv.Protocol.{
  Point, LidarPoint, LidarFrame, head_flag_none, head_flag_ok, version_none, version_ms200,
  frame_of_bytes,
}
use cqut_lgv.Protocol.Layout.{
  put_u16, put_points, frame_bytes, frame_of_bytes-frame_bytes, length-frame_bytes,
}
use cqut_lgv.Reader.{
  Reader, find_wrap, sub_size, store_package, publish_one, append_points, close_package,
  finish_package, publish_full, parse_header, reset_flags, point_data_parse_frame_ms200,
}
use cqut_lgv.Reader.Loop.{
  Round, return, continue, find_header, sync_header, search_from, sync_round, round, handle_loop,
  uart_data_handle, version_round, frame_round, after_frame, accept_frame, crc_ok,
}
use cqut_lgv.Reader.Resync.{
  at_frame, stored, round_enter, sync_round_long, handle_loop_return, uart_data_handle_loop,
}
use cqut_lgv.Reader.Stream.Buffered.{with_buf, store_package-with_buf}

-- A frame as the lidar sends it: header, length, twelve points and the right checksum.
pub record IsSent (f : LidarFrame) : Type 0 where
  pub header : f.header ≡ 0x54
  pub ver_len : f.ver_len ≡ 0x2C
  pub points : length f.point ≡ 12
  pub checked : crc8 (take 46 (frame_bytes f [])) ≡ f.crc8

-- Frames one behind the other, in front of what follows.
abbrev pub frames_bytes : List LidarFrame → List ℕ → List ℕ
frames_bytes [] rest = rest
frames_bytes (f ∷ fs) rest = frame_bytes f (frames_bytes fs rest)

pub length-frames_bytes :
    (fs : List LidarFrame) (rest : List ℕ)
    → All IsSent fs
    → length (frames_bytes fs rest) ≡ 47 * length fs + length rest
length-frames_bytes [] rest sent = omega arith
length-frames_bytes (f ∷ fs) rest sent = omega (
  arith,
  length-frame_bytes f (frames_bytes fs rest) sent.0.points,
  length-frames_bytes fs rest sent.1,
)

put_points-append :
    (ps : List LidarPoint) (xs ys : List ℕ) → put_points ps (xs ++ ys) ≡ put_points ps xs ++ ys
unfolding put_points
put_points-append [] xs ys = refl
put_points-append (p ∷ ps) xs ys =
    ap (λ bs. p.distance % 256 ∷ p.distance / 256 ∷ p.confidence ∷ bs) (put_points-append ps xs ys)

pub frame_bytes-append :
    (f : LidarFrame) (rest : List ℕ) → frame_bytes f rest ≡ frame_bytes f [] ++ rest
unfolding frame_bytes
frame_bytes-append f rest =
    ap (λ bs. f.header ∷ f.ver_len ∷ put_u16 f.speed (put_u16 f.start_angle bs))
      (put_points-append f.point (put_u16 f.end_angle (put_u16 f.timestamp (f.crc8 ∷ []))) rest)

module _ (f : LidarFrame) (sent : IsSent f) (rest : List ℕ) where
  pub crc_ok-sent : crc_ok (frame_bytes f rest) ≡ true
  unfolding crc_ok
  crc_ok-sent = (==_iff _ _).1 (
      ap (λ bs. crc8 (take 46 bs)) (frame_bytes-append f rest)
      ∙ (ap crc8 (
            take-append_le (frame_bytes f []) rest 46
              (omega (arith, length-frame_bytes f [] sent.points)))
          ∙ (sent.checked
              ∙ sym (ap (λ pkg. pkg.crc8) (frame_of_bytes-frame_bytes f rest sent.points)))))

  pub drop-sent : drop 47 (frame_bytes f rest) ≡ rest
  drop-sent =
      ap (drop 47) (frame_bytes-append f rest)
      ∙ drop-append_add (frame_bytes f []) rest 0 47
          (omega (arith, length-frame_bytes f [] sent.points))

-- The state after frames have been stored one by one.
abbrev pub run_frames : {F D : Type 0} ⦃fl : Floats F D⦄ → List LidarFrame → Reader F D → Reader F D
run_frames [] r = r
run_frames (f ∷ fs) r = run_frames fs (stored f r)

module _ {F D : Type 0} ⦃fl : Floats F D⦄ where
  module _ (f : LidarFrame) (sent : IsSent f) (rest : List ℕ) (r : Reader F D) where
    -- The reader when it has the frame in front of other bytes.
    abbrev there : Reader F D
    there = at_frame (frame_bytes f rest) r

    -- Storing the frame leaves the other bytes.
    accept_frame-sent : accept_frame there ≡ with_buf rest (stored f r)
    unfolding accept_frame reset_flags parse_header
    accept_frame-sent =
        ap (λ pkg. reset_flags 47 (store_package pkg (parse_header pkg there)))
          (frame_of_bytes-frame_bytes f rest sent.points)
        ∙ (ap (reset_flags 47) (
              store_package-with_buf f (parse_header f (at_frame (frame_bytes f []) r))
                (frame_bytes f rest))
            ∙ ap (λ bs. with_buf bs (stored f r)) (drop-sent f sent rest))

    sync_header-sent :
        r.parsed_data.head_flag ≡ head_flag_none
        → sync_header (with_buf (frame_bytes f rest) r) ≡ (0, there)
    unfolding sync_header find_header frame_bytes
    sync_header-sent unset =
        ap (λ flag. search_from flag (with_buf (frame_bytes f rest) r)) unset
        ∙ rw (sent.header, sent.ver_len) refl

    -- A round whose search ends at the frame stores it, and ends by what is left behind it.
    pub round-found :
        (at k : ℕ) (buf : List ℕ)
        → at < sub_size (length buf) 2
        → sync_header (with_buf buf r) ≡ (k, there)
        → round at (with_buf buf r) ≡ after_frame k (with_buf rest (stored f r))
    unfolding frame_round version_round
    round-found at k buf enter found =
        round_enter at (with_buf buf r) enter
        ∙ (ap sync_round found
            ∙ (sync_round_long k there (omega (arith, length-frame_bytes f rest sent.points))
                ∙ (rw (crc_ok-sent f sent rest) refl ∙ ap (after_frame k) accept_frame-sent)))

    -- A round with the frame at the front.
    round-sent :
        (at : ℕ)
        → at < 45 + length rest
        → length rest ≤ 4700
        → r.parsed_data.head_flag ≡ head_flag_none
        → round at (with_buf (frame_bytes f rest) r) ≡ after_frame 0 (with_buf rest (stored f r))
    round-sent at enter small unset =
        round-found at 0 (frame_bytes f rest) (omega (arith, length-frame_bytes f rest sent.points))
          (sync_header-sent unset)

  pub handle_loop_continue :
      (fuel at at' : ℕ) (r r' : Reader F D)
      → round at r ≡ continue at' r'
      → handle_loop (suc fuel) at r ≡ handle_loop fuel at' r'
  unfolding handle_loop
  handle_loop_continue fuel at at' r r' e =
      ap (λ o. elim o [ return b t ↦ some (b, t) | continue at'' t ↦ handle_loop fuel at'' t ]) e

  pub after_frame_short :
      (at : ℕ) (r : Reader F D) → length r.bin_buf < 47 → after_frame at r ≡ return true r
  unfolding after_frame
  after_frame_short at r h = rw (lt→ltb (length r.bin_buf) 47 h) refl

  pub after_frame_long :
      (at : ℕ) (r : Reader F D) → 47 ≤ length r.bin_buf → after_frame at r ≡ continue at r
  unfolding after_frame
  after_frame_long at r h = rw (le→ltb (length r.bin_buf) 47 h) refl

  pub head_flag-stored :
      (f : LidarFrame) (r : Reader F D) → (stored f r).parsed_data.head_flag ≡ head_flag_none
  unfolding reset_flags
  head_flag-stored f r = refl

  pub head_flag-run_frames :
      (fs : List LidarFrame) (r : Reader F D)
      → r.parsed_data.head_flag ≡ head_flag_none
      → (run_frames fs r).parsed_data.head_flag ≡ head_flag_none
  head_flag-run_frames [] r unset = unset
  head_flag-run_frames (f ∷ fs) r unset =
      head_flag-run_frames fs (stored f r) (head_flag-stored f r)

  -- The loop stores every whole frame in the buffer, and stops at what is shorter than a frame, if the
  -- `pos` that it is entered with leaves it a round.
  pub handle_loop-sent :
      (fuel at : ℕ) (f : LidarFrame) (fs : List LidarFrame) (rest : List ℕ) (r : Reader F D)
      → All IsSent (f ∷ fs)
      → length rest < 47
      → length fs < fuel
      → length fs ≤ 99
      → at < 45 + 47 * length fs + length rest
      → r.parsed_data.head_flag ≡ head_flag_none
      → handle_loop fuel at (with_buf (frames_bytes (f ∷ fs) rest) r)
        ≡ some (true, with_buf rest (run_frames (f ∷ fs) r))
  handle_loop-sent zero at f fs rest r sent short enough few enter unset = absurd (omega arith)
  handle_loop-sent (suc fuel) at f [] rest r sent short enough few enter unset =
      handle_loop_return at (with_buf (frame_bytes f rest) r) fuel true (with_buf rest (stored f r))
        (round-sent f sent.0 rest r at (omega arith) (omega arith) unset
          ∙ after_frame_short 0 _ short)
  handle_loop-sent (suc fuel) at f (g ∷ gs) rest r sent short enough few enter unset =
      let len = length-frames_bytes (g ∷ gs) rest sent.1 in
      let next = with_buf (frames_bytes (g ∷ gs) rest) (stored f r) in
      handle_loop_continue fuel at 0 (with_buf (frames_bytes (f ∷ g ∷ gs) rest) r) next (
        round-sent f sent.0 (frames_bytes (g ∷ gs) rest) r at (omega (arith, len))
          (omega (arith, len)) unset
        ∙ after_frame_long 0 next (omega (arith, len)))
      ∙ handle_loop-sent fuel 0 g gs rest (stored f r) sent.1 short (omega arith) (omega arith)
          (omega arith) (head_flag-stored f r)

  -- A call that completes frames stores all of them, in order, and keeps the start of the next one. If
  -- it completes none, the bytes wait.
  pub uart_data_handle-sent :
      (fs : List LidarFrame) (rest bytes : List ℕ) (r : Reader F D)
      → All IsSent fs
      → r.bin_buf ++ bytes ≡ frames_bytes fs rest
      → length rest < 47
      → length (r.bin_buf ++ bytes) ≤ 4700
      → r.parsed_data.head_flag ≡ head_flag_none
      → (b : Bool) × (uart_data_handle bytes r ≡ some (b, with_buf rest (run_frames fs r)))
  unfolding uart_data_handle
  uart_data_handle-sent [] rest bytes r sent e short small unset = (
    false,
    rw (lt→ltb (length (r.bin_buf ++ bytes)) 47 (omega (arith, ap length e)))
        (ap (λ buf. some (false, with_buf buf r)) e),
  )
  uart_data_handle-sent (f ∷ fs) rest bytes r sent e short small unset =
      let len = length-frames_bytes (f ∷ fs) rest sent in
      (
        true,
        uart_data_handle_loop bytes (frames_bytes (f ∷ fs) rest) r e (omega (arith, len))
              (omega (arith, ap length e))
            ∙ handle_loop-sent (suc (length (frames_bytes (f ∷ fs) rest))) 0 f fs rest r sent short
                (omega (arith, len)) (omega (arith, ap length e, len)) (omega arith) unset,
      )
