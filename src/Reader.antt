-- ===== src/Reader.antt =====
-- The receiving half of `OrdlidarDriver`, oradar_ros/sdk/src/ord_lidar_driver.cpp:
-- `uart_data_handle` and `point_data_parse_frame_ms200`, with the members that they change. The
-- function's `static float last_angle` is a field here, and an event is the number of its `set`s.
pub mod Loop
pub mod Invariant
pub mod Total
pub mod Assembly
pub mod Packages
pub mod Conserve
pub mod Checksum
pub mod Resync
pub mod Stream
pub mod Recover
pub mod Parser
use cqut_lgv.Common.{
  ℕ, zero, suc, ◌+◌, ◌-◌, ◌*◌, ◌/◌, ◌%◌, ◌^◌, Bool, true, false, ◌&&◌, Option, none, some, List, [],
  ◌∷◌, ◌++◌, ltb, ◌==◌, if◌then◌else◌, length, get_or, take, drop, copy_into,
}
use cqut_lgv.Common.Int.{pos}
use cqut_lgv.Floats.{Floats}
use cqut_lgv.Crc.{crc8}
use cqut_lgv.Protocol.{
  Point, ScanData, ParsedData, LidarPoint, LidarFrame, FrameHeadFlag, ProtocolVersion,
  head_flag_none, head_flag_ok, version_none, version_ms200, point_per_pack, point_circle_max_size,
  point_pkg_max_size, frame_size, frame_of_bytes, zero_point, zero_scan,
}

pub record Reader (F D : Type 0) : Type 0 where
  pub bin_buf : List ℕ
  pub parsed_data : ParsedData F D
  pub full_scan_data : ScanData F D
  pub temp_data : ScanData F D
  pub one_scan_data : ScanData F D
  pub full_scan_ready : Bool
  pub one_scan_ready : Bool
  pub full_data_event : ℕ
  pub one_data_event : ℕ
  pub last_angle : F

-- `size_t` subtraction wraps.
abbrev pub sub_size : ℕ → ℕ → ℕ
sub_size a b = (a + 2 ^ 64 - b) % 2 ^ 64

-- `diff` of `point_data_parse_frame_ms200`: `uint32_t` arithmetic, in hundredths of a degree.
unfoldable pub angle_diff : ℕ → ℕ → ℕ
angle_diff start_angle end_angle = (end_angle + 36000 + 2 ^ 32 - start_angle) % 2 ^ 32 % 36000

-- `diff / (POINT_PER_PACK - 1)`, an integer division.
unfoldable pub step_hundredths : ℕ → ℕ → ℕ
unfolding angle_diff
step_hundredths start_angle end_angle = angle_diff start_angle end_angle / (point_per_pack - 1)

module _ {F : Type 0} (D : Type 0) ⦃fl : Floats F D⦄ where
  open fl use {narrow, float_of, double_of, fadd, fsub, fmul, fle, ddiv}

  -- A number of hundredths as a `float`: `x / 100.0`, narrowed.
  unfoldable pub hundredths : ℕ → F
  hundredths x = narrow (ddiv (double_of (pos x)) (double_of (pos 100)))

  -- `tmp_angle`, folded back below 360.
  unfoldable pub point_angle : F → F → ℕ → F
  point_angle start step i =
      let tmp_angle = fadd start (fmul (float_of (pos i)) step) in
      if fle (float_of (pos 360)) tmp_angle then fsub tmp_angle (float_of (pos 360)) else tmp_angle

  -- The loop of `point_data_parse_frame_ms200`, from the point `i` on.
  unfoldable pub parse_points : F → F → ℕ → List LidarPoint → List (Point F)
  unfolding point_angle
  parse_points start step i [] = []
  parse_points start step i (p ∷ ps) =
      record { distance = p.distance; intensity = p.confidence; angle = point_angle start step i }
      ∷ parse_points start step (suc i) ps

  unfoldable pub point_data_parse_frame_ms200 : LidarFrame → List (Point F)
  unfolding parse_points hundredths step_hundredths
  point_data_parse_frame_ms200 pkg =
      parse_points (hundredths pkg.start_angle)
        (hundredths (step_hundredths pkg.start_angle pkg.end_angle)) 0 pkg.point

  -- The loop over the points of a package: the first point whose angle falls by more than one degree
  -- behind `last_angle`, with the value of `last_angle` when the loop ends.
  unfoldable pub find_wrap : F → List (Point F) → ℕ → Option ℕ × F
  find_wrap last [] i = (none, last)
  find_wrap last (p ∷ ps) i =
      if fl.flt (float_of (pos 1)) (fsub last p.angle)
      then (some i, last)
      else find_wrap p.angle ps (suc i)

module _ {F D : Type 0} ⦃fl : Floats F D⦄ where
  open fl use {float_of, double_of, ddiv, flt}

  -- The constructor's values.
  unfoldable pub init_reader : Reader F D
  unfolding zero_scan
  init_reader = record {
    bin_buf = [];
    parsed_data = record {
      head_flag = head_flag_none;
      version = version_none;
      speed = double_of (pos 0);
      cmd_mode = 0;
      point_num = 0;
      start_angle = float_of (pos 0);
      end_angle = float_of (pos 0);
      timestamp = 0;
      crc_value = 0;
    };
    full_scan_data = zero_scan (point_circle_max_size + 1);
    temp_data = zero_scan (point_circle_max_size + 1);
    one_scan_data = zero_scan (point_pkg_max_size + 1);
    full_scan_ready = false;
    one_scan_ready = false;
    full_data_event = 0;
    one_data_event = 0;
    last_angle = float_of (pos 0);
  }

  -- The `point_num` new points are copied to the package scan, which is announced.
  unfoldable pub publish_one : Reader F D → Reader F D
  publish_one r =
      if ltb r.parsed_data.point_num point_pkg_max_size
      then record r {
        one_scan_data = record {
          data_points = copy_into r.one_scan_data.data_points 0 (
              take r.parsed_data.point_num
                (drop r.temp_data.vailtidy_point_num r.temp_data.data_points));
          vailtidy_point_num = r.parsed_data.point_num;
          speed = r.parsed_data.speed;
        };
        one_scan_ready = true;
        one_data_event = suc r.one_data_event;
      }
      else r

  -- A wrap at the point `i` of the package: the points before it are a full scan, announced unless it
  -- starts beyond 10 degrees, and the rest starts the next one.
  unfoldable pub publish_full : ℕ → Reader F D → Reader F D
  publish_full i r =
      let n = r.temp_data.vailtidy_point_num in
      let points = r.temp_data.data_points in
      let full = copy_into r.full_scan_data.data_points 0 (take (n + i) points) in
      let started = flt (float_of (pos 10)) (get_or full 0 (zero_point D)).angle in
      record r {
        full_scan_data = record {
          data_points = full;
          vailtidy_point_num = (n + i) % 2 ^ 16;
          speed = r.parsed_data.speed;
        };
        full_scan_ready = if started then false else true;
        full_data_event = if started then r.full_data_event else suc r.full_data_event;
        last_angle = (get_or points (n + point_per_pack - 1) (zero_point D)).angle;
        temp_data = record r.temp_data {
          data_points = copy_into points 0 (take (point_per_pack - i) (drop (n + i) points));
          vailtidy_point_num = point_per_pack - i;
        };
      }

  -- What follows the search for a wrap.
  unfoldable pub finish_package : Option ℕ × F → Reader F D → Reader F D
  unfolding publish_full
  finish_package (some i, last) r = publish_full i r
  finish_package (none, last) r = record r {
    temp_data = record r.temp_data {
      vailtidy_point_num = (r.temp_data.vailtidy_point_num + r.parsed_data.point_num) % 2 ^ 16;
    };
    last_angle = last;
  }

  -- The package's points are put behind those of the scan in progress.
  unfoldable pub append_points : List (Point F) → Reader F D → Reader F D
  append_points points r = record r {
    temp_data = record r.temp_data {
      data_points = copy_into r.temp_data.data_points r.temp_data.vailtidy_point_num points;
    };
  }

  -- The loop over `temp_data.data[vailtidy_point_num ..]`, and what follows it.
  unfoldable pub close_package : Reader F D → Reader F D
  unfolding find_wrap finish_package
  close_package r =
      finish_package
        (find_wrap D r.last_angle
          (take point_per_pack (drop r.temp_data.vailtidy_point_num r.temp_data.data_points)) 0)
        r

  -- The package is dropped, and the scan in progress with it, if the circle has no room for it.
  unfoldable pub store_package : LidarFrame → Reader F D → Reader F D
  unfolding append_points publish_one close_package point_data_parse_frame_ms200
  store_package pkg r =
      if ltb (r.temp_data.vailtidy_point_num + r.parsed_data.point_num) point_circle_max_size
      then close_package (publish_one (append_points (point_data_parse_frame_ms200 D pkg) r))
      else record r { temp_data = record r.temp_data { vailtidy_point_num = 0 } }

  unfoldable pub parse_header : LidarFrame → Reader F D → Reader F D
  unfolding hundredths
  parse_header pkg r = record r {
    parsed_data = record r.parsed_data {
      point_num = point_per_pack;
      speed = ddiv (double_of (pos pkg.speed)) (double_of (pos 360));
      start_angle = hundredths D pkg.start_angle;
      end_angle = hundredths D pkg.end_angle;
      timestamp = pkg.timestamp;
    };
  }

-- The flags are reset and `n` bytes are taken off the front of the buffer.
unfoldable pub reset_flags : {F D : Type 0} → ℕ → Reader F D → Reader F D
reset_flags n r = record r {
  parsed_data = record r.parsed_data { head_flag = head_flag_none; version = version_none };
  bin_buf = drop n r.bin_buf;
}
