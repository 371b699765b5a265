-- ===== src/Protocol.antt =====
-- oradar_ros/sdk/src/ordlidar_protocol.h: the constants, the frames on the wire and the scans.
pub mod Layout
use cqut_lgv.Common.{ℕ, zero, suc, ◌+◌, ◌*◌, List, [], ◌∷◌, get_or, drop, replicate}
use cqut_lgv.Common.Int.{pos}
use cqut_lgv.Floats.{Floats}

abbrev pub tmpbuff_size : ℕ
tmpbuff_size = 1024

abbrev pub point_circle_max_size : ℕ
point_circle_max_size = 4096

abbrev pub point_pkg_max_size : ℕ
point_pkg_max_size = 200

abbrev pub point_per_pack : ℕ
point_per_pack = 12

abbrev pub set_time_out : ℕ
set_time_out = 10

abbrev pub head_flag_word : ℕ
head_flag_word = 0xF5A5

abbrev pub head_len : ℕ
head_len = 5

abbrev pub set_rotation_speed_cmd : ℕ
set_rotation_speed_cmd = 0xA1

abbrev pub set_run_mode_cmd : ℕ
set_run_mode_cmd = 0xA2

abbrev pub write_param : ℕ
write_param = 0xC1

-- `point_data_t`
pub record Point (F : Type 0) : Type 0 where
  pub distance : ℕ
  pub intensity : ℕ
  pub angle : F

-- `frame_head_flag_t`
pub data FrameHeadFlag : Type 0 where
  head_flag_none head_flag_ok : FrameHeadFlag

-- `protocol_version_t`
pub data ProtocolVersion : Type 0 where
  version_none version_ms200 : ProtocolVersion

-- `OradarLidarPoint`
pub record LidarPoint : Type 0 where
  pub distance : ℕ
  pub confidence : ℕ

-- `OradarLidarFrame`
pub record LidarFrame : Type 0 where
  pub header : ℕ
  pub ver_len : ℕ
  pub speed : ℕ
  pub start_angle : ℕ
  pub point : List LidarPoint
  pub end_angle : ℕ
  pub timestamp : ℕ
  pub crc8 : ℕ

-- `sizeof(OradarLidarFrame)`: the structure is packed.
abbrev pub frame_size : ℕ
frame_size = 47

-- `parsed_data_st`
pub record ParsedData (F D : Type 0) : Type 0 where
  pub head_flag : FrameHeadFlag
  pub version : ProtocolVersion
  pub speed : D
  pub cmd_mode : ℕ
  pub point_num : ℕ
  pub start_angle : F
  pub end_angle : F
  pub timestamp : ℕ
  pub crc_value : ℕ

-- `full_scan_data_st` and `one_scan_data_st`, which differ in the length of `data`.
pub record ScanData (F D : Type 0) : Type 0 where
  pub data_points : List (Point F)
  pub vailtidy_point_num : ℕ
  pub speed : D

-- A byte and a little-endian 16 bit word at an offset. The casts below read inside their buffer,
-- whose length is tested before.
abbrev pub u8_at : List ℕ → ℕ → ℕ
u8_at bytes i = get_or bytes i 0

abbrev pub u16_at : List ℕ → ℕ → ℕ
u16_at bytes i = u8_at bytes i + 256 * u8_at bytes (i + 1)

abbrev pub lidar_point_at : List ℕ → LidarPoint
lidar_point_at bytes = record { distance = u16_at bytes 0; confidence = u8_at bytes 2 }

-- The array `point`, three bytes for each.
unfoldable pub lidar_points : ℕ → List ℕ → List LidarPoint
lidar_points zero bytes = []
lidar_points (suc n) bytes = lidar_point_at bytes ∷ lidar_points n (drop 3 bytes)

-- The cast `(OradarLidarFrame *)bin_buf_.data()`.
unfoldable pub frame_of_bytes : List ℕ → LidarFrame
unfolding lidar_points
frame_of_bytes bytes = record {
  header = u8_at bytes 0;
  ver_len = u8_at bytes 1;
  speed = u16_at bytes 2;
  start_angle = u16_at bytes 4;
  point = lidar_points point_per_pack (drop 6 bytes);
  end_angle = u16_at bytes 42;
  timestamp = u16_at bytes 44;
  crc8 = u8_at bytes 46;
}

-- What `memset` leaves.
abbrev pub zero_point : {F : Type 0} (D : Type 0) ⦃fl : Floats F D⦄ → Point F
zero_point D ⦃fl⦄ = record { distance = 0; intensity = 0; angle = fl.float_of (pos 0) }

unfoldable pub zero_scan : {F D : Type 0} ⦃fl : Floats F D⦄ → ℕ → ScanData F D
zero_scan {D} ⦃fl⦄ size = record {
  data_points = replicate size (zero_point D);
  vailtidy_point_num = 0;
  speed = fl.double_of (pos 0);
}
