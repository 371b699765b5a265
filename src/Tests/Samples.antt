-- ===== src/Tests/Samples.antt =====
-- The inputs of the tests: frames as a device sends them (oradar_ros/sdk/src/ordlidar_protocol.h), and
-- small scans.
use cqut_lgv.Common.{ℕ, suc, List, [], ◌∷◌, ◌++◌, replicate}
use cqut_lgv.Common.Int.{ℤ, pos}
use cqut_lgv.Protocol.{ScanData, LidarFrame}

-- Twelve equal points between 10 and 20 degrees.
abbrev pub sample_frame : LidarFrame
sample_frame = record {
  header = 0x54;
  ver_len = 0x2C;
  speed = 3600;
  start_angle = 1000;
  point = replicate 12 (record { distance = 300; confidence = 50 });
  end_angle = 2000;
  timestamp = 7;
  crc8 = 110;
}

abbrev pub sample_scan : List ℕ → ScanData ℤ ℤ
sample_scan [] = record { data_points = []; vailtidy_point_num = 0; speed = pos 10000 }
sample_scan (d ∷ ds) =
    let rest = sample_scan ds in
    record rest {
      data_points = record { distance = d; intensity = 5; angle = pos 90000 } ∷ rest.data_points;
      vailtidy_point_num = suc rest.vailtidy_point_num;
    }

-- A scan in an array with room for two more points.
abbrev pub roomy_scan : List ℕ → ScanData ℤ ℤ
roomy_scan ds =
    let scan = sample_scan ds in
    record scan {
      data_points =
          scan.data_points ++ replicate 2 (record { distance = 0; intensity = 0; angle = pos 0 });
    }

-- The first six bytes of the sample frame, and those behind the seventh.
abbrev pub sample_before : List ℕ
sample_before = 0x54 ∷ 0x2C ∷ 16 ∷ 14 ∷ 232 ∷ 3 ∷ []

abbrev pub sample_after : List ℕ
sample_after =
    1 ∷ 50 ∷ 44 ∷ 1 ∷ 50 ∷ 44 ∷ 1 ∷ 50 ∷ 44 ∷ 1 ∷ 50 ∷ 44 ∷ 1 ∷ 50 ∷ 44 ∷ 1 ∷ 50 ∷ 44 ∷ 1 ∷ 50 ∷ 44
    ∷ 1 ∷ 50 ∷ 44 ∷ 1 ∷ 50 ∷ 44 ∷ 1 ∷ 50 ∷ 44 ∷ 1 ∷ 50 ∷ 44 ∷ 1 ∷ 50 ∷ 208 ∷ 7 ∷ 7 ∷ 0 ∷ 110 ∷ []
