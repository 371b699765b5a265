-- ===== src/Tests/Messages.antt =====
-- The messages of the node: oradar_ros/src/oradar_scan_node.cpp.
use cqut_lgv.Common.{◌≡◌, ◌⊎◌, refl, true, Option, none, some, [], ◌∷◌, length, arith}
use cqut_lgv.Common.Int.{ℤ, pos, negsuc}
use cqut_lgv.Floats.Fixed.{fixed}
use cqut_lgv.ScanNode.{Limits, LaserScan, publish_msg}
use cqut_lgv.ScanNode.Ranges.{publish_msg-inside}
use cqut_lgv.Tests.Samples.{sample_scan}

abbrev pub wide : Limits ℤ
wide = record {
  clockwise = true;
  angle_min = negsuc 179999;
  angle_max = pos 180000;
  min_range = pos 50;
  max_range = pos 20000;
}

publish_msg-inside_example :
    (((sample_scan (100 ∷ 200 ∷ [])).vailtidy_point_num ≡ 0)
      × (publish_msg ℤ wide [] (pos 0) (pos 100) (sample_scan (100 ∷ 200 ∷ [])) ≡ none))
    ⊎ ((msg : LaserScan ℤ ℤ) × (publish_msg ℤ wide []
            (pos 0)
            (pos 100)
            (sample_scan (100 ∷ 200 ∷ []))
          ≡ some msg)
        × (length msg.ranges ≡ 2)
        × (length msg.intensities ≡ 2))
publish_msg-inside_example =
    publish_msg-inside wide [] (pos 0) (pos 100) (sample_scan (100 ∷ 200 ∷ [])) (omega arith)
      (omega arith)

-- The message for a scan of two points.
abbrev published : Option (LaserScan ℤ ℤ)
unfolding publish_msg
published = publish_msg ℤ wide [] (pos 0) (pos 100) (sample_scan (100 ∷ 200 ∷ []))

abbrev message_of : Option (LaserScan ℤ ℤ) → LaserScan ℤ ℤ
message_of (some msg) = msg
message_of none = record {
  stamp = pos 0;
  frame_id = [];
  angle_min = pos 0;
  angle_max = pos 0;
  angle_increment = pos 0;
  scan_time = pos 0;
  time_increment = pos 0;
  range_min = pos 0;
  range_max = pos 0;
  ranges = [];
  intensities = [];
}

publish_msg_runs :
    publish_msg ℤ wide [] (pos 0) (pos 100) (sample_scan (100 ∷ 200 ∷ []))
    ≡ some (message_of published)
unfolding publish_msg published
publish_msg_runs = refl
