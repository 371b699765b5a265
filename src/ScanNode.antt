-- ===== src/ScanNode.antt =====
-- The ROS node, oradar_ros/src/oradar_scan_node.cpp: `publish_msg`, which is the same for ROS 1 and
-- ROS 2. A cell of a message that holds no number yet, NaN in the source, is `none`; an index outside
-- an array is a fault, the outer `none`.
pub mod Ranges
pub mod Limited
pub mod Node
pub mod Params
pub mod Published
use cqut_lgv.Common.{
  ℕ, zero, suc, ◌+◌, ◌-◌, ◌%◌, ◌^◌, Bool, true, false, ◌||◌, Option, none, some, List, [], ◌∷◌,
  ◌++◌, take, ◌>>=◌, ltb, ◌==◌, if◌then◌else◌, length, get_elem?, get_or, set, replicate,
}
use cqut_lgv.Common.Int.{ℤ, pos}
use cqut_lgv.Floats.{Floats}
use cqut_lgv.Protocol.{Point, ScanData, zero_point}
use cqut_lgv.Driver.{Driver, System, set_serial_port, new_driver}
use cqut_lgv.Driver.Device.{ChannelDevice}
use cqut_lgv.Driver.Session.{connect, disconnect}
use cqut_lgv.Driver.Commands.{set_rotation_speed}
use cqut_lgv.Driver.Grab.{grab_full_scan_blocking, get_rotation_speed}

-- The parameters of the node that a message depends on.
pub record Limits (D : Type 0) : Type 0 where
  pub clockwise : Bool
  pub angle_min : D
  pub angle_max : D
  pub min_range : D
  pub max_range : D

-- `sensor_msgs::LaserScan`, as far as the node fills it.
pub record LaserScan (F D : Type 0) : Type 0 where
  pub stamp : D
  pub frame_id : List ℕ
  pub angle_min : F
  pub angle_max : F
  pub angle_increment : F
  pub scan_time : F
  pub time_increment : F
  pub range_min : F
  pub range_max : F
  pub ranges : List (Option F)
  pub intensities : List (Option F)

-- What the loop changes.
pub record Cells (F : Type 0) : Type 0 where
  pub ranges : List (Option F)
  pub intensities : List (Option F)
  pub last_index : ℕ

-- `items[i] = v`
unfoldable pub set_at : {A : Type 0} → List A → ℕ → A → Option (List A)
set_at items i v = if ltb i (length items) then some (set items i v) else none

-- `Degree2Rad`
unfoldable pub degree2rad : (F : Type 0) {D : Type 0} ⦃fl : Floats F D⦄ → D → D
degree2rad F ⦃fl⦄ x = fl.ddiv (fl.dmul x (fl.decimal 3141592653589793 15)) (fl.double_of (pos 180))

module _ {F : Type 0} (D : Type 0) ⦃fl : Floats F D⦄ where
  open fl use {widen, narrow, float_of, double_of, decimal, fsub, fdiv, dmul, ddiv, dlt}

  -- `dir_angle`
  unfoldable pub dir_angle : Limits D → Point F → F
  dir_angle limits p = if limits.clockwise then p.angle else fsub (float_of (pos 360)) p.angle

  -- Whether the point is outside the range or the angles asked for, given its range.
  unfoldable pub is_cut : Limits D → Point F → F → Bool
  unfolding dir_angle
  is_cut limits p range =
      (dlt limits.max_range (widen range) || dlt (widen range) limits.min_range)
      || (dlt (widen (dir_angle limits p)) limits.angle_min
          || dlt limits.angle_max (widen (dir_angle limits p)))

  -- `distance * 0.001`, in a `float`.
  unfoldable pub metres : Point F → F
  metres p = narrow (dmul (double_of (pos p.distance)) (decimal 1 3))

  -- `range` and `intensity` after the two tests.
  unfoldable pub point_range : Limits D → Point F → F
  unfolding is_cut metres
  point_range limits p = if is_cut limits p (metres p) then float_of (pos 0) else metres p

  unfoldable pub point_intensity : Limits D → Point F → F
  unfolding is_cut metres
  point_intensity limits p =
      if is_cut limits p (metres p) then float_of (pos 0) else float_of (pos p.intensity)

  -- `index`
  unfoldable pub cell_index : Limits D → F → F → Point F → ℕ
  unfolding degree2rad dir_angle
  cell_index limits angle_min angle_increment p =
      fl.float_to_u32
        (fdiv (fsub (narrow (degree2rad F (widen (dir_angle limits p)))) angle_min) angle_increment)

module _ {F : Type 0} where
  -- The cell in front of the one that is written, if one cell has been skipped. `err` and
  -- `index - 1` are `unsigned int`.
  unfoldable pub fill_gap : ℕ → F → F → Cells F → Option (Cells F)
  unfolding set_at
  fill_gap index range intensity c =
      if (index + 2 ^ 32 - c.last_index) % 2 ^ 32 == 2
      then (set_at c.ranges ((index + 2 ^ 32 - 1) % 2 ^ 32) (some range) >>= λ ranges.
          set_at c.intensities ((index + 2 ^ 32 - 1) % 2 ^ 32) (some intensity) >>= λ intensities.
          some (record c { ranges = ranges; intensities = intensities }))
      else some c

  -- The end of a round: the intensity, and the index is kept.
  unfoldable pub put_intensity : ℕ → F → Cells F → Option (Cells F)
  unfolding set_at
  put_intensity index intensity c = set_at c.intensities index (some intensity) >>= λ intensities.
      some (record c { intensities = intensities; last_index = index })

module _ {F : Type 0} (D : Type 0) ⦃fl : Floats F D⦄ where
  -- An empty cell takes the range; a full one the smaller range.
  unfoldable pub put_range : Option F → ℕ → F → F → Cells F → Option (Cells F)
  unfolding fill_gap set_at
  put_range none index range intensity c = set_at c.ranges index (some range) >>= λ ranges.
      fill_gap index range intensity (record c { ranges = ranges })
  put_range (some there) index range intensity c =
      if fl.flt range there
      then (set_at c.ranges index (some range) >>= λ ranges. some (record c { ranges = ranges }))
      else some c

  unfoldable pub put_point : ℕ → ℕ → F → F → Cells F → Option (Cells F)
  unfolding put_range put_intensity
  put_point point_nums index range intensity c =
      if ltb index point_nums
      then (get_elem? c.ranges index >>= λ there.
          put_range there index range intensity c >>= λ c'. put_intensity index intensity c')
      else some c

  -- The loop, over the points that are left.
  unfoldable pub put_points : Limits D → F → F → ℕ → List (Point F) → Cells F → Option (Cells F)
  unfolding put_point point_range point_intensity cell_index
  put_points limits angle_min angle_increment point_nums [] c = some c
  put_points limits angle_min angle_increment point_nums (p ∷ ps) c =
      put_point point_nums (cell_index D limits angle_min angle_increment p)
        (point_range D limits p) (point_intensity D limits p) c
      >>= λ c'. put_points limits angle_min angle_increment point_nums ps c'

  -- The first and the last point of the scan; `point_nums - 1` is -1 for an empty scan.
  unfoldable pub end_points : ScanData F D → Option (Point F × Point F)
  end_points scan_frame =
      if scan_frame.vailtidy_point_num == 0
      then none
      else (get_elem? scan_frame.data_points 0 >>= λ first.
          get_elem? scan_frame.data_points (scan_frame.vailtidy_point_num - 1) >>= λ last.
          some (first, last))

  unfoldable pub angle_of : Point F → F
  unfolding degree2rad
  angle_of p = fl.narrow (degree2rad F (fl.widen p.angle))

  -- `angle_increment`
  unfoldable pub increment : ℕ → Point F → Point F → F
  unfolding degree2rad
  increment point_nums first last = fl.narrow (
      degree2rad F
        (fl.ddiv (fl.widen (fl.fsub last.angle first.angle)) (fl.double_of (pos point_nums))))

  -- The cells before the loop.
  unfoldable pub empty_cells : ℕ → Cells F
  empty_cells point_nums = record {
    ranges = replicate point_nums none;
    intensities = replicate point_nums none;
    last_index = 0;
  }

  -- The fields of the message.
  abbrev pub message : Limits D → List ℕ → D → D → ℕ → Point F → Point F → Cells F → LaserScan F D
  message limits frame_id start scan_time n first last c = record {
    stamp = start;
    frame_id = frame_id;
    angle_min = angle_of first;
    angle_max = angle_of last;
    angle_increment = increment n first last;
    scan_time = fl.narrow scan_time;
    time_increment = fl.narrow (fl.ddiv scan_time (fl.double_of (pos n)));
    range_min = fl.narrow limits.min_range;
    range_max = fl.narrow limits.max_range;
    ranges = c.ranges;
    intensities = c.intensities;
  }

  -- The message that is published.
  unfoldable pub publish_msg : Limits D → List ℕ → D → D → ScanData F D → Option (LaserScan F D)
  unfolding end_points angle_of increment empty_cells put_points
  publish_msg limits frame_id start scan_time scan_frame =
      let n = scan_frame.vailtidy_point_num in
      end_points scan_frame >>= λ (first, last).
      put_points limits (angle_of first) (increment n first last) n (take n scan_frame.data_points)
        (empty_cells n)
      >>= λ c. some (message limits frame_id start scan_time n first last c)
