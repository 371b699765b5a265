-- ===== src/ScanNode/Params.antt =====
-- The parameters that `main` of oradar_ros/src/oradar_scan_node.cpp reads, in its two builds.
use cqut_lgv.Common.{ℕ, ◌≡◌, refl, ap, Bool, false, Option, none, some, List, [], ◌∷◌}
use cqut_lgv.Common.Int.{ℤ, pos, negsuc}
use cqut_lgv.Floats.{Floats}
use cqut_lgv.ScanNode.Node.{NodeParams, run_node}
use cqut_lgv.Driver.{new_driver}
use cqut_lgv.Driver.Device.{ChannelDevice}

-- The parameters that have been set for the node.
pub record Given (D : Type 0) : Type 0 where
  pub port_name : Option (List ℕ)
  pub baudrate : Option ℕ
  pub angle_max : Option D
  pub angle_min : Option D
  pub range_max : Option D
  pub range_min : Option D
  pub clockwise : Option Bool
  pub motor_speed : Option ℤ
  pub frame_id : Option (List ℕ)

abbrev pub or_else : {A : Type 0} → Option A → A → A
or_else none fallback = fallback
or_else (some a) fallback = a

module _ {D : Type 0} (F : Type 0) ⦃fl : Floats F D⦄ where
  -- For ROS: "/dev/ttyUSB0" and "laser_frame" are defaults of the calls of `param`.
  unfoldable pub ros_params : Given D → NodeParams D
  ros_params given = record {
    port =
        or_else given.port_name
          (47 ∷ 100 ∷ 101 ∷ 118 ∷ 47 ∷ 116 ∷ 116 ∷ 121 ∷ 85 ∷ 83 ∷ 66 ∷ 48 ∷ []);
    baudrate = or_else given.baudrate 230400;
    motor_speed = or_else given.motor_speed (pos 10);
    frame_id =
        or_else given.frame_id (108 ∷ 97 ∷ 115 ∷ 101 ∷ 114 ∷ 95 ∷ 102 ∷ 114 ∷ 97 ∷ 109 ∷ 101 ∷ []);
    limits = record {
      clockwise = or_else given.clockwise false;
      angle_min = or_else given.angle_min (fl.double_of (negsuc 179));
      angle_max = or_else given.angle_max (fl.double_of (pos 180));
      min_range = or_else given.range_min (fl.decimal 5 2);
      max_range = or_else given.range_max (fl.double_of (pos 20));
    };
  }

  -- For ROS 2 the values that the variables have are the defaults.
  unfoldable pub ros2_params : Given D → NodeParams D
  ros2_params given = record {
    port = or_else given.port_name [];
    baudrate = or_else given.baudrate 230400;
    motor_speed = or_else given.motor_speed (pos 10);
    frame_id = or_else given.frame_id [];
    limits = record {
      clockwise = or_else given.clockwise false;
      angle_min = or_else given.angle_min (fl.double_of (pos 0));
      angle_max = or_else given.angle_max (fl.double_of (pos 360));
      min_range = or_else given.range_min (fl.decimal 5 2);
      max_range = or_else given.range_max (fl.double_of (pos 20));
    };
  }

  -- With the port, the frame and the two angles set, both builds read the same parameters, whatever else is
  -- set.
  ros_params-ros2_params :
      (given : Given D) (port frame : List ℕ) (lo hi : D)
      → given.port_name ≡ some port
      → given.frame_id ≡ some frame
      → given.angle_min ≡ some lo
      → given.angle_max ≡ some hi
      → ros_params given ≡ ros2_params given
  unfolding ros_params ros2_params
  ros_params-ros2_params given port frame lo hi p f l h = rw (p, f, l, h) refl

-- Where no port is set, the node for ROS 2 ends at once: it never connects, and publishes nothing.
run_node-ros2_params :
    {W F D : Type 0} ⦃fl : Floats F D⦄ (dev : ChannelDevice W) (given : Given D) (rounds : ℕ)
    (times : List (D × D)) (w : W)
    → given.port_name ≡ none
    → run_node {F = F} dev (ros2_params F given) rounds times w
      ≡ some ([], record { driver = new_driver 0 1; world = w })
unfolding run_node ros2_params
run_node-ros2_params {F = F} {D = D} dev given rounds times w unset =
    ap (λ port. run_node dev (record (ros2_params F given) { port = port }) rounds times w)
      (ap (λ set. or_else set []) unset)
