-- ===== src/Controller.antt =====
-- The node that passes velocities to the vehicle's controller and publishes the odometry that the
-- controller sends: lgv_controller/src/lgv_controller_node.cpp. The serial library and ROS are parameters.
pub mod Memory
pub mod Packets
pub mod Reading
pub mod Rounds
use cqut_lgv.Common.{
  ℕ, zero, suc, ◌+◌, ◌-◌, Bool, true, false, Option, none, some, List, [], ◌∷◌, ltb, ◌==◌,
  if◌then◌else◌, length, take, replicate, copy_into,
}
use cqut_lgv.Common.Int.{ℤ, pos, negsuc}
use cqut_lgv.Floats.{Floats}
use cqut_lgv.Controller.Memory.{
  Stop, Run, out_of_bounds, uncaught, ok, stop, ◌>>=◌, called, byte_at, int16_at, bits32_at,
  set_int16,
}

-- The fields of `geometry_msgs::Twist` that are used.
pub record Twist (D : Type 0) : Type 0 where
  pub linear_x : D
  pub linear_y : D
  pub angular_z : D

-- The values of a packet.
pub record Pose (F : Type 0) : Type 0 where
  pub vx : F
  pub vy : F
  pub vw : F
  pub x : F
  pub y : F
  pub w : F

-- The transform from "odom" to "base_link", and the odometry between the same frames; what is 0.0 is
-- left out. `Q` is a quaternion.
pub record Transform (T F Q : Type 0) : Type 0 where
  pub stamp : T
  pub x : F
  pub y : F
  pub rotation : Q

pub record Odometry (T F Q : Type 0) : Type 0 where
  pub stamp : T
  pub linear_x : F
  pub linear_y : F
  pub angular_z : F
  pub position_x : F
  pub position_y : F
  pub orientation : Q

-- How `ser.open()` ends.
pub data Opened : Type 0 where
  returned : Opened
  io_exception : Opened
  other_exception : Opened

-- The serial port and ROS, and the conversions that the processor does. `none` stands for an exception.
pub record Platform (W T Q F D : Type 0) : Type 0 where
  pub open_port : W → Opened × W
  pub is_open : W → Bool
  pub available : W → Option (ℕ × W)
  pub read : ℕ → W → Option (List ℕ × W)
  pub write : List ℕ → W → Option W
  pub close : W → W
  pub is_ok : W → Bool
  -- The messages for which `spinOnce` runs the callback.
  pub pending : W → List (Twist D) × W
  pub now : W → T × W
  pub send_transform : Transform T F Q → W → W
  pub publish : Odometry T F Q → W → W
  pub sleep : W → W
  pub quaternion_from_yaw : F → Q
  pub int16_of : D → ℤ
  pub float_of_bits : ℕ → F

-- How far `main` gets: it returns, or the loop goes on with the contents of `r_buffer`.
pub data Progress (W : Type 0) : Type 0 where
  exited : ℤ → W → Progress W
  looping : List ℕ → W → Progress W

-- `for (size_t i = 0; i < length; ++i)`, with `length - i` rounds to go: the first 0xFF 0xFF.
unfoldable pub search : ℕ → ℕ → List ℕ → Run (Option ℕ)
search zero i buf = ok none
search (suc n) i buf =
    let rest = search n (suc i) buf in
    byte_at buf i >>= λ a.
    if a == 0xFF
    then (byte_at buf (i + 1) >>= λ b. if b == 0xFF then ok (some i) else rest)
    else rest

module _ {W T Q F D : Type 0} ⦃fl : Floats F D⦄ (p : Platform W T Q F D) where
  open fl use {narrow, float_of, fmul, decimal, dmul, double_of}

  -- The first eight bytes of `s_buffer`.
  unfoldable pub command : Twist D → List ℕ
  command msg =
      let header = copy_into (replicate 32 0) 0 (0xFF ∷ 0xFF ∷ []) in
      let with_x = set_int16 header 2 (p.int16_of (dmul msg.linear_x (double_of (pos 1000)))) in
      let with_y = set_int16 with_x 4 (p.int16_of (dmul msg.linear_y (double_of (pos 1000)))) in
      let s_buffer = set_int16 with_y 6 (p.int16_of (dmul msg.angular_z (double_of (pos 1000)))) in
      take 8 s_buffer

  unfoldable pub serial_callback : Twist D → W → Run W
  unfolding command
  serial_callback msg world = called (p.write (command msg) world)

  unfoldable pub spin_once : List (Twist D) → W → Run W
  unfolding serial_callback
  spin_once [] world = ok world
  spin_once (msg ∷ msgs) world = serial_callback msg world >>= λ world'. spin_once msgs world'

  -- `x * 0.001F`
  unfoldable pub thousandths : ℤ → F
  thousandths x = fmul (float_of x) (narrow (decimal 1 3))

  -- The packet whose header is at `i`.
  unfoldable pub packet_at : List ℕ → ℕ → Run (Pose F)
  unfolding thousandths
  packet_at buf i = do
    vx ← int16_at buf (i + 2)
    vy ← int16_at buf (i + 4)
    vw ← int16_at buf (i + 6)
    x ← bits32_at buf (i + 8)
    y ← bits32_at buf (i + 12)
    w ← bits32_at buf (i + 16)
    ok (record {
      vx = thousandths vx;
      vy = thousandths vy;
      vw = thousandths vw;
      x = p.float_of_bits x;
      y = p.float_of_bits y;
      w = p.float_of_bits w;
    })

  -- What the loop over `r_buffer` finds in its first `n` bytes.
  unfoldable pub find_packet : ℕ → List ℕ → Run (Option (Pose F))
  unfolding search packet_at
  find_packet n buf = search n 0 buf >>= λ found. elim found [
    | none ↦ ok none
    | some i ↦ packet_at buf i >>= λ pose. ok (some pose)
  ]

  unfoldable pub publish_pose : T → Option (Pose F) → W → W
  publish_pose current_time none world = world
  publish_pose current_time (some pose) world =
      let odom_quat = p.quaternion_from_yaw pose.w in
      let sent =
        p.send_transform
          (record { stamp = current_time; x = pose.x; y = pose.y; rotation = odom_quat }) world in
      let (time, world') = p.now sent in
      p.publish
        (record {
          stamp = time;
          linear_x = pose.vx;
          linear_y = pose.vy;
          angular_z = pose.vw;
          position_x = pose.x;
          position_y = pose.y;
          orientation = odom_quat;
        })
        world'

  -- What is read goes to the front of `r_buffer`; the bytes behind it stay.
  unfoldable pub read_input : T → ℕ → List ℕ → W → Run (List ℕ × W)
  unfolding find_packet publish_pose
  read_input current_time n r_buffer world = do
    (bytes, world') ← called (p.read n world)
    if ltb 32 (length bytes)
        then stop out_of_bounds
        else (find_packet (length bytes) (copy_into r_buffer 0 bytes) >>= λ found.
            ok (copy_into r_buffer 0 bytes, publish_pose current_time found world'))

  -- A round of the main loop, up to its sleep.
  unfoldable pub main_round : List ℕ → W → Run (List ℕ × W)
  unfolding spin_once read_input
  main_round r_buffer world = do
    let (msgs, called_world) = p.pending world
    spun ← spin_once msgs called_world
    let (current_time, timed) = p.now spun
    (n, asked) ← called (p.available timed)
    if n == 0 then ok (r_buffer, asked) else read_input current_time n r_buffer asked

  -- The main loop, for at most so many rounds.
  unfoldable pub main_loop : ℕ → List ℕ → W → Run (Progress W)
  unfolding main_round
  main_loop zero r_buffer world = ok (looping r_buffer world)
  main_loop (suc rounds) r_buffer world = elim (p.is_ok world) [
    | false ↦ ok (exited (pos 0) (p.close world))
    | true ↦ main_round r_buffer world >>= λ (r_buffer', world').
        main_loop rounds r_buffer' (p.sleep world')
  ]

  -- `main` after the parameters are read; `~0` is -1. `r_buffer` is what the array holds to begin with.
  unfoldable pub run_main : ℕ → List ℕ → W → Run (Progress W)
  unfolding main_loop
  run_main rounds r_buffer world =
      let (opened, world') = p.open_port world in
      elim opened [
        | io_exception ↦ ok (exited (negsuc 0) world')
        | other_exception ↦ stop uncaught
        | returned ↦
            if p.is_open world'
            then (called (p.write (0xFF ∷ 0xFE ∷ []) world') >>= λ started.
                main_loop rounds r_buffer started)
            else ok (exited (negsuc 0) world')
      ]
