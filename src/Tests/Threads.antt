-- ===== src/Tests/Threads.antt =====
-- The driver and the node on a channel that sends frames, and the two threads side by side.
use cqut_lgv.Common.{
  ℕ, suc, ◌≡◌, refl, true, none, some, List, [], ◌∷◌, ◌==◌, if◌then◌else◌, length,
}
use cqut_lgv.Common.Int.{ℤ, pos}
use cqut_lgv.Floats.Fixed.{fixed}
use cqut_lgv.Crc.{crc8}
use cqut_lgv.Protocol.{frame_of_bytes}
use cqut_lgv.Protocol.Layout.{frame_bytes}
use cqut_lgv.Driver.{Driver, System, new_driver}
use cqut_lgv.Driver.Device.{ChannelDevice, silence, received}
use cqut_lgv.Driver.Commands.{set_rotation_speed}
use cqut_lgv.ScanNode.{LaserScan}
use cqut_lgv.ScanNode.Node.{NodeParams, run_node}
use cqut_lgv.Tests.Samples.{sample_frame, sample_scan}
use cqut_lgv.Tests.Messages.{wide}
use cqut_lgv.Tests.Sessions.{echo, state_of}

abbrev pub frame : List ℕ
unfolding frame_bytes
frame = frame_bytes sample_frame []

-- A lidar that is silent until it has been told to measure again: its world counts waits and writes.
abbrev obedient : ChannelDevice ℕ
obedient = record (echo []) {
  arrivals = λ ms w. (
    (if w == 7 then received frame else if w == 8 then received (7 ∷ []) else silence) ∷ [],
    suc w,
  );
}

-- A driver whose arrays are empty.
abbrev idle_driver : Driver ℤ ℤ
unfolding new_driver
idle_driver =
    let d = new_driver 0 1 in
    record d {
      reader = record d.reader {
        temp_data = sample_scan [];
        full_scan_data = sample_scan [];
        one_scan_data = sample_scan [];
      };
    }

abbrev measuring : System ℕ ℤ ℤ
measuring = record {
  driver = record idle_driver {
    is_connected = true;
    has_serial = true;
    has_rx_thread = true;
    valid_data = 1;
  };
  world = 0;
}

abbrev at_speed : System ℕ ℤ ℤ
at_speed = state_of measuring (set_rotation_speed obedient (pos 10) measuring)

set_rotation_speed_runs : set_rotation_speed obedient (pos 10) measuring ≡ some (true, at_speed)
unfolding set_rotation_speed frame idle_driver crc8 frame_of_bytes
set_rotation_speed_runs = refl

-- A channel that is silent except while a scan is waited for, when it brings two frames.
abbrev pub scanning : ChannelDevice ℕ
scanning = record (echo []) {
  arrivals = λ ms w. (silence ∷ [], w);
  awaited = λ ms w. (received frame ∷ received frame ∷ [], w);
}

abbrev node_params : NodeParams ℤ
node_params = record {
  port = 47 ∷ [];
  baudrate = 230400;
  motor_speed = pos 10;
  frame_id = [];
  limits = wide;
}

abbrev node_times : List (ℤ × ℤ)
node_times = (pos 0, pos 100) ∷ []

abbrev node_result : List (LaserScan ℤ ℤ) × System ℕ ℤ ℤ
node_result = elim (run_node {F = ℤ} scanning node_params 1 node_times 0) [
  | none ↦ ([], measuring)
  | some result ↦ result
]

one_message : length node_result.0 ≡ 1
unfolding run_node frame crc8 frame_of_bytes
one_message = refl
