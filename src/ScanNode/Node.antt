-- ===== src/ScanNode/Node.antt =====
-- `main` of oradar_ros/src/oradar_scan_node.cpp, from the construction of the driver on. Reading the
-- parameters and the text output are left out.
use cqut_lgv.Common.{
  ℕ, zero, suc, true, false, ◌||◌, Option, none, some, List, [], ◌∷◌, ◌++◌, ◌>>=◌, if◌then◌else◌,
}
use cqut_lgv.Common.Int.{ℤ}
use cqut_lgv.Floats.{Floats}
use cqut_lgv.Protocol.{ScanData}
use cqut_lgv.Driver.{System, set_serial_port, new_driver}
use cqut_lgv.Driver.Device.{ChannelDevice}
use cqut_lgv.Driver.Session.{connect, disconnect}
use cqut_lgv.Driver.Commands.{set_rotation_speed}
use cqut_lgv.Driver.Grab.{grab_full_scan_blocking, get_rotation_speed}
use cqut_lgv.ScanNode.{Limits, LaserScan, publish_msg}

-- The parameters of the node.
pub record NodeParams (D : Type 0) : Type 0 where
  pub port : List ℕ
  pub baudrate : ℕ
  pub motor_speed : ℤ
  pub frame_id : List ℕ
  pub limits : Limits D

module _ {W F D : Type 0} ⦃fl : Floats F D⦄ (dev : ChannelDevice W) where
  -- The loop that connects; `rounds` is how often the middleware still answers that it is up. The
  -- source waits a second between two attempts.
  unfoldable pub connect_loop : ℕ → System W F D → Option (System W F D)
  unfolding connect disconnect
  connect_loop zero s = some s
  connect_loop (suc rounds) s =
      (if s.driver.is_connected then disconnect dev s else some s) >>= λ s'.
      connect dev s' >>= λ (connected, t). elim connected [
        | true ↦ some t
        | false ↦ connect_loop rounds t
      ]

  -- The motor's speed is set unless it is within a tenth of the parameter; the answer is not looked at.
  unfoldable pub adjust_speed : ℤ → System W F D → Option (System W F D)
  unfolding set_rotation_speed get_rotation_speed
  adjust_speed motor_speed s =
      let wanted = fl.double_of motor_speed in
      let tenth = fl.dmul wanted (fl.decimal 1 1) in
      let cur_speed = get_rotation_speed s.driver in
      if fl.dlt cur_speed (fl.dsub wanted tenth) || fl.dlt (fl.dadd wanted tenth) cur_speed
      then (set_rotation_speed dev motor_speed s >>= λ (b, t). some t)
      else some s

  -- What a round publishes.
  unfoldable pub publish_scan :
      NodeParams D → D × D → Option (ScanData F D) → Option (List (LaserScan F D))
  unfolding publish_msg
  publish_scan params times none = some []
  publish_scan params times (some scan) =
      publish_msg D params.limits params.frame_id times.0 (fl.dsub times.1 times.0) scan >>= λ msg.
      some (msg ∷ [])

  -- The loop that publishes: each round has the times before and after its wait.
  unfoldable pub grab_loop :
      NodeParams D → List (D × D) → System W F D → Option (List (LaserScan F D) × System W F D)
  unfolding publish_scan grab_full_scan_blocking
  grab_loop params [] s = some ([], s)
  grab_loop params (times ∷ rest) s = grab_full_scan_blocking dev 1000 s >>= λ (scan, s').
      publish_scan params times scan >>= λ msgs.
      grab_loop params rest s' >>= λ (more, t). some (msgs ++ more, t)

  -- `main` from the construction of the driver on: what is published.
  unfoldable pub run_node :
      NodeParams D → ℕ → List (D × D) → W → Option (List (LaserScan F D) × System W F D)
  unfolding connect_loop adjust_speed grab_loop disconnect new_driver set_serial_port
  run_node params rounds times w =
      let s : System W F D = record { driver = new_driver 0 1; world = w } in
      elim params.port [
        | [] ↦ some ([], s)
        | b ∷ name ↦
            connect_loop rounds
              (record s { driver = set_serial_port (b ∷ name) params.baudrate s.driver })
            >>= λ s1. adjust_speed params.motor_speed s1 >>= λ s2.
                grab_loop params times s2 >>= λ (msgs, s3).
                disconnect dev s3 >>= λ s4. some (msgs, s4)
      ]
