-- ===== src/Samples.antt =====
-- The programs of oradar_ros/sdk/samples: `main` of blocking_test.cpp, non-blocking_test.cpp and
-- blocking_c_api_test.c. A loop runs for the rounds in which `running` is still set; what a program
-- prints is the list of its lines. `is_logging` is false.

pub mod Ends
pub mod Same
use cqut_lgv.Common.{
  ℕ, zero, suc, Bool, true, false, Option, none, some, List, [], ◌∷◌, ◌++◌, ◌>>=◌,
}
use cqut_lgv.Common.Int.{pos}
use cqut_lgv.Floats.{Floats}
use cqut_lgv.Protocol.{ScanData}
use cqut_lgv.Driver.{System, new_driver, set_serial_port}
use cqut_lgv.Driver.Device.{ChannelDevice}
use cqut_lgv.Driver.Receive.{delay}
use cqut_lgv.Driver.Session.{connect, disconnect, destroy}
use cqut_lgv.Driver.Grab.{grab_full_scan, grab_full_scan_blocking}
use cqut_lgv.CApi.{
  Handle, oradar_lidar_create, oradar_lidar_destroy, oradar_set_serial_port, oradar_connect,
  oradar_get_grabfullscan_blocking,
}

-- What the programs print, one constructor for each text.
pub data Line : Type 0 where
  -- "scan_frame_data lidar device connect succuss..", of the programs in C++
  connect_succuss : Line
  -- "lidar device connect %s fail..", with the name of the port, of blocking_test.cpp
  port_connect_fail : Line
  -- "lidar device connect fail..", of non-blocking_test.cpp
  connect_fail : Line
  -- "count = %lld, point_num: %d", of the programs in C++
  count_point_num : ℕ → ℕ → Line
  -- "error: fail get full scan data", of blocking_test.cpp
  fail_get_full_scan : Line
  -- "serial port_name set fail", "serial connect fail", "vailtidy_point_num: %d" and "fail to get lidar
  -- data", of blocking_c_api_test.c
  port_name_set_fail : Line
  serial_connect_fail : Line
  vailtidy_point_num : ℕ → Line
  fail_to_get_lidar_data : Line

-- "/dev/ttyUSB0"
abbrev pub port_name : List ℕ
port_name = 47 ∷ 100 ∷ 101 ∷ 118 ∷ 47 ∷ 116 ∷ 116 ∷ 121 ∷ 85 ∷ 83 ∷ 66 ∷ 48 ∷ []

abbrev pub baudrate : ℕ
baudrate = 230400

module _ {F D : Type 0} where
  -- What is printed for the answer of a call that fetches a scan, and the scans counted so far.
  unfoldable pub report : ℕ → Option (ScanData F D) → List Line × ℕ
  report count none = (fail_get_full_scan ∷ [], count)
  report count (some scan) = (count_point_num (suc count) scan.vailtidy_point_num ∷ [], suc count)

  -- The program that does not block is silent about a false answer.
  unfoldable pub report_scan : ℕ → Option (ScanData F D) → List Line × ℕ
  report_scan count none = ([], count)
  report_scan count (some scan) =
      (count_point_num (suc count) scan.vailtidy_point_num ∷ [], suc count)

  unfoldable pub report_points : Option (ScanData F D) → Line
  report_points none = fail_to_get_lidar_data
  report_points (some scan) = vailtidy_point_num scan.vailtidy_point_num

-- The driver that the programs in C++ make.
unfoldable pub new_device : {W F D : Type 0} ⦃fl : Floats F D⦄ → W → System W F D
unfolding new_driver set_serial_port
new_device w = record { driver = set_serial_port port_name baudrate (new_driver 0 1); world = w }

module _ {W F D : Type 0} ⦃fl : Floats F D⦄ (dev : ChannelDevice W) where
  -- The loop that connects, with the line for an attempt that fails, and the rounds that it leaves to the
  -- next loop.
  unfoldable pub connect_loop : Line → ℕ → System W F D → Option (List Line × ℕ × System W F D)
  unfolding connect delay
  connect_loop fail zero s = some ([], zero, s)
  connect_loop fail (suc rounds) s = connect dev s >>= λ (done, t). elim done [
    | true ↦ some (connect_succuss ∷ [], rounds, t)
    | false ↦ delay dev 1000 t >>= λ t'.
        connect_loop fail rounds t' >>= λ (lines, left, u). some (fail ∷ lines, left, u)
  ]

  -- The loop of blocking_test.cpp.
  unfoldable pub blocking_loop : ℕ → ℕ → System W F D → Option (List Line × System W F D)
  unfolding grab_full_scan_blocking report
  blocking_loop zero count s = some ([], s)
  blocking_loop (suc rounds) count s = grab_full_scan_blocking dev 1000 s >>= λ (scan, t).
      blocking_loop rounds (report count scan).1 t >>= λ (lines, u).
      some ((report count scan).0 ++ lines, u)

  -- The loop of non-blocking_test.cpp, which waits in every round.
  unfoldable pub polling_loop : ℕ → ℕ → System W F D → Option (List Line × System W F D)
  unfolding grab_full_scan report_scan delay
  polling_loop zero count s = some ([], s)
  polling_loop (suc rounds) count s =
      let (scan, d) = grab_full_scan s.driver in
      delay dev 100 (record s { driver = d }) >>= λ t.
      polling_loop rounds (report_scan count scan).1 t >>= λ (lines, u).
      some ((report_scan count scan).0 ++ lines, u)

  -- `main` of blocking_test.cpp; the driver's destructor comes last.
  unfoldable pub blocking_main : ℕ → W → Option (List Line × System W F D)
  unfolding connect_loop blocking_loop disconnect destroy new_device
  blocking_main rounds w =
      connect_loop port_connect_fail rounds (new_device w) >>= λ (said, left, s1).
      blocking_loop left 0 s1 >>= λ (lines, s2).
      disconnect dev s2 >>= λ s3. destroy dev s3 >>= λ s4. some (said ++ lines, s4)

  -- `main` of non-blocking_test.cpp.
  unfoldable pub polling_main : ℕ → W → Option (List Line × System W F D)
  unfolding connect_loop polling_loop disconnect destroy new_device
  polling_main rounds w = connect_loop connect_fail rounds (new_device w) >>= λ (said, left, s1).
      polling_loop left 0 s1 >>= λ (lines, s2).
      disconnect dev s2 >>= λ s3. destroy dev s3 >>= λ s4. some (said ++ lines, s4)

  -- The loop of blocking_c_api_test.c.
  unfoldable pub c_loop : ℕ → Handle W F D → Option (List Line × Handle W F D)
  unfolding oradar_get_grabfullscan_blocking report_points
  c_loop zero h = some ([], h)
  c_loop (suc rounds) h = oradar_get_grabfullscan_blocking dev 1000 h >>= λ (scan, h').
      c_loop rounds h' >>= λ (lines, h''). some (report_points scan ∷ lines, h'')

  -- From the connection on: the lines, and the handle that is to be destroyed.
  unfoldable pub c_connect : ℕ → Handle W F D → Option (List Line × Handle W F D)
  unfolding oradar_connect c_loop
  c_connect rounds h = oradar_connect dev h >>= λ (done, h'). elim done [
    | true ↦ c_loop rounds h'
    | false ↦ some (serial_connect_fail ∷ [], h')
  ]

  -- `main` of blocking_c_api_test.c, which tries to connect once.
  unfoldable pub c_main : ℕ → W → Option (List Line × Handle W F D × Option W)
  unfolding oradar_lidar_create oradar_set_serial_port c_connect oradar_lidar_destroy
  c_main rounds w =
      oradar_set_serial_port (some port_name) (pos baudrate) (oradar_lidar_create 0 1 w)
      >>= λ (done, h).
          (elim done [ true ↦ c_connect rounds h | false ↦ some (port_name_set_fail ∷ [], h) ])
          >>= λ (lines, h').
              oradar_lidar_destroy dev h' >>= λ (gone, left). some (lines, gone, left)
