-- ===== src/Driver.antt =====
-- `OrdlidarDriver`, oradar_ros/sdk/src/ord_lidar_driver.h and ord_lidar_driver.cpp, around its receiving
-- half: its members, the receive thread, the commands and the calls that fetch a scan.
pub mod Device
pub mod Info
pub mod Messages
pub mod Serial
pub mod Versions
pub mod Receive
pub mod Stream
pub mod Parsed
pub mod Commands
pub mod Session
pub mod Grab
pub mod Race
pub mod Requests
pub mod Activation
pub mod Reached
pub mod Answers
use cqut_lgv.Common.{ℕ, Bool, false, List, []}
use cqut_lgv.Common.Int.{ℤ, pos}
use cqut_lgv.Floats.{Floats}
use cqut_lgv.Reader.{Reader, init_reader}
use cqut_lgv.Driver.Info.{InitInfo}

-- The members. Of the pointers only whether they are set is kept.
pub record Driver (F D : Type 0) : Type 0 where
  pub reader : Reader F D
  pub info : InitInfo
  pub port_name : List ℕ
  pub baudrate : ℕ
  pub tranformer_type : ℕ
  pub model : ℕ
  pub is_connected : Bool
  pub valid_data : ℕ
  pub has_serial : Bool
  pub has_rx_thread : Bool
  pub rx_thread_exit_flag : Bool

-- The driver and the world behind its channel.
pub record System (W F D : Type 0) : Type 0 where
  pub driver : Driver F D
  pub world : W

-- The constructor.
unfoldable pub new_driver : {F D : Type 0} ⦃fl : Floats F D⦄ → ℕ → ℕ → Driver F D
unfolding init_reader
new_driver device_type device_model = record {
  reader = init_reader;
  info = record {
    cmd_buf = [];
    head_flag = false;
    device_sn = [];
    bot_fw_version = [];
    top_fw_version = [];
    init_info_flag = false;
  };
  port_name = [];
  baudrate = 0;
  tranformer_type = device_type;
  model = device_model;
  is_connected = false;
  valid_data = 0;
  has_serial = false;
  has_rx_thread = false;
  rx_thread_exit_flag = false;
}

-- `SetSerialPort`, which always answers true.
unfoldable pub set_serial_port : {F D : Type 0} → List ℕ → ℕ → Driver F D → Driver F D
set_serial_port name rate d = record d { port_name = name; baudrate = rate }

-- `read` and `write`, whose calls of the port are commented out: both answer 0.
unfoldable pub read : List ℕ → ℤ → ℤ
read bytes length = pos 0

unfoldable pub write : List ℕ → ℤ → ℤ
write bytes length = pos 0
