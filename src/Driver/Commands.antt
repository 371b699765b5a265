-- ===== src/Driver/Commands.antt =====
-- The commands to the lidar: `Activate`, `Deactive` and `SetRotationSpeed` of
-- oradar_ros/sdk/src/ord_lidar_driver.cpp and `xor_check` of oradar_ros/sdk/core/base/utils.h. A command
-- without a channel is a fault, `none`: the source follows a null pointer.
use cqut_lgv.Common.{
  ℕ, zero, suc, ◌*◌, ◌/◌, ◌%◌, Bool, true, false, ◌&&◌, Option, none, some, List, [], ◌∷◌, ◌++◌,
  ◌>>=◌, ltb, ◌==◌, if◌then◌else◌, bit_xor,
}
use cqut_lgv.Common.Int.{ℤ, pos, negsuc, eqb_ℤ}
use cqut_lgv.Floats.{Floats}
use cqut_lgv.Protocol.{set_time_out, set_rotation_speed_cmd, set_run_mode_cmd, write_param}
use cqut_lgv.Driver.{System}
use cqut_lgv.Driver.Device.{ChannelDevice}
use cqut_lgv.Driver.Receive.{delay}

-- `Utils::xor_check`, from a checksum on.
unfoldable pub xor_loop : ℕ → List ℕ → ℕ
xor_loop check [] = check
xor_loop check (b ∷ bytes) = xor_loop (bit_xor check b) bytes

unfoldable pub xor_check : List ℕ → ℕ
unfolding xor_loop
xor_check bytes = xor_loop 0 bytes

-- `uart_comm_t` up to its data: the head flag 0xF5A5 with its low byte first, the command, its type and
-- the length of the data.
abbrev pub request_head : ℕ → ℕ → List ℕ
request_head cmd payload_len = 0xA5 ∷ 0xF5 ∷ cmd ∷ write_param ∷ payload_len ∷ []

-- The bytes that are written: the request, its checksum and the tail.
unfoldable pub with_tail : List ℕ → List ℕ
unfolding xor_check
with_tail request = request ++ (xor_check request ∷ 0x31 ∷ 0xF2 ∷ [])

unfoldable pub run_mode_request : ℕ → List ℕ
unfolding with_tail
run_mode_request mode = with_tail (request_head set_run_mode_cmd 1 ++ (mode ∷ []))

-- `speed & 0xFF00` is stored in a byte, so that nothing of it is left.
unfoldable pub rotation_request : ℕ → List ℕ
unfolding with_tail
rotation_request speed =
    with_tail
      (request_head set_rotation_speed_cmd 2 ++ (speed % 256 ∷ speed / 256 * 256 % 256 ∷ []))

-- The speed, brought into the range from 5 to 15.
unfoldable pub clamp_speed : ℤ → ℕ
clamp_speed (negsuc n) = 5
clamp_speed (pos n) = if ltb n 5 then 5 else if ltb 15 n then 15 else n

module _ {W F D : Type 0} ⦃fl : Floats F D⦄ (dev : ChannelDevice W) where
  open fl use {double_of, decimal, dadd, dsub, dmul, dlt}

  -- `serial_->writeData`; the answer is false for -1.
  unfoldable pub write_request : List ℕ → System W F D → Option (Bool × System W F D)
  write_request bytes s =
      if s.driver.has_serial
      then (let (ret, w) = dev.write_data bytes s.world in
          some (if eqb_ℤ ret (negsuc 0) then false else true, record s { world = w }))
      else none

  -- The loop of `Activate`: up to ten seconds for data.
  unfoldable pub wait_active : ℕ → System W F D → Option (Bool × System W F D)
  unfolding delay
  wait_active zero s = some (false, s)
  wait_active (suc rounds) s = delay dev 1000 s >>= λ s'. elim (s'.driver.valid_data == 0) [
    | true ↦ wait_active rounds s'
    | false ↦ some (true, s')
  ]

  -- The end of a command: nothing more after a failed write.
  abbrev pub after_write :
      (System W F D → Option (Bool × System W F D))
      → Bool × System W F D
      → Option (Bool × System W F D)
  after_write next (true, s) = next s
  after_write next (false, s) = some (false, s)

  unfoldable pub activate : System W F D → Option (Bool × System W F D)
  unfolding write_request wait_active run_mode_request delay
  activate s =
      if s.driver.valid_data == 0
      then (delay dev 400 s >>= λ s'.
          write_request (run_mode_request 0x81) s' >>= after_write (wait_active set_time_out))
      else some (true, s)

  -- The scans are emptied, and the time stamp and the speed are reset.
  unfoldable pub forget_data : System W F D → System W F D
  forget_data s =
      let r = s.driver.reader in
      record s {
        driver = record s.driver {
          reader = record r {
            full_scan_data = record r.full_scan_data { vailtidy_point_num = 0 };
            one_scan_data = record r.one_scan_data { vailtidy_point_num = 0 };
            parsed_data = record r.parsed_data { timestamp = 0; speed = double_of (pos 0) };
          };
        };
      }

  -- The loop of `Deactive`: up to ten seconds for silence.
  unfoldable pub wait_silent : ℕ → System W F D → Option (Bool × System W F D)
  unfolding delay forget_data
  wait_silent zero s = some (false, s)
  wait_silent (suc rounds) s = delay dev 1000 s >>= λ s'. elim (s'.driver.valid_data == 0) [
    | true ↦ some (true, forget_data s')
    | false ↦ wait_silent rounds s'
  ]

  unfoldable pub deactive : System W F D → Option (Bool × System W F D)
  unfolding write_request wait_silent run_mode_request delay forget_data
  deactive s =
      if s.driver.valid_data == 0
      then some (true, forget_data s)
      else (delay dev 400 s >>= λ s'.
          write_request (run_mode_request 0x80) s' >>= after_write (wait_silent set_time_out))

  -- `cur_speed` is within a tenth of the speed that was set.
  unfoldable pub is_near_speed : ℕ → System W F D → Bool
  is_near_speed speed s =
      let wanted = double_of (pos speed) in
      let tenth = dmul wanted (decimal 1 1) in
      dlt (dsub wanted tenth) s.driver.reader.parsed_data.speed
      && dlt s.driver.reader.parsed_data.speed (dadd wanted tenth)

  -- The loop of `SetRotationSpeed`: up to ten seconds for the speed. `cur_speed` is read in front of
  -- `valid_data_`, and nothing changes between the two.
  unfoldable pub wait_speed : ℕ → ℕ → System W F D → Option (Bool × System W F D)
  unfolding delay is_near_speed
  wait_speed speed zero s = some (false, s)
  wait_speed speed (suc rounds) s = delay dev 1000 s >>= λ s'. elim (s'.driver.valid_data == 0) [
    | true ↦ some (false, s')
    | false ↦ elim (is_near_speed speed s') [
      | true ↦ some (true, s')
      | false ↦ wait_speed speed rounds s'
    ]
  ]

  -- From the delay in front of the request on; `set_flag` says that the lidar was measuring.
  unfoldable pub send_speed : ℕ → Bool → System W F D → Option (Bool × System W F D)
  unfolding write_request rotation_request activate wait_speed delay
  send_speed speed set_flag s = delay dev 400 s >>= λ s'.
      write_request (rotation_request speed) s'
      >>= after_write (λ t.
        if set_flag
        then (activate t >>= after_write (wait_speed speed set_time_out))
        else some (true, t))

  unfoldable pub set_rotation_speed : ℤ → System W F D → Option (Bool × System W F D)
  unfolding clamp_speed deactive send_speed
  set_rotation_speed speed s =
      if s.driver.valid_data == 0
      then send_speed (clamp_speed speed) false s
      else (deactive s >>= after_write (send_speed (clamp_speed speed) true))
