-- ===== src/Driver/Serial.antt =====
-- How `uart_data_find_init_info` of oradar_ros/sdk/src/ord_lidar_driver.cpp takes a serial number.
use cqut_lgv.Common.{
  ℕ, ◌+◌, ◌≡◌, refl, ap, ◌∙◌, true, false, some, List, [], ◌∷◌, le→leb, length, take-append_all,
  arith,
}
use cqut_lgv.Driver.Info.{InitInfo, assign_from, take_sn, take_info, uart_data_find_init_info}
use cqut_lgv.Driver.Messages.{
  info_message, length-info_message, has_tail-info_message, drop-info_message, taken_whole,
  long_enough,
}

-- The lidar's message with its serial number.
abbrev pub sn_message : List ℕ → ℕ → List ℕ
sn_message sn check = info_message 0x01 sn check

module _ (sn : List ℕ) (check : ℕ) where
  assign_from-sn_message : assign_from (sn_message sn check) 4 (length sn) ≡ some sn
  unfolding assign_from
  assign_from-sn_message =
      rw
        (le→leb (4 + length sn) (length (sn_message sn check))
          (omega (arith, length-info_message 0x01 sn check)))
        (ap some (take-append_all sn (check ∷ 0x31 ∷ 0xF2 ∷ []) (length sn) refl))

  take_sn-sn_message :
      (t : InitInfo)
      → take_sn (length sn) (record t { cmd_buf = sn_message sn check; head_flag = true })
        ≡ some (record t { cmd_buf = []; head_flag = false; device_sn = sn })
  unfolding take_sn
  take_sn-sn_message t =
      rw
        (
          has_tail-info_message 0x01 sn check,
          assign_from-sn_message,
          drop-info_message 0x01 sn check,
        )
        refl

  -- A message with a serial number that comes in one piece, when no byte waits and no head has been
  -- found, is taken: the serial number is kept as it was sent, and no byte is left.
  pub uart_data_find_init_info-sn_message :
      (t : InitInfo)
      → uart_data_find_init_info
          (sn_message sn check)
          (record t { cmd_buf = []; head_flag = false })
        ≡ some (record t { cmd_buf = []; head_flag = false; device_sn = sn })
  unfolding take_info
  uart_data_find_init_info-sn_message t =
      taken_whole 0x01 sn check t ∙ rw (long_enough 0x01 sn check) (take_sn-sn_message t)
