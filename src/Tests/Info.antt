-- ===== src/Tests/Info.antt =====
-- The messages with versions: oradar_ros/sdk/src/ord_lidar_driver.cpp.
use cqut_lgv.Common.{◌≡◌, refl, inl, true, false, none, some, [], ◌∷◌, arith}
use cqut_lgv.Driver.Info.{InitInfo, uart_data_find_init_info}
use cqut_lgv.Driver.Messages.{info_message}
use cqut_lgv.Driver.Versions.{
  version_strings, uart_data_find_init_info-version_strings, uart_data_find_init_info_outside,
}

abbrev waiting : InitInfo
waiting = record {
  cmd_buf = [];
  head_flag = false;
  device_sn = [];
  bot_fw_version = [];
  top_fw_version = [];
  init_info_flag = true;
}

uart_data_find_init_info-version_strings_example :
    (uart_data_find_init_info (info_message 0x02 (version_strings (1 ∷ 2 ∷ []) (3 ∷ [])) 9) waiting
      ≡ some (record waiting { bot_fw_version = 3 ∷ [] }))
    × (uart_data_find_init_info
          (info_message 0x03 (version_strings (1 ∷ 2 ∷ []) (3 ∷ [])) 9)
          waiting
        ≡ some
            (record waiting { head_flag = true; top_fw_version = 3 ∷ []; init_info_flag = false }))
uart_data_find_init_info-version_strings_example =
    uart_data_find_init_info-version_strings (1 ∷ 2 ∷ []) (3 ∷ []) 9 waiting

uart_data_find_init_info_outside_example :
    uart_data_find_init_info (info_message 0x02 (200 ∷ 1 ∷ 2 ∷ []) 9) waiting ≡ none
uart_data_find_init_info_outside_example =
    uart_data_find_init_info_outside 0x02 200 (1 ∷ 2 ∷ []) 9 waiting (inl refl) (omega arith)
