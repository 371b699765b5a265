-- ===== src/Driver/Messages.antt =====
-- The messages with which a lidar tells its information, as `uart_data_find_init_info` of
-- oradar_ros/sdk/src/ord_lidar_driver.cpp meets them.
use cqut_lgv.Common.{
  ℕ, ◌+◌, ◌≡◌, refl, true, false, List, [], ◌∷◌, ◌++◌, leb, le→leb, lt→ltb, length, drop,
  length-append, drop-append_add, get_or-append_add, arith,
}
use cqut_lgv.Driver.Info.{
  InitInfo, find_info_head, seek_info, has_tail, take_info, uart_data_find_init_info,
}

-- A message of the lidar: two bytes of head, the command, the length, what it carries, a checksum and
-- the tail.
abbrev pub info_message : ℕ → List ℕ → ℕ → List ℕ
info_message cmd carried check =
    0xAA ∷ 0x55 ∷ cmd ∷ length carried ∷ (carried ++ (check ∷ 0x31 ∷ 0xF2 ∷ []))

module _ (cmd : ℕ) (carried : List ℕ) (check : ℕ) where
  abbrev tail : List ℕ
  tail = check ∷ 0x31 ∷ 0xF2 ∷ []

  abbrev lead : List ℕ
  lead = 0xAA ∷ 0x55 ∷ cmd ∷ length carried ∷ carried

  pub length-info_message : length (info_message cmd carried check) ≡ length carried + 7
  length-info_message = omega (arith, length-append carried tail)

  pub has_tail-info_message : has_tail (info_message cmd carried check) (length carried) ≡ true
  unfolding has_tail
  has_tail-info_message =
      rw
        (
          get_or-append_add lead tail 1 (5 + length carried) 0 (omega arith),
          get_or-append_add lead tail 2 (6 + length carried) 0 (omega arith),
        )
        refl

  pub drop-info_message : drop (length carried + 7) (info_message cmd carried check) ≡ []
  drop-info_message = drop-append_add lead tail 3 (length carried + 7) (omega arith)

  -- A message that comes in one piece is looked at whole.
  pub taken_whole :
      (t : InitInfo)
      → uart_data_find_init_info
          (info_message cmd carried check)
          (record t { cmd_buf = []; head_flag = false })
        ≡ take_info cmd
            (length carried)
            (record t { cmd_buf = info_message cmd carried check; head_flag = true })
  unfolding uart_data_find_init_info seek_info find_info_head
  taken_whole t =
      rw (lt→ltb 3 (length (info_message cmd carried check)) (omega (arith, length-info_message)))
        refl

  pub long_enough : leb (length carried + 7) (length (info_message cmd carried check)) ≡ true
  long_enough = le→leb _ _ (omega (arith, length-info_message))
