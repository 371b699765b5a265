-- ===== src/Driver/Versions.antt =====
-- How `uart_data_find_init_info` of oradar_ros/sdk/src/ord_lidar_driver.cpp takes the messages with versions.
use cqut_lgv.Common.{
  ℕ, ◌+◌, ◌≤◌, ◌≡◌, ◌⊎◌, inl, inr, refl, ap, ◌∙◌, true, false, none, some, List, [], ◌∷◌, ◌++◌,
  ◌>>=◌, le→leb, length, drop, take, get_elem?, get_elem?-eq-get_or, get_elem?-ge, append_assoc,
  length-append, take-append_all, drop-append_add, get_or-append_add, arith,
}
use cqut_lgv.Driver.Info.{
  InitInfo, assign_from, version_from, take_bot, take_top, take_info, uart_data_find_init_info,
}
use cqut_lgv.Driver.Messages.{
  info_message, length-info_message, has_tail-info_message, drop-info_message, taken_whole,
  long_enough,
}

-- What a message with a version carries: a string, and the version, each behind its length.
abbrev pub version_strings : List ℕ → List ℕ → List ℕ
version_strings name version = length name ∷ (name ++ (length version ∷ version))

module _ (cmd : ℕ) (name version : List ℕ) (check : ℕ) where
  abbrev behind_name : List ℕ
  behind_name = version ++ (check ∷ 0x31 ∷ 0xF2 ∷ [])

  abbrev up_to_name : List ℕ
  up_to_name = 0xAA ∷ 0x55 ∷ cmd ∷ length (version_strings name version) ∷ length name ∷ name

  layout :
      info_message cmd (version_strings name version) check
      ≡ up_to_name ++ (length version ∷ behind_name)
  layout =
      ap (λ bs. 0xAA ∷ 0x55 ∷ cmd ∷ length (version_strings name version) ∷ length name ∷ bs)
        (append_assoc name (length version ∷ version) (check ∷ 0x31 ∷ 0xF2 ∷ []))

  version_from-info_message :
      version_from (info_message cmd (version_strings name version) check) ≡ some version
  unfolding version_from assign_from
  version_from-info_message =
      let msg = info_message cmd (version_strings name version) check in
      let k = 5 + length name in
      let n = length version in
      let size = length-info_message cmd (version_strings name version) check in
      let inner = length-append name (n ∷ version) in
      let fw_len : get_elem? msg k ≡ some n =
        ap (λ bs. get_elem? bs k) layout
        ∙ (get_elem?-eq-get_or (up_to_name ++ (n ∷ behind_name)) k 0
              (omega (arith, size, inner, ap length layout))
            ∙ ap some (get_or-append_add up_to_name (n ∷ behind_name) 0 k 0 (omega arith))) in
      rw (fw_len, le→leb (5 + length name + 1 + n) (length msg) (omega (arith, size, inner)))
        (ap some (
          ap (λ bs. take n (drop (5 + length name + 1) bs)) layout
          ∙ (ap (take n)
                (drop-append_add up_to_name (n ∷ behind_name) 1 (5 + length name + 1) (omega arith))
              ∙ take-append_all version (check ∷ 0x31 ∷ 0xF2 ∷ []) n refl)))

module _ (name version : List ℕ) (check : ℕ) (t : InitInfo) where
  abbrev strings : List ℕ
  strings = version_strings name version

  take_info_bot :
      take_info 0x02
        (length strings)
        (record t { cmd_buf = info_message 0x02 strings check; head_flag = true })
      ≡ some (record t { cmd_buf = []; head_flag = false; bot_fw_version = version })
  unfolding take_info take_bot
  take_info_bot = rw (long_enough 0x02 strings check) (
      rw
        (
          has_tail-info_message 0x02 strings check,
          version_from-info_message 0x02 name version check,
          drop-info_message 0x02 strings check,
        )
        refl)

  take_info_top :
      take_info 0x03
        (length strings)
        (record t { cmd_buf = info_message 0x03 strings check; head_flag = true })
      ≡ some (record t {
        cmd_buf = [];
        head_flag = true;
        top_fw_version = version;
        init_info_flag = false;
      })
  unfolding take_info take_top
  take_info_top = rw (long_enough 0x03 strings check) (
      rw
        (
          has_tail-info_message 0x03 strings check,
          version_from-info_message 0x03 name version check,
        )
        refl)

  -- A message with the version of the lower or of the upper part that comes in one piece, when no byte
  -- waits and no head has been found, is taken: the version is kept as it was sent, and no byte is left.
  -- The second one ends the search for information, but leaves the flag of the head set.
  pub uart_data_find_init_info-version_strings :
      (uart_data_find_init_info
          (info_message 0x02 (version_strings name version) check)
          (record t { cmd_buf = []; head_flag = false })
        ≡ some (record t { cmd_buf = []; head_flag = false; bot_fw_version = version }))
      × (uart_data_find_init_info
            (info_message 0x03 (version_strings name version) check)
            (record t { cmd_buf = []; head_flag = false })
          ≡ some (record t {
            cmd_buf = [];
            head_flag = true;
            top_fw_version = version;
            init_info_flag = false;
          }))
  uart_data_find_init_info-version_strings = (
    taken_whole 0x02 strings check t ∙ take_info_bot,
    taken_whole 0x03 strings check t ∙ take_info_top,
  )

module _ (skipped : ℕ) (carried : List ℕ) (check : ℕ) (far : length carried + 3 ≤ skipped) where
  version_from_outside :
      (cmd : ℕ) → version_from (info_message cmd (skipped ∷ carried) check) ≡ none
  unfolding version_from assign_from
  version_from_outside cmd =
      let msg = info_message cmd (skipped ∷ carried) check in
      ap (λ o. o >>= λ fw_len. assign_from msg (5 + skipped + 1) fw_len)
        (get_elem?-ge msg (5 + skipped)
          (omega (arith, length-info_message cmd (skipped ∷ carried) check)))

  take_info_bot_outside :
      (t : InitInfo)
      → take_info 0x02
          (length (skipped ∷ carried))
          (record t { cmd_buf = info_message 0x02 (skipped ∷ carried) check; head_flag = true })
        ≡ none
  unfolding take_info take_bot
  take_info_bot_outside t =
      rw (long_enough 0x02 (skipped ∷ carried) check)
        (rw (has_tail-info_message 0x02 (skipped ∷ carried) check, version_from_outside 0x02) refl)

  take_info_top_outside :
      (t : InitInfo)
      → take_info 0x03
          (length (skipped ∷ carried))
          (record t { cmd_buf = info_message 0x03 (skipped ∷ carried) check; head_flag = true })
        ≡ none
  unfolding take_info take_top
  take_info_top_outside t =
      rw (long_enough 0x03 (skipped ∷ carried) check)
        (rw (has_tail-info_message 0x03 (skipped ∷ carried) check, version_from_outside 0x03) refl)

-- A message with a version that comes in one piece, when no byte waits and no head has been found,
-- with the right tail, but whose first length is larger than what follows it: the driver reads
-- behind the end of its buffer.
pub uart_data_find_init_info_outside :
    (cmd skipped : ℕ) (carried : List ℕ) (check : ℕ) (t : InitInfo)
    → (cmd ≡ 0x02) ⊎ (cmd ≡ 0x03)
    → length carried + 3 ≤ skipped
    → uart_data_find_init_info
        (info_message cmd (skipped ∷ carried) check)
        (record t { cmd_buf = []; head_flag = false })
      ≡ none
uart_data_find_init_info_outside cmd skipped carried check t (inl e) far =
    ap
      (λ c.
        uart_data_find_init_info (info_message c (skipped ∷ carried) check)
          (record t { cmd_buf = []; head_flag = false }))
      e
    ∙ (taken_whole 0x02 (skipped ∷ carried) check t
        ∙ take_info_bot_outside skipped carried check far t)
uart_data_find_init_info_outside cmd skipped carried check t (inr e) far =
    ap
      (λ c.
        uart_data_find_init_info (info_message c (skipped ∷ carried) check)
          (record t { cmd_buf = []; head_flag = false }))
      e
    ∙ (taken_whole 0x03 (skipped ∷ carried) check t
        ∙ take_info_top_outside skipped carried check far t)
