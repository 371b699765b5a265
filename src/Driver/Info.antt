-- ===== src/Driver/Info.antt =====
-- `uart_data_find_init_info`, oradar_ros/sdk/src/ord_lidar_driver.cpp: the device information that a
-- lidar sends when it starts. A read or an erasure behind the end of `cmd_buf_` is a fault, `none`.
-- The function's `static uint8_t head_flag` is a field.
use cqut_lgv.Common.{
  ℕ, suc, ◌+◌, Bool, true, false, ◌&&◌, Option, none, some, List, [], ◌∷◌, ◌++◌, ◌>>=◌, ltb, leb,
  ◌==◌, if◌then◌else◌, length, get_elem?, get_or, take, drop,
}

pub record InitInfo : Type 0 where
  pub cmd_buf : List ℕ
  pub head_flag : Bool
  pub device_sn : List ℕ
  pub bot_fw_version : List ℕ
  pub top_fw_version : List ℕ
  pub init_info_flag : Bool

-- The search for 0xAA 0x55 while more than three bytes are left.
unfoldable pub find_info_head : List ℕ → ℕ × Bool
find_info_head [] = (0, false)
find_info_head (a ∷ []) = (0, false)
find_info_head (a ∷ b ∷ []) = (0, false)
find_info_head (a ∷ b ∷ c ∷ []) = (0, false)
find_info_head (a ∷ b ∷ c ∷ d ∷ rest) =
    if (a == 0xAA) && (b == 0x55)
    then (0, true)
    else (let found = find_info_head (b ∷ c ∷ d ∷ rest) in (suc found.0, found.1))

-- The flag after the search, and the bytes in front of `pos` erased.
unfoldable pub seek_info : InitInfo → InitInfo
unfolding find_info_head
seek_info t =
    if t.head_flag
    then t
    else (let found = find_info_head t.cmd_buf in
        record t { cmd_buf = drop found.0 t.cmd_buf; head_flag = found.1 })

-- `assign((char *)&cmd_buf_[start], n)`
unfoldable pub assign_from : List ℕ → ℕ → ℕ → Option (List ℕ)
assign_from buf start n =
    if leb (start + n) (length buf) then some (take n (drop start buf)) else none

-- Whether the two bytes of the tail stand behind the data. The caller has tested the length.
unfoldable pub has_tail : List ℕ → ℕ → Bool
has_tail buf data_len =
    (get_or buf (5 + data_len) 0 == 0x31) && (get_or buf (6 + data_len) 0 == 0xF2)

-- A version stands behind a first string whose length is at 4.
unfoldable pub version_from : List ℕ → Option (List ℕ)
unfolding assign_from
version_from buf = do
  skipped ← get_elem? buf 4
  fw_len ← get_elem? buf (5 + skipped)
  assign_from buf (5 + skipped + 1) fw_len

-- The command 0x01: the serial number.
unfoldable pub take_sn : ℕ → InitInfo → Option InitInfo
unfolding assign_from has_tail
take_sn data_len t =
    let rest = record t { cmd_buf = drop (data_len + 7) t.cmd_buf; head_flag = false } in
    if has_tail t.cmd_buf data_len
    then (assign_from t.cmd_buf 4 data_len >>= λ sn. some (record rest { device_sn = sn }))
    else some rest

-- The command 0x02: the version of the lower part.
unfoldable pub take_bot : ℕ → InitInfo → Option InitInfo
unfolding version_from has_tail
take_bot data_len t =
    let rest = record t { cmd_buf = drop (data_len + 7) t.cmd_buf; head_flag = false } in
    if has_tail t.cmd_buf data_len
    then (version_from t.cmd_buf >>= λ version. some (record rest { bot_fw_version = version }))
    else some rest

-- The command 0x03: the version of the upper part, which ends the collection. The head flag stays.
unfoldable pub take_top : ℕ → InitInfo → Option InitInfo
unfolding version_from has_tail
take_top data_len t =
    let rest = record t { cmd_buf = [] } in
    if has_tail t.cmd_buf data_len
    then (version_from t.cmd_buf >>= λ version.
        some (record rest { top_fw_version = version; init_info_flag = false }))
    else some rest

-- The message at the front of the buffer, once it is long enough.
unfoldable pub take_info : ℕ → ℕ → InitInfo → Option InitInfo
unfolding take_sn take_bot take_top
take_info cur_cmd data_len t =
    let long_enough = leb (data_len + 7) (length t.cmd_buf) in
    if cur_cmd == 0x01
    then (if long_enough then take_sn data_len t else some t)
    else if cur_cmd == 0x02
    then (if long_enough then take_bot data_len t else some t)
    else if cur_cmd == 0x03
    then (if long_enough then take_top data_len t else some t)
    else some (record t { cmd_buf = []; head_flag = false })

unfoldable pub uart_data_find_init_info : List ℕ → InitInfo → Option InitInfo
unfolding seek_info take_info
uart_data_find_init_info bytes t =
    let t' = seek_info (record t { cmd_buf = t.cmd_buf ++ bytes }) in
    if t'.head_flag && ltb 3 (length t'.cmd_buf)
    then take_info (get_or t'.cmd_buf 2 0) (get_or t'.cmd_buf 3 0) t'
    else some t'
