-- ===== src/Reader/Loop.antt =====
-- The loop of `uart_data_handle`, oradar_ros/sdk/src/ord_lidar_driver.cpp: it finds the frames in the buffer,
-- checks them and has them stored.
use cqut_lgv.Common.{
  ℕ, zero, suc, ◌-◌, ◌*◌, Bool, true, false, ◌&&◌, Option, none, some, List, [], ◌∷◌, ◌++◌, ltb,
  ◌==◌, if◌then◌else◌, length, take, drop,
}
use cqut_lgv.Floats.{Floats}
use cqut_lgv.Crc.{crc8}
use cqut_lgv.Protocol.{
  FrameHeadFlag, ProtocolVersion, head_flag_none, head_flag_ok, version_none, version_ms200,
  frame_size, frame_of_bytes,
}
use cqut_lgv.Reader.{Reader, sub_size, store_package, parse_header, reset_flags}

-- The search for 0x54 0x2C: the index only moves forward, so the list is what is left from `pos` on,
-- and `pos < bin_buf_.size() - 2` says that more than two bytes are left.
unfoldable pub find_header : List ℕ → ℕ → ℕ × Bool
find_header [] at = (at, false)
find_header (a ∷ []) at = (at, false)
find_header (a ∷ b ∷ []) at = (at, false)
find_header (a ∷ b ∷ c ∷ rest) at =
    if (a == 0x54) && (b == 0x2C) then (at, true) else find_header (b ∷ c ∷ rest) (suc at)

-- The flags after the search, and the bytes in front of `pos` erased.
unfoldable pub found_header : {F D : Type 0} → ℕ × Bool → Reader F D → ℕ × Reader F D
found_header (at, true) r = (
  at,
  record r {
    parsed_data = record r.parsed_data { head_flag = head_flag_ok; version = version_ms200 };
    bin_buf = drop at r.bin_buf;
  },
)
found_header (at, false) r = (at, record r { bin_buf = drop at r.bin_buf })

-- With the head flag set the search stops at once.
unfoldable pub search_from : {F D : Type 0} → FrameHeadFlag → Reader F D → ℕ × Reader F D
unfolding find_header found_header
search_from head_flag_none r = found_header (find_header r.bin_buf 0) r
search_from head_flag_ok r = (0, r)

unfoldable pub sync_header : {F D : Type 0} → Reader F D → ℕ × Reader F D
unfolding search_from
sync_header r = search_from r.parsed_data.head_flag r

-- How a round of the outer loop ends: with the function's result, or with the next round.
pub data Round (F D : Type 0) : Type 0 where
  return : Bool → Reader F D → Round F D
  continue : ℕ → Reader F D → Round F D

-- `crc_check == pkg->crc8`
unfoldable pub crc_ok : List ℕ → Bool
crc_ok buf = crc8 (take (frame_size - 1) buf) == (frame_of_bytes buf).crc8

module _ {F D : Type 0} ⦃fl : Floats F D⦄ where
  -- A frame with the right checksum is stored, and its bytes are removed.
  unfoldable pub accept_frame : Reader F D → Reader F D
  unfolding parse_header store_package reset_flags
  accept_frame r =
      let pkg = frame_of_bytes r.bin_buf in
      reset_flags frame_size (store_package pkg (parse_header pkg r))

  -- After a frame the loop is left when the rest is shorter than another one.
  unfoldable pub after_frame : ℕ → Reader F D → Round F D
  after_frame at r = if ltb (length r.bin_buf) frame_size then return true r else continue at r

  -- A round once the buffer holds a frame's number of bytes. After a wrong checksum the header alone
  -- is removed.
  unfoldable pub version_round : ProtocolVersion → ℕ → Reader F D → Round F D
  unfolding crc_ok accept_frame after_frame reset_flags
  version_round version_ms200 at r =
      if crc_ok r.bin_buf then after_frame at (accept_frame r) else continue at (reset_flags 2 r)
  version_round version_none at r = continue at r

  unfoldable pub frame_round : ℕ → Reader F D → Round F D
  unfolding version_round
  frame_round at r = version_round r.parsed_data.version at r

  -- A round once the search for a header is over.
  unfoldable pub sync_round : ℕ × Reader F D → Round F D
  unfolding frame_round
  sync_round (at, r) =
      if ltb (length r.bin_buf) frame_size then return false r else frame_round at r

  -- A round of the outer loop, entered with the `pos` that the last round left.
  unfoldable pub round : ℕ → Reader F D → Round F D
  unfolding sync_header sync_round
  round at r =
      if ltb at (sub_size (length r.bin_buf) 2) then sync_round (sync_header r) else return true r

  -- The outer loop on fuel; `none` means that the fuel ran out.
  unfoldable pub handle_loop : ℕ → ℕ → Reader F D → Option (Bool × Reader F D)
  unfolding round
  handle_loop zero at r = none
  handle_loop (suc fuel) at r = elim (round at r) [
    | return result r' ↦ some (result, r')
    | continue at' r' ↦ handle_loop fuel at' r'
  ]

  -- The bytes are buffered; too few wait, and more than a hundred frames are thrown away.
  unfoldable pub uart_data_handle : List ℕ → Reader F D → Option (Bool × Reader F D)
  unfolding handle_loop
  uart_data_handle bytes r =
      let buf = r.bin_buf ++ bytes in
      if ltb (length buf) frame_size
      then some (false, record r { bin_buf = buf })
      else if ltb (frame_size * 100) (length buf)
      then some (false, record r { bin_buf = [] })
      else handle_loop (suc (length buf)) 0 (record r { bin_buf = buf })
