-- ===== src/Reader/Recover.antt =====
-- How `uart_data_handle` of ord_lidar_driver.cpp goes on behind a frame that was damaged on the way.
pub mod Calls
use cqut_lgv.Common.{
  ℕ, suc, ◌+◌, ◌-◌, ◌*◌, ◌≤◌, ◌<◌, ◌≡◌, ◌≢◌, refl, sym, ap, ap₂, ◌∙◌, Bool, true, false, some, List,
  [], ◌∷◌, ◌++◌, arith, le→ltb, ◌==◌, length, take, drop, length-append, take-append_le,
  get_or-append_lt, All,
}
use cqut_lgv.Floats.{Floats}
use cqut_lgv.Crc.{crc8}
use cqut_lgv.Crc.Polynomial.{IsByte}
use cqut_lgv.Protocol.{LidarFrame, head_flag_none, frame_of_bytes}
use cqut_lgv.Protocol.Layout.{frame_bytes, length-frame_bytes}
use cqut_lgv.Reader.{Reader, reset_flags, sub_size}
use cqut_lgv.Reader.Loop.{
  continue, find_header, search_from, sync_header, sync_round, round, handle_loop, uart_data_handle,
  version_round, frame_round, after_frame, crc_ok,
}
use cqut_lgv.Reader.Checksum.{crc_ok-single_byte}
use cqut_lgv.Reader.Resync.{
  NoHeader, at_frame, stored, round_enter, sync_round_long, handle_loop_return, sync_header-frame,
  uart_data_handle_loop,
}
use cqut_lgv.Reader.Parser.Laws.{crc_ok-append}
use cqut_lgv.Reader.Stream.{
  IsSent, frames_bytes, length-frames_bytes, run_frames, round-found, handle_loop_continue,
  after_frame_short, after_frame_long, head_flag-stored, handle_loop-sent, uart_data_handle-sent,
  frame_bytes-append,
}
use cqut_lgv.Reader.Stream.Buffered.{with_buf}

-- Bytes that stand in a frame's place: the header is whole and no other header stands among the rest,
-- but the checksum is wrong.
pub record IsDamaged (bad : List ℕ) : Type 0 where
  pub header : take 2 bad ≡ 0x54 ∷ 0x2C ∷ []
  pub long : length bad ≡ 47
  pub clean : NoHeader (drop 2 bad)
  pub wrong : crc_ok bad ≡ false

module _ {F D : Type 0} ⦃fl : Floats F D⦄ where
  -- The search stops at once at a header in front.
  sync_header_front :
      (c : ℕ) (rest : List ℕ) (r : Reader F D)
      → r.parsed_data.head_flag ≡ head_flag_none
      → sync_header (with_buf (0x54 ∷ 0x2C ∷ c ∷ rest) r) ≡ (0, at_frame (0x54 ∷ 0x2C ∷ c ∷ rest) r)
  unfolding sync_header find_header
  sync_header_front c rest r unset =
      ap (λ flag. search_from flag (with_buf (0x54 ∷ 0x2C ∷ c ∷ rest) r)) unset

  frame_round_wrong :
      (buf : List ℕ) (r : Reader F D)
      → crc_ok buf ≡ false
      → frame_round 0 (at_frame buf r) ≡ continue 0 (reset_flags 2 (at_frame buf r))
  unfolding frame_round version_round
  frame_round_wrong buf r wrong = rw wrong refl

  -- The round that meets the damaged frame removes its header alone.
  round-damaged :
      (c : ℕ) (rest : List ℕ) (r : Reader F D)
      → length rest ≤ 9000
      → 44 ≤ length rest
      → crc_ok (0x54 ∷ 0x2C ∷ c ∷ rest) ≡ false
      → r.parsed_data.head_flag ≡ head_flag_none
      → round 0 (with_buf (0x54 ∷ 0x2C ∷ c ∷ rest) r)
        ≡ continue 0 (reset_flags 2 (at_frame (0x54 ∷ 0x2C ∷ c ∷ rest) r))
  round-damaged c rest r small long wrong unset =
      let buf = 0x54 ∷ 0x2C ∷ c ∷ rest in
      round_enter 0 (with_buf buf r) (omega arith)
      ∙ (ap sync_round (sync_header_front c rest r unset)
          ∙ (sync_round_long 0 (at_frame buf r) (omega arith) ∙ frame_round_wrong buf r wrong))

  -- The round behind it searches the rest of the damaged frame, and stores the frame that it finds.
  round-behind :
      (junk tail : List ℕ) (f : LidarFrame) (r : Reader F D)
      → IsSent f
      → NoHeader junk
      → length junk + length tail ≤ 9000
      → r.parsed_data.head_flag ≡ head_flag_none
      → round 0 (with_buf (junk ++ frame_bytes f tail) r)
        ≡ after_frame (length junk) (with_buf tail (stored f r))
  round-behind junk tail f r sent clean small unset =
      round-found f sent tail r 0 (length junk) (junk ++ frame_bytes f tail)
        (omega
          (arith, length-append junk (frame_bytes f tail), length-frame_bytes f tail sent.points))
        (sync_header-frame f junk tail r sent.header sent.ver_len clean unset)

  -- What is left of the flags makes no difference to the next frame.
  stored-reset_flags :
      (f : LidarFrame) (buf : List ℕ) (r : Reader F D)
      → stored f (reset_flags 2 (at_frame buf r)) ≡ stored f r
  unfolding reset_flags
  stored-reset_flags f buf r = refl

  -- Two rounds on a damaged frame with a sent one behind it.
  pub two_rounds :
      (bad tail : List ℕ) (f : LidarFrame) (r : Reader F D)
      → IsDamaged bad
      → IsSent f
      → length tail ≤ 4700
      → r.parsed_data.head_flag ≡ head_flag_none
      → (s : Reader F D) × (round 0 (with_buf (bad ++ frame_bytes f tail) r) ≡ continue 0 s)
        × (round 0 s ≡ after_frame 45 (with_buf tail (stored f r)))
  unfolding reset_flags
  two_rounds [] tail f r damaged sent small unset = absurd (omega (arith, damaged.long))
  two_rounds (a ∷ []) tail f r damaged sent small unset = absurd (omega (arith, damaged.long))
  two_rounds (a ∷ b ∷ []) tail f r damaged sent small unset = absurd (omega (arith, damaged.long))
  two_rounds (a ∷ b ∷ c ∷ junk) tail f r damaged sent small unset =
      let rest = junk ++ frame_bytes f tail in
      let buf = 0x54 ∷ 0x2C ∷ c ∷ rest in
      let a_eq : a ≡ 0x54 = cc damaged.header in
      let b_eq : b ≡ 0x2C = cc damaged.header in
      let same : a ∷ b ∷ c ∷ rest ≡ buf = ap₂ (λ x y. x ∷ y ∷ c ∷ rest) a_eq b_eq in
      let len = length-append junk (frame_bytes f tail) in
      let len_f = length-frame_bytes f tail sent.points in
      let long = damaged.long in
      (
        reset_flags 2 (at_frame buf r),
        ap (λ bs. round 0 (with_buf bs r)) same
            ∙ round-damaged c rest r (omega (arith, len, len_f, long))
                (omega (arith, len, len_f, long))
                (ap crc_ok (sym same)
                  ∙ (crc_ok-append (a ∷ b ∷ c ∷ junk) (frame_bytes f tail) (omega (arith, long))
                      ∙ damaged.wrong))
                unset,
        round-behind (c ∷ junk) tail f (reset_flags 2 (at_frame buf r)) sent damaged.clean
              (omega (arith, long)) refl
            ∙ ap₂ (λ k s. after_frame k (with_buf tail s)) (omega (arith, long))
                (stored-reset_flags f buf r),
      )

-- A right frame in which one byte behind the header has been changed is damaged, if no header stands
-- among its other bytes.
pub IsDamaged-single_byte :
    (a b : ℕ) (before after : List ℕ) (c c' : ℕ)
    → a ≡ 0x54
    → b ≡ 0x2C
    → All IsByte before
    → All IsByte after
    → IsByte c
    → IsByte c'
    → c ≢ c'
    → length before + length after ≡ 44
    → crc_ok (a ∷ b ∷ (before ++ (c ∷ after))) ≡ true
    → NoHeader (before ++ (c' ∷ after))
    → IsDamaged (a ∷ b ∷ (before ++ (c' ∷ after)))
IsDamaged-single_byte a b before after c c' ea eb hb ha q q' differ long right clean = record {
  header = ap₂ (λ x y. x ∷ y ∷ []) ea eb;
  long = omega (arith, length-append before (c' ∷ after));
  clean = clean;
  wrong =
      crc_ok-single_byte (a ∷ b ∷ before) after c c' differ (omega arith, (omega arith, hb)) ha q q'
        (omega arith) right;
}
