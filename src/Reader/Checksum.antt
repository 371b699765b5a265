-- ===== src/Reader/Checksum.antt =====
-- Which damaged frames the checksum test of ord_lidar_driver.cpp turns away.
use cqut_lgv.Common.{
  ℕ, suc, ◌-◌, ◌<◌, ◌≡◌, ◌≢◌, inl, inr, sym, ap, ◌∙◌, true, false, List, ◌∷◌, ◌++◌, arith, ==_iff,
  ltb, ltb→lt, ltb→ge, Bool-cases, length, take, All, All-take, take-append_add, get_or-append_add,
  append-nil,
}
use cqut_lgv.Floats.{Floats}
use cqut_lgv.Crc.{crc8}
use cqut_lgv.Crc.Polynomial.{IsByte}
use cqut_lgv.Crc.Detect.{crc8_single_byte}
use cqut_lgv.Protocol.{version_ms200, frame_of_bytes, u8_at}
use cqut_lgv.Reader.{Reader, reset_flags}
use cqut_lgv.Reader.Loop.{continue, version_round, frame_round, crc_ok}

crc_ok_iff : (buf : List ℕ) → crc_ok buf ≡ true → crc8 (take 46 buf) ≡ u8_at buf 46
unfolding crc_ok frame_of_bytes
crc_ok_iff buf e = (==_iff _ _).0 e

module _ (before after : List ℕ) (b : ℕ) where
  -- The checked bytes and the checksum, if the byte `b` is one of those that are checked.
  checked_bytes :
      length before < 46
      → take 46 (before ++ (b ∷ after)) ≡ before ++ (b ∷ take (45 - length before) after)
  checked_bytes h =
      let k_eq : 46 - length before ≡ suc (45 - length before) = omega arith in
      take-append_add before (b ∷ after) (46 - length before) 46 (omega arith)
      ∙ ap (λ k. before ++ take k (b ∷ after)) k_eq

  checksum_byte :
      length before < 46 → u8_at (before ++ (b ∷ after)) 46 ≡ u8_at after (45 - length before)
  checksum_byte h =
      let k_eq : 46 - length before ≡ suc (45 - length before) = omega arith in
      get_or-append_add before (b ∷ after) (46 - length before) 46 0 (omega arith)
      ∙ ap (λ k. u8_at (b ∷ after) k) k_eq

  -- If it is the checksum itself.
  before_checksum : length before ≡ 46 → take 46 (before ++ (b ∷ after)) ≡ before
  before_checksum h = take-append_add before (b ∷ after) 0 46 (omega arith) ∙ append-nil before

  at_checksum : length before ≡ 46 → u8_at (before ++ (b ∷ after)) 46 ≡ b
  at_checksum h = get_or-append_add before (b ∷ after) 0 46 0 (omega arith)

module _ (before after : List ℕ) (b b' : ℕ) (differ : b ≢ b') where
  crc_ok-checked :
      All IsByte before
      → All IsByte after
      → IsByte b
      → IsByte b'
      → length before < 46
      → crc_ok (before ++ (b ∷ after)) ≡ true
      → crc_ok (before ++ (b' ∷ after)) ≢ true
  crc_ok-checked hb ha q q' h e e' =
      crc8_single_byte before (take (45 - length before) after) b b' hb
        (All-take IsByte (45 - length before) after ha) q q' differ
        (sym (ap crc8 (checked_bytes before after b h))
          ∙ (crc_ok_iff _ e
              ∙ (checksum_byte before after b h
                  ∙ (sym (checksum_byte before after b' h)
                      ∙ (sym (crc_ok_iff _ e') ∙ ap crc8 (checked_bytes before after b' h))))))

  crc_ok-checksum :
      length before ≡ 46
      → crc_ok (before ++ (b ∷ after)) ≡ true
      → crc_ok (before ++ (b' ∷ after)) ≢ true
  crc_ok-checksum h e e' = differ (
      sym (at_checksum before after b h)
      ∙ (sym (crc_ok_iff _ e)
          ∙ (ap crc8 (before_checksum before after b h)
              ∙ (sym (ap crc8 (before_checksum before after b' h))
                  ∙ (crc_ok_iff _ e' ∙ at_checksum before after b' h)))))

  -- Of two buffers that differ in one byte of the frame in front, the checksum of at most one is
  -- right.
  pub crc_ok-single_byte :
      All IsByte before
      → All IsByte after
      → IsByte b
      → IsByte b'
      → length before < 47
      → crc_ok (before ++ (b ∷ after)) ≡ true
      → crc_ok (before ++ (b' ∷ after)) ≡ false
  crc_ok-single_byte hb ha q q' h e = elim (Bool-cases (crc_ok (before ++ (b' ∷ after)))) [
    | inr wrong ↦ wrong
    | inl right ↦ absurd (elim (Bool-cases (ltb (length before) 46)) [
      | inl lt ↦ crc_ok-checked hb ha q q' (ltb→lt _ _ lt) e right
      | inr ge ↦ crc_ok-checksum (omega (arith, ltb→ge _ _ ge)) e right
    ])
  ]

-- A frame with a right checksum in which one byte has been changed, the checksum byte included, is
-- never stored: the round removes the two bytes of the header, resets the flags, and leaves the scans
-- and everything else as they were.
pub frame_round-damaged :
    {F D : Type 0} ⦃fl : Floats F D⦄ (before after : List ℕ) (b b' at : ℕ) (r : Reader F D)
    → All IsByte before
    → All IsByte after
    → IsByte b
    → IsByte b'
    → b ≢ b'
    → length before < 47
    → crc_ok (before ++ (b ∷ after)) ≡ true
    → r.parsed_data.version ≡ version_ms200
    → r.bin_buf ≡ before ++ (b' ∷ after)
    → frame_round at r ≡ continue at (reset_flags 2 r)
unfolding frame_round
frame_round-damaged before after b b' at r hb ha q q' ne h e known buf =
    ap (λ ver. version_round ver at r) known ∙ rw wrong
  where
    wrong : crc_ok r.bin_buf ≡ false
    wrong = ap crc_ok buf ∙ crc_ok-single_byte before after b b' ne hb ha q q' h e
