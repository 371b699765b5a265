-- ===== src/Reader/Parser/Rounds.antt =====
-- The rounds of `uart_data_handle` (oradar_ros/sdk/src/ord_lidar_driver.cpp) do what the parser does.
use cqut_lgv.Common.{
  ℕ, ◌+◌, ◌≤◌, ◌<◌, ◌≡◌, ◌⊎◌, refl, sym, ap, ap₂, subst, ◌∙◌, inl, inr, true, false, List, [], ◌∷◌,
  arith, ltb, ltb→lt, ltb→ge, if_either, length, drop, length-drop,
}
use cqut_lgv.Floats.{Floats}
use cqut_lgv.Protocol.{LidarFrame, head_flag_ok, version_ms200, frame_of_bytes}
use cqut_lgv.Protocol.Layout.{frame_bytes}
use cqut_lgv.Reader.{Reader, sub_size, parse_header, reset_flags}
use cqut_lgv.Reader.Loop.{
  Round, return, continue, sync_header, sync_round, round, version_round, frame_round, after_frame,
  accept_frame, crc_ok,
}
use cqut_lgv.Reader.Resync.{at_frame, stored}
use cqut_lgv.Reader.Stream.Buffered.{with_buf, store_package-with_buf}
use cqut_lgv.Reader.Parser.{is_headed, Yields, here, step, next_headed, next_wrong}
use cqut_lgv.Reader.Parser.Search.{
  IsPrepared, Parsed, Parsed-trans, Parsed-none, Synced, sync_header-Synced,
}

module _ {F D : Type 0} ⦃fl : Floats F D⦄ where
  flagged :
      (r : Reader F D)
      → r.parsed_data.head_flag ≡ head_flag_ok
      → r.parsed_data.version ≡ version_ms200
      → at_frame r.bin_buf r ≡ r
  flagged r set known =
      ap₂ (λ h v. record r { parsed_data = record r.parsed_data { head_flag = h; version = v } })
        (sym set) (sym known)

  -- A frame that is accepted, whatever it is.
  accept_frame-at_frame :
      (buf : List ℕ) (r : Reader F D)
      → accept_frame (at_frame buf r) ≡ with_buf (drop 47 buf) (stored (frame_of_bytes buf) r)
  unfolding accept_frame reset_flags parse_header
  accept_frame-at_frame buf r =
      let pkg = frame_of_bytes buf in
      ap (reset_flags 47)
        (store_package-with_buf pkg (parse_header pkg (at_frame (frame_bytes pkg []) r)) buf)

  Parsed-accept_frame :
      (buf : List ℕ) (r : Reader F D)
      → r.bin_buf ≡ buf
      → is_headed buf ≡ true
      → 47 ≤ length buf
      → crc_ok buf ≡ true
      → Parsed (frame_of_bytes buf ∷ []) r (with_buf (drop 47 buf) (stored (frame_of_bytes buf) r))
  unfolding reset_flags
  Parsed-accept_frame buf r e headed long right = record {
    yields =
        subst (λ b. Yields b (frame_of_bytes buf ∷ []) (drop 47 buf)) (sym e)
          (step (frame_of_bytes buf ∷ []) 47 (next_headed buf headed long right) here refl);
    same = refl;
    prepared = inl refl;
  }

  Parsed-reset_flags :
      (r : Reader F D)
      → is_headed r.bin_buf ≡ true
      → 47 ≤ length r.bin_buf
      → crc_ok r.bin_buf ≡ false
      → Parsed [] r (reset_flags 2 r)
  unfolding reset_flags
  Parsed-reset_flags r headed long wrong = record {
    yields = step [] 2 (next_wrong r.bin_buf headed long wrong) here refl;
    same = refl;
    prepared = inl refl;
  }

  -- A round that is over with the search goes on as the parser does.
  abbrev Goes : ℕ → Reader F D → Round F D → Type 0
  Goes k r (return b s) = (gs : List LidarFrame) × Parsed gs r s × (length s.bin_buf < 47)
  Goes k r (continue j s) =
      (gs : List LidarFrame) × Parsed gs r s
      × (2 + j + length s.bin_buf ≤ k + length r.bin_buf)
      × (2 ≤ length s.bin_buf)

  after_frame-Goes :
      (k : ℕ) (gs : List LidarFrame) (r s : Reader F D)
      → Parsed gs r s
      → 2 + length s.bin_buf ≤ length r.bin_buf
      → Goes k r (after_frame k s)
  unfolding after_frame
  after_frame-Goes k gs r s parsed fewer =
      if_either (Goes k r) (ltb (length s.bin_buf) 47) (return true s) (continue k s)
        (λ short. (gs, parsed, ltb→lt _ _ short))
        (λ long. (gs, parsed, omega arith, omega (arith, ltb→ge (length s.bin_buf) 47 long)))

  frame_round-Goes :
      (k : ℕ) (r : Reader F D)
      → r.parsed_data.head_flag ≡ head_flag_ok
      → r.parsed_data.version ≡ version_ms200
      → is_headed r.bin_buf ≡ true
      → 47 ≤ length r.bin_buf
      → Goes k r (frame_round k r)
  unfolding frame_round version_round
  frame_round-Goes k r set known headed long =
      subst (λ ver. Goes k r (version_round ver k r)) (sym known)
        (if_either (Goes k r) (crc_ok r.bin_buf) (after_frame k (accept_frame r))
          (continue k (reset_flags 2 r))
          (λ right.
            subst (λ s. Goes k r (after_frame k s))
              (sym
                (ap accept_frame (sym (flagged r set known)) ∙ accept_frame-at_frame r.bin_buf r))
              (after_frame-Goes k (frame_of_bytes r.bin_buf ∷ []) r _
                (Parsed-accept_frame r.bin_buf r refl headed long right)
                (omega (arith, length-drop 47 r.bin_buf))))
          (λ wrong. (
            [],
            Parsed-reset_flags r headed long wrong,
            omega (arith, length-drop 2 r.bin_buf),
            omega (arith, length-drop 2 r.bin_buf),
          )))

  -- How a round ends: the function returns with less than a frame in the buffer, or because of the
  -- `pos` that the last round left, or another round follows with fewer bytes.
  abbrev pub Rounds : ℕ → Reader F D → Round F D → Type 0
  Rounds at r (return b s) =
      (gs : List LidarFrame) × Parsed gs r s
      × ((length s.bin_buf < 47)
          ⊎ ((length s.bin_buf ≤ at + 2) × (length s.bin_buf ≤ length r.bin_buf)))
  Rounds at r (continue k s) =
      (gs : List LidarFrame) × Parsed gs r s
      × (2 + k + length s.bin_buf ≤ length r.bin_buf)
      × (2 ≤ length s.bin_buf)

  Rounds-trans :
      (at k : ℕ) (r s : Reader F D) (o : Round F D)
      → Parsed [] r s
      → k + length s.bin_buf ≤ length r.bin_buf
      → Goes k s o
      → Rounds at r o
  Rounds-trans at k r s (return b t) first moved (gs, later, short) =
      (gs, Parsed-trans [] gs r s t first later, inl short)
  Rounds-trans at k r s (continue j t) first moved (gs, later, fewer, some_bytes) =
      (gs, Parsed-trans [] gs r s t first later, omega arith, some_bytes)

  sync_round-Rounds :
      (at : ℕ) (r : Reader F D) (w : ℕ × Reader F D) → Synced r w → Rounds at r (sync_round w)
  unfolding sync_round
  sync_round-Rounds at r (k, s) y =
      if_either (Rounds at r) (ltb (length s.bin_buf) 47) (return false s) (frame_round k s)
        (λ short. ([], y.parsed, inl (ltb→lt _ _ short)))
        (λ long. elim y.ends [
          | inl few ↦ absurd (omega (arith, ltb→ge (length s.bin_buf) 47 long))
          | inr (set, known, headed) ↦
              Rounds-trans at k r s (frame_round k s) y.parsed y.moved
                (frame_round-Goes k s set known headed (ltb→ge _ _ long))
        ])

  pub round-Rounds :
      (at : ℕ) (r : Reader F D)
      → IsPrepared r
      → 2 ≤ length r.bin_buf
      → length r.bin_buf ≤ 4700
      → Rounds at r (round at r)
  unfolding round
  round-Rounds at r p some_bytes small =
      if_either (Rounds at r) (ltb at (sub_size (length r.bin_buf) 2)) (sync_round (sync_header r))
        (return true r) (λ enter. sync_round-Rounds at r (sync_header r) (sync_header-Synced r p))
        (λ stop. (
          [],
          Parsed-none r p,
          inr (omega (arith, ltb→ge at (sub_size (length r.bin_buf) 2) stop), omega arith),
        ))
