-- ===== src/Reader/Resync.antt =====
-- How `uart_data_handle` of ord_lidar_driver.cpp finds a frame behind other bytes.
use cqut_lgv.Common.{
  ℕ, suc, ◌+◌, ◌≤◌, ◌<◌, ◌≡◌, refl, sym, ap, ap₂, ◌∙◌, Bool, true, false, ◌&&◌, some, List, [], ◌∷◌,
  ◌++◌, arith, lt→ltb, le→ltb, ◌==◌, ==_iff, length, take, drop, length-append, length-drop,
  drop-append_add,
}
use cqut_lgv.Floats.{Floats}
use cqut_lgv.Crc.{crc8}
use cqut_lgv.Protocol.{LidarFrame, head_flag_none, head_flag_ok, version_ms200}
use cqut_lgv.Protocol.Layout.{frame_bytes, frame_of_bytes-frame_bytes, length-frame_bytes}
use cqut_lgv.Reader.{Reader, store_package, parse_header, reset_flags, sub_size}
use cqut_lgv.Reader.Loop.{
  return, continue, find_header, found_header, search_from, sync_header, sync_round, round,
  handle_loop, uart_data_handle, version_round, frame_round, accept_frame, crc_ok,
}
use cqut_lgv.Reader.Total.{accept_frame_lem}

-- No two neighbouring bytes are the header.
abbrev pub NoHeader : List ℕ → Type 0
NoHeader [] = Unit
NoHeader (a ∷ []) = Unit
NoHeader (a ∷ b ∷ rest) = (((a == 0x54) && (b == 0x2C)) ≡ false) × NoHeader (b ∷ rest)

pub find_header-NoHeader :
    (junk : List ℕ) (at c : ℕ) (rest : List ℕ)
    → NoHeader junk
    → find_header (junk ++ (0x54 ∷ 0x2C ∷ c ∷ rest)) at ≡ (at + length junk, true)
unfolding find_header
find_header-NoHeader [] at c rest h = ground arith
find_header-NoHeader (a ∷ []) at c rest h = ground arith
find_header-NoHeader (a ∷ b ∷ []) at c rest (h, hs) =
    ground (arith, find_header-NoHeader (b ∷ []) (suc at) c rest hs)
find_header-NoHeader (a ∷ b ∷ d ∷ junk) at c rest (h, hs) =
    ground (arith, find_header-NoHeader (b ∷ d ∷ junk) (suc at) c rest hs)

-- The state at the frame: the bytes in front of it are gone and the flags are set.
abbrev pub at_frame : {F D : Type 0} → List ℕ → Reader F D → Reader F D
at_frame bytes r = record r {
  parsed_data = record r.parsed_data { head_flag = head_flag_ok; version = version_ms200 };
  bin_buf = bytes;
}

-- The state after the frame has been stored: no byte is left, and the flags are reset.
abbrev pub stored : {F D : Type 0} ⦃fl : Floats F D⦄ → LidarFrame → Reader F D → Reader F D
stored f r = reset_flags 47 (store_package f (parse_header f (at_frame (frame_bytes f []) r)))

module _ {F D : Type 0} ⦃fl : Floats F D⦄ (at : ℕ) (r : Reader F D) where
  frame_round_right :
      r.parsed_data.version ≡ version_ms200
      → crc_ok r.bin_buf ≡ true
      → length (accept_frame r).bin_buf < 47
      → frame_round at r ≡ return true (accept_frame r)
  unfolding frame_round
  frame_round_right known right short =
      ap (λ ver. version_round ver at r) known ∙ rw (right, lt→ltb _ _ short)

  pub sync_round_long : 47 ≤ length r.bin_buf → sync_round (at, r) ≡ frame_round at r
  unfolding sync_round
  sync_round_long h = rw (le→ltb _ _ h)

  pub round_enter : at < sub_size (length r.bin_buf) 2 → round at r ≡ sync_round (sync_header r)
  unfolding round
  round_enter h = rw (lt→ltb _ _ h)

  pub handle_loop_return :
      (fuel : ℕ) (b : Bool) (r' : Reader F D)
      → round at r ≡ return b r'
      → handle_loop (suc fuel) at r ≡ some (b, r')
  unfolding handle_loop
  handle_loop_return fuel b r' e =
      ap (λ o. elim o [ return b r' ↦ some (b, r') | continue at' r' ↦ handle_loop fuel at' r' ]) e

-- A buffer that is neither too short nor too long goes to the loop.
pub uart_data_handle_loop :
    {F D : Type 0} ⦃fl : Floats F D⦄ (bytes buf : List ℕ) (r : Reader F D)
    → r.bin_buf ++ bytes ≡ buf
    → 47 ≤ length buf
    → length buf ≤ 4700
    → uart_data_handle bytes r ≡ handle_loop (suc (length buf)) 0 (record r { bin_buf = buf })
unfolding uart_data_handle
uart_data_handle_loop bytes buf r e lo hi = rw (e, le→ltb _ _ lo, le→ltb _ _ hi)

empty_list {ℓ} : {A : Type ℓ} (xs : List A) → length xs ≡ 0 → xs ≡ []
empty_list [] e = refl
empty_list (x ∷ xs) e = absurd (omega arith)

crc_ok-frame :
    (f : LidarFrame)
    → length f.point ≡ 12
    → crc8 (take 46 (frame_bytes f [])) ≡ f.crc8
    → crc_ok (frame_bytes f []) ≡ true
unfolding crc_ok
crc_ok-frame f p e =
    (==_iff _ _).1 (e ∙ sym (ap (λ pkg. pkg.crc8) (frame_of_bytes-frame_bytes f [] p)))

module _ {F D : Type 0} (f : LidarFrame) where
  pub sync_header-frame :
      (junk rest : List ℕ) (r : Reader F D)
      → f.header ≡ 0x54
      → f.ver_len ≡ 0x2C
      → NoHeader junk
      → r.parsed_data.head_flag ≡ head_flag_none
      → sync_header (record r { bin_buf = junk ++ frame_bytes f rest })
        ≡ (length junk, at_frame (frame_bytes f rest) r)
  unfolding sync_header frame_bytes
  sync_header-frame junk rest r h54 h2c clean unset =
      ap (λ flag. search_from flag (record r { bin_buf = junk ++ frame_bytes f rest })) unset
      ∙ (ap (λ w. found_header w (record r { bin_buf = junk ++ frame_bytes f rest })) found
          ∙ ap (λ buf. (length junk, at_frame buf r))
              (drop-append_add junk (frame_bytes f rest) 0 (length junk) (omega arith)))
    where
      found : find_header (junk ++ frame_bytes f rest) 0 ≡ (length junk, true)
      found =
          ap₂ (λ h v. find_header (junk ++ (h ∷ v ∷ drop 2 (frame_bytes f rest))) 0) h54 h2c
          ∙ (find_header-NoHeader junk 0 _ _ clean ∙ ap (λ n. (n, true)) (omega arith))

module _ {F D : Type 0} ⦃fl : Floats F D⦄ (f : LidarFrame) (p : length f.point ≡ 12) where
  accept_frame-frame : (r : Reader F D) → accept_frame (at_frame (frame_bytes f []) r) ≡ stored f r
  unfolding accept_frame
  accept_frame-frame r =
      ap
        (λ pkg.
          reset_flags 47 (store_package pkg (parse_header pkg (at_frame (frame_bytes f []) r))))
        (frame_of_bytes-frame_bytes f [] p)

  length-accepted :
      (r : Reader F D) → length (accept_frame (at_frame (frame_bytes f []) r)).bin_buf < 47
  length-accepted r = omega (
    arith,
    ap length (accept_frame_lem (at_frame (frame_bytes f []) r)).0,
    length-drop 47 (frame_bytes f []),
    length-frame_bytes f [] p,
  )

  -- A frame with a right checksum that comes in one call behind bytes with no header in them is found
  -- and stored, when nothing was buffered and the whole is no longer than a hundred frames. The call
  -- answers true and leaves no byte.
  pub uart_data_handle-frame :
      (junk : List ℕ) (r : Reader F D)
      → f.header ≡ 0x54
      → f.ver_len ≡ 0x2C
      → crc8 (take 46 (frame_bytes f [])) ≡ f.crc8
      → NoHeader junk
      → length junk + 47 ≤ 4700
      → r.parsed_data.head_flag ≡ head_flag_none
      → r.bin_buf ≡ []
      → (uart_data_handle (junk ++ frame_bytes f []) r ≡ some (true, stored f r))
        × ((stored f r).bin_buf ≡ [])
  uart_data_handle-frame junk r h54 h2c e clean small unset empty = (
    uart_data_handle_loop buf buf r (ap (λ bs. bs ++ buf) empty) (omega (arith, whole))
          (omega (arith, whole))
        ∙ handle_loop_return 0 (record r { bin_buf = buf }) (length buf) true (stored f r) entered,
    empty_list _ (
        omega (
          arith,
          ap length (accept_frame_lem (at_frame (frame_bytes f []) r)).0,
          ap (λ s. length s.bin_buf) (accept_frame-frame r),
          length-drop 47 (frame_bytes f []),
          len,
        )),
  )
    where
      buf : List ℕ
      buf = junk ++ frame_bytes f []

      len : length (frame_bytes f []) ≡ 47
      len = length-frame_bytes f [] p

      whole : length buf ≡ length junk + 47
      whole = omega (arith, length-append junk (frame_bytes f []), len)

      there : Reader F D
      there = at_frame (frame_bytes f []) r

      entered : round 0 (record r { bin_buf = buf }) ≡ return true (stored f r)
      entered =
          round_enter 0 (record r { bin_buf = buf }) (omega (arith, whole))
          ∙ (ap sync_round (sync_header-frame f junk [] r h54 h2c clean unset)
              ∙ (sync_round_long (length junk) there (omega (arith, len))
                  ∙ (frame_round_right (length junk) there refl (crc_ok-frame f p e)
                        (length-accepted r)
                      ∙ ap (return true) (accept_frame-frame r))))
