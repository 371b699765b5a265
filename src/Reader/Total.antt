-- ===== src/Reader/Total.antt =====
-- The loop of `uart_data_handle` (oradar_ros/sdk/src/ord_lidar_driver.cpp) ends, and keeps the
-- invariant of the receiving half.
use cqut_lgv.Common.{
  ℕ, zero, suc, ◌+◌, ◌-◌, ◌≤◌, ◌<◌, ◌≡◌, inl, inr, refl, sym, ap, subst, Bool, true, false, Option,
  none, some, List, [], ◌∷◌, ◌++◌, arith, ltb, ltb→lt, ltb→ge, Bool-cases, length, take, drop,
  length-drop,
}
use cqut_lgv.Floats.{Floats}
use cqut_lgv.Protocol.{version_ms200, LidarFrame, frame_of_bytes}
use cqut_lgv.Reader.{
  Reader, point_data_parse_frame_ms200, init_reader, reset_flags, sub_size, store_package,
  parse_header, publish_one, publish_full, finish_package, append_points, close_package, find_wrap,
}
use cqut_lgv.Reader.Loop.{
  Round, return, continue, find_header, found_header, sync_header, accept_frame, after_frame,
  search_from, version_round, frame_round, sync_round, round, handle_loop, uart_data_handle, crc_ok,
}
use cqut_lgv.Reader.Invariant.{
  IsSynced, FitsArrays, init_reader-FitsArrays, accept_frame-FitsArrays, publish_one_keeps,
}

pub record IsValid {F D : Type 0} (r : Reader F D) : Type 0 where
  pub synced : IsSynced r
  pub fits : FitsArrays r

-- A search that fails stops two bytes before the end.
find_header_short :
    (buf : List ℕ) (at k : ℕ)
    → find_header buf at ≡ (k, false)
    → (length buf ≤ (k - at) + 2) × (at ≤ k)
unfolding find_header
find_header_short [] at k e = ground arith
find_header_short (a ∷ []) at k e = ground arith
find_header_short (a ∷ b ∷ []) at k e = ground arith
find_header_short (a ∷ b ∷ c ∷ rest) at k e =
    ground (arith, find_header_short (b ∷ c ∷ rest) (suc at) k)

module _ {F D : Type 0} ⦃fl : Floats F D⦄ where
  bin_buf-finish_package :
      (w : Option ℕ × F) (r : Reader F D) → (finish_package w r).bin_buf ≡ r.bin_buf
  unfolding finish_package publish_full
  bin_buf-finish_package (some i, last) r = refl
  bin_buf-finish_package (none, last) r = refl

  -- The bytes are untouched while a package is stored.
  bin_buf-store_package :
      (pkg : LidarFrame) (r : Reader F D) → (store_package pkg r).bin_buf ≡ r.bin_buf
  unfolding store_package close_package append_points
  bin_buf-store_package pkg r =
      let points = point_data_parse_frame_ms200 {F = F} D pkg in
      ground (
        arith,
        bin_buf-finish_package
            (find_wrap D (publish_one (append_points points r)).last_angle
              (take 12 (
                drop (publish_one (append_points points r)).temp_data.vailtidy_point_num
                  (publish_one (append_points points r)).temp_data.data_points))
              0)
            (publish_one (append_points points r)),
        publish_one_keeps (append_points points r),
      )

  pub accept_frame_lem :
      (r : Reader F D) → ((accept_frame r).bin_buf ≡ drop 47 r.bin_buf) × IsSynced (accept_frame r)
  unfolding accept_frame reset_flags parse_header
  accept_frame_lem r = (
    ap (drop 47) (
        bin_buf-store_package (frame_of_bytes r.bin_buf)
          (parse_header (frame_of_bytes r.bin_buf) r)),
    inl (refl, refl),
  )

  -- What a round promises: a result that is valid, or a valid state with fewer bytes.
  abbrev Progress : ℕ → Round F D → Type 0
  Progress n (return b r) = IsValid r
  Progress n (continue at r) = IsValid r × (length r.bin_buf < n)

  reset_two : {r : Reader F D} → FitsArrays r → IsValid (reset_flags 2 r)
  unfolding reset_flags
  reset_two v = record { synced = inl (refl, refl); fits = omega arith }

  -- The ways in which a round with a whole frame's bytes ends.
  frame_round_cases {ℓ} :
      (at : ℕ) (r : Reader F D) (P : Round F D → Type ℓ)
      → r.parsed_data.version ≡ version_ms200
      → (length (accept_frame r).bin_buf < 47 → P (return true (accept_frame r)))
      → (47 ≤ length (accept_frame r).bin_buf → P (continue at (accept_frame r)))
      → P (continue at (reset_flags 2 r))
      → P (frame_round at r)
  unfolding frame_round
  frame_round_cases at r P e short long bad =
      subst (λ ver. P (version_round ver at r)) (sym e)
        (elim (Bool-cases (crc_ok r.bin_buf)) [
          | inl good ↦ elim (Bool-cases (ltb (length (accept_frame r).bin_buf) 47)) [
            | inl h ↦ rw (good, h) (short (ltb→lt _ _ h))
            | inr h ↦ rw (good, h) (long (ltb→ge _ _ h))
          ]
          | inr wrong ↦ rw wrong bad
        ])

  frame_round-Progress :
      (at : ℕ) (r : Reader F D) (n : ℕ)
      → IsValid r
      → r.parsed_data.version ≡ version_ms200
      → 47 ≤ length r.bin_buf
      → length r.bin_buf ≤ n
      → Progress n (frame_round at r)
  unfolding frame_round after_frame reset_flags
  frame_round-Progress at r n v e h hn =
      let drops : length (drop 2 r.bin_buf) < n = omega (arith, length-drop 2 r.bin_buf) in
      let fewer : length (accept_frame r).bin_buf < n =
        omega (arith, ap length (accept_frame_lem r).0, length-drop 47 r.bin_buf) in
      let v' : IsValid (accept_frame r) = record {
        synced = (accept_frame_lem r).1;
        fits = accept_frame-FitsArrays v.fits;
      } in
      frame_round_cases at r (Progress n) e (λ _. v') (λ _. (v', fewer)) (reset_two v.fits, drops)

  abbrev Found : Reader F D → ℕ × Reader F D → Type 0
  Found r (at, r') =
      IsValid r'
      × (length r'.bin_buf ≤ length r.bin_buf)
      × (47 ≤ length r'.bin_buf → r'.parsed_data.version ≡ version_ms200)

  found_header-Found :
      (r : Reader F D) (w : ℕ × Bool)
      → find_header r.bin_buf 0 ≡ w
      → IsValid r
      → Found r (found_header w r)
  unfolding found_header
  found_header-Found r (at, true) e v = (
    record { synced = inr (refl, refl); fits = omega arith },
    omega (arith, length-drop at r.bin_buf),
    λ _. refl,
  )
  found_header-Found r (at, false) e v = (
    record { synced = v.synced; fits = omega arith },
    omega (arith, length-drop at r.bin_buf),
    λ h. absurd (omega (arith, length-drop at r.bin_buf, find_header_short r.bin_buf 0 at e)),
  )

  sync_header-Found : (r : Reader F D) → IsValid r → Found r (sync_header r)
  unfolding sync_header
  sync_header-Found r v = elim v.synced [
    | inl (e, e') ↦
        subst (λ flag. Found r (search_from flag r)) (sym e)
          (found_header-Found r (find_header r.bin_buf 0) refl v)
    | inr (e, e') ↦ subst (λ flag. Found r (search_from flag r)) (sym e) (v, omega arith, λ _. e')
  ]

  sync_round-Progress :
      (r : Reader F D) (w : ℕ × Reader F D) → Found r w → Progress (length r.bin_buf) (sync_round w)
  unfolding sync_round
  sync_round-Progress r (at, r') (v, le, known) = elim (Bool-cases (ltb (length r'.bin_buf) 47)) [
    | inl h ↦ rw h v
    | inr h ↦
        rw h
          (frame_round-Progress at r' (length r.bin_buf) v (known (ground arith)) (ground arith) le)
  ]

  round-Progress : (at : ℕ) (r : Reader F D) → IsValid r → Progress (length r.bin_buf) (round at r)
  unfolding round
  round-Progress at r v = elim (Bool-cases (ltb at (sub_size (length r.bin_buf) 2))) [
    | inl h ↦ rw h (sync_round-Progress r (sync_header r) (sync_header-Found r v))
    | inr h ↦ rw h v
  ]

  -- A loop that goes on after a round as `k` does.
  go_on :
      (k : ℕ → Reader F D → Option (Bool × Reader F D)) (o : Round F D) (n : ℕ)
      → Progress n o
      → ((at : ℕ) (r : Reader F D)
          → IsValid r
          → length r.bin_buf < n
          → (b : Bool) × (r' : Reader F D) × (k at r ≡ some (b, r')) × IsValid r')
      → (b : Bool) × (r' : Reader F D) × (elim o as (λ _. Option (Bool × Reader F D)) [
        | return result r' ↦ some (result, r')
        | continue at' r' ↦ k at' r'
      ]
          ≡ some (b, r'))
        × IsValid r'
  go_on k (return b r) n p ih = (b, r, refl, p)
  go_on k (continue at r) n p ih = ih at r p.0 p.1

  handle_loop-IsValid :
      (fuel at : ℕ) (r : Reader F D)
      → IsValid r
      → length r.bin_buf < fuel
      → (b : Bool) × (r' : Reader F D) × (handle_loop fuel at r ≡ some (b, r')) × IsValid r'
  unfolding handle_loop
  handle_loop-IsValid zero at r v h = absurd (omega arith)
  handle_loop-IsValid (suc fuel) at r v h =
      go_on (handle_loop fuel) (round at r) (length r.bin_buf) (round-Progress at r v)
        (λ at' r' v' h'. handle_loop-IsValid fuel at' r' v' (omega arith))

  -- From a valid state every call of `uart_data_handle` returns, whatever the bytes, and the state is
  -- valid again: the parser's flags agree, the arrays keep their lengths and the counters of points
  -- stay inside them.
  pub uart_data_handle-IsValid :
      (bytes : List ℕ) (r : Reader F D)
      → IsValid r
      → (b : Bool) × (r' : Reader F D) × (uart_data_handle bytes r ≡ some (b, r')) × IsValid r'
  unfolding uart_data_handle
  uart_data_handle-IsValid bytes r v =
      let buf = r.bin_buf ++ bytes in
      elim (Bool-cases (ltb (length buf) 47)) [
        | inl few ↦ (
          false,
          record r { bin_buf = buf },
          rw few,
          record { synced = v.synced; fits = omega arith },
        )
        | inr enough ↦ elim (Bool-cases (ltb 4700 (length buf))) [
          | inl many ↦ (
            false,
            record r { bin_buf = [] },
            rw (enough, many),
            record { synced = v.synced; fits = omega arith },
          )
          | inr fitting ↦
              let (b, r', e, v') =
                handle_loop-IsValid (suc (length buf)) 0 (record r { bin_buf = buf })
                  (record { synced = v.synced; fits = omega arith }) (omega arith) in
              (b, r', rw (enough, fitting) e, v')
        ]
      ]

  pub init_reader-IsValid : IsValid {F = F} {D = D} init_reader
  unfolding init_reader
  init_reader-IsValid = record { synced = inl (refl, refl); fits = init_reader-FitsArrays }
