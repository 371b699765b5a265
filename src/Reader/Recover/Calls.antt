-- ===== src/Reader/Recover/Calls.antt =====
-- Calls of `uart_data_handle` (oradar_ros/sdk/src/ord_lidar_driver.cpp) on a buffer that starts with a damaged frame.
use cqut_lgv.Common.{
  ℕ, suc, ◌+◌, ◌-◌, ◌*◌, ◌≤◌, ◌<◌, ◌≡◌, ◌≢◌, refl, sym, ap, ◌∙◌, Bool, true, some, List, [], ◌∷◌,
  ◌++◌, arith, le→ltb, length, length-append, All,
}
use cqut_lgv.Floats.{Floats}
use cqut_lgv.Protocol.{LidarFrame, head_flag_none}
use cqut_lgv.Protocol.Layout.{frame_bytes, length-frame_bytes}
use cqut_lgv.Reader.{Reader, sub_size}
use cqut_lgv.Reader.Loop.{round, handle_loop, uart_data_handle, after_frame}
use cqut_lgv.Reader.Resync.{stored, handle_loop_return, uart_data_handle_loop}
use cqut_lgv.Reader.Stream.{
  IsSent, frames_bytes, length-frames_bytes, run_frames, handle_loop_continue, after_frame_short,
  after_frame_long, head_flag-stored, handle_loop-sent, uart_data_handle-sent, frame_bytes-append,
}
use cqut_lgv.Reader.Stream.Buffered.{with_buf}
use cqut_lgv.Reader.Recover.{IsDamaged, two_rounds}

module _ {F D : Type 0} ⦃fl : Floats F D⦄ where
  -- The rounds that are left, by what stands behind the first right frame.
  loop_behind :
      (fuel : ℕ) (f : LidarFrame) (fs : List LidarFrame) (rest : List ℕ) (r s : Reader F D)
      → All IsSent fs
      → length rest < 47
      → length fs ≤ fuel
      → length fs ≤ 99
      → 47 * length fs + length rest ≢ 47
      → round 0 s ≡ after_frame 45 (with_buf (frames_bytes fs rest) (stored f r))
      → handle_loop (suc fuel) 0 s ≡ some (true, with_buf rest (run_frames (f ∷ fs) r))
  loop_behind fuel f [] rest r s sent short enough few other second =
      handle_loop_return 0 s fuel true (with_buf rest (stored f r))
        (second ∙ after_frame_short 45 _ short)
  loop_behind fuel f (g ∷ gs) rest r s sent short enough few other second =
      let len = length-frames_bytes (g ∷ gs) rest sent in
      let next = with_buf (frames_bytes (g ∷ gs) rest) (stored f r) in
      handle_loop_continue fuel 0 45 s next (second ∙ after_frame_long 45 next (omega (arith, len)))
      ∙ handle_loop-sent fuel 45 g gs rest (stored f r) sent short (omega arith) (omega arith)
          (omega arith) (head_flag-stored f r)

  -- With exactly one frame behind the first right one the loop is left by its own test, since `pos`
  -- still counts the bytes that were skipped.
  loop_stalls :
      (fuel : ℕ) (f g : LidarFrame) (r s : Reader F D)
      → IsSent g
      → round 0 s ≡ after_frame 45 (with_buf (frame_bytes g []) (stored f r))
      → handle_loop (suc (suc fuel)) 0 s ≡ some (true, with_buf (frame_bytes g []) (stored f r))
  unfolding round
  loop_stalls fuel f g r s sent second =
      let len = length-frame_bytes g [] sent.points in
      let next = with_buf (frame_bytes g []) (stored f r) in
      handle_loop_continue (suc fuel) 0 45 s next
        (second ∙ after_frame_long 45 next (omega (arith, len)))
      ∙ handle_loop_return 45 next fuel true next
          (rw (le→ltb 45 (sub_size (length (frame_bytes g [])) 2) (omega (arith, len))) refl)

  -- The buffer as the two rounds leave it, with frames behind the damaged one.
  module _ (bad : List ℕ) (f : LidarFrame) (fs : List LidarFrame) (rest bytes : List ℕ)
      (r : Reader F D) (damaged : IsDamaged bad) (sent : All IsSent (f ∷ fs))
      (arrived : r.bin_buf ++ bytes ≡ bad ++ frames_bytes (f ∷ fs) rest)
      (small : length (r.bin_buf ++ bytes) ≤ 4700)
      (unset : r.parsed_data.head_flag ≡ head_flag_none) where
    whole : length (bad ++ frames_bytes (f ∷ fs) rest) ≡ 94 + 47 * length fs + length rest
    whole = omega (
      arith,
      length-append bad (frames_bytes (f ∷ fs) rest),
      damaged.long,
      length-frames_bytes (f ∷ fs) rest sent,
    )

    -- The call, when the round that stores the frame behind the damaged one is to come.
    uart_data_handle_behind :
        (fuel : ℕ) × (95 + 47 * length fs + length rest ≡ 2 + fuel)
        × (s : Reader F D) × (uart_data_handle bytes r ≡ handle_loop (suc fuel) 0 s)
        × (round 0 s ≡ after_frame 45 (with_buf (frames_bytes fs rest) (stored f r)))
    uart_data_handle_behind =
        let len = length-frames_bytes fs rest sent.1 in
        let bound = ap length arrived in
        let (s, first, second) =
          two_rounds bad (frames_bytes fs rest) f r damaged sent.0
            (omega (arith, whole, len, bound)) unset in
        let fuel = 93 + 47 * length fs + length rest in
        let buf = bad ++ frames_bytes (f ∷ fs) rest in
        (
          fuel,
          omega arith,
          s,
          uart_data_handle_loop bytes buf r arrived (omega (arith, whole)) (omega (arith, bound))
              ∙ (ap (λ k. handle_loop k 0 (with_buf buf r)) (omega (arith, whole))
                  ∙ handle_loop_continue (suc fuel) 0 0 (with_buf buf r) s first),
          second,
        )

    -- A damaged frame that arrives whole, with its header whole, no other header inside and a wrong
    -- checksum, costs no other frame: if the frames behind it are right, a call on no more than a
    -- hundred frames stores each of them, as if the damaged one had not been sent, and keeps the
    -- start of the next one, unless exactly one frame's bytes stand behind the first right frame.
    pub uart_data_handle-IsDamaged :
        length rest < 47
        → 47 * length fs + length rest ≢ 47
        → uart_data_handle bytes r ≡ some (true, with_buf rest (run_frames (f ∷ fs) r))
    uart_data_handle-IsDamaged short other =
        let (fuel, enough, s, call, second) = uart_data_handle_behind in
        call
        ∙ loop_behind fuel f fs rest r s sent.1 short (omega arith)
            (omega (arith, whole, ap length arrived)) other second

  -- If exactly one whole frame stands behind the first right one, the call answers true and leaves that
  -- frame waiting, whole, in the buffer. A later call stores it, with the frames that it brings.
  pub uart_data_handle-waits :
      (bad : List ℕ) (f g : LidarFrame) (gs : List LidarFrame) (rest bytes more : List ℕ)
      (r : Reader F D)
      → IsDamaged bad
      → IsSent f
      → All IsSent (g ∷ gs)
      → r.bin_buf ++ bytes ≡ bad ++ frames_bytes (f ∷ g ∷ []) []
      → more ≡ frames_bytes gs rest
      → length rest < 47
      → length gs ≤ 98
      → r.parsed_data.head_flag ≡ head_flag_none
      → (waiting : Reader F D) × (waiting ≡ with_buf (frame_bytes g []) (run_frames (f ∷ []) r))
        × (uart_data_handle bytes r ≡ some (true, waiting))
        × (b : Bool) × (uart_data_handle more waiting
            ≡ some (b, with_buf rest (run_frames (f ∷ g ∷ gs) r)))
  uart_data_handle-waits bad f g gs rest bytes more r damaged sent_f sent arrived came short few
        unset =
      let waiting = with_buf (frame_bytes g []) (stored f r) in
      let len = length-append bad (frames_bytes (f ∷ g ∷ []) []) in
      let sent' : All IsSent (f ∷ g ∷ []) = (sent_f, (sent.0, tt)) in
      let small : length (r.bin_buf ++ bytes) ≤ 4700 =
        omega (
          arith,
          ap length arrived,
          len,
          damaged.long,
          length-frames_bytes (f ∷ g ∷ []) [] sent',
        ) in
      let (fuel, enough, s, call, second) =
        uart_data_handle_behind bad f (g ∷ []) [] bytes r damaged sent' arrived small unset in
      let (b, later) =
        uart_data_handle-sent (g ∷ gs) rest more waiting sent
          (sym (frame_bytes-append g more) ∙ ap (frame_bytes g) came) short
          (omega (
            arith,
            ap length (sym (frame_bytes-append g more) ∙ ap (frame_bytes g) came),
            length-frames_bytes (g ∷ gs) rest sent,
          ))
          (head_flag-stored f r) in
      (
        waiting,
        refl,
        call
            ∙ (ap (λ k. handle_loop (suc k) 0 s) (omega (arith, enough))
                ∙ loop_stalls (fuel - 1) f g r s sent.0 second),
        b,
        later,
      )
