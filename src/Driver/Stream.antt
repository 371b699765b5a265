-- ===== src/Driver/Stream.antt =====
-- The receive thread on a stream of frames (oradar_ros/sdk/src/ord_lidar_driver.cpp).
use cqut_lgv.Common.{
  ℕ, ◌≤◌, ◌<◌, ◌≡◌, refl, sym, ap, ◌∙◌, Bool, false, some, List, [], ◌∷◌, ◌++◌, arith, le→ltb,
  length, length-append, append_assoc, append-nil, ==_iff, subst, All,
}
use cqut_lgv.Floats.{Floats}
use cqut_lgv.Protocol.{LidarFrame, head_flag_none}
use cqut_lgv.Reader.{Reader}
use cqut_lgv.Reader.Loop.{uart_data_handle}
use cqut_lgv.Reader.Stream.{
  IsSent, frames_bytes, length-frames_bytes, run_frames, head_flag-run_frames,
  uart_data_handle-sent,
}
use cqut_lgv.Reader.Stream.Buffered.{with_buf}
use cqut_lgv.Reader.Stream.Split.{Cut-frames, All-cut, run_frames-append, run_frames-with_buf}
use cqut_lgv.Reader.Invariant.{FitsArrays}
use cqut_lgv.Reader.Assembly.{contents, assembly_of}
use cqut_lgv.Reader.Stream.Circles.{
  concat, points_of, absorb_all, absorb_all_conserves, HasRoom, Follows, run_frames-Follows,
}
use cqut_lgv.Driver.{Driver}
use cqut_lgv.Driver.Device.{Arrival, silence, received}
use cqut_lgv.Driver.Receive.{FitsBuffer, collect_info, handle_bytes, rx_step, rx_run}

-- The bytes of the rounds, one behind the other.
abbrev pub received_bytes : List Arrival → List ℕ
received_bytes [] = []
received_bytes (silence ∷ got) = received_bytes got
received_bytes (received bytes ∷ got) = bytes ++ received_bytes got

-- A driver of the modelled lidar that looks for no information, and has less than a frame buffered.
pub record IsListening {F D : Type 0} (d : Driver F D) : Type 0 where
  pub model : d.model ≡ 1
  pub quiet : d.info.init_info_flag ≡ false
  pub unset : d.reader.parsed_data.head_flag ≡ head_flag_none

module _ {F D : Type 0} ⦃fl : Floats F D⦄ where
  -- A round with bytes is a call of `uart_data_handle`.
  pub rx_step-received :
      (x : ℕ) (bytes : List ℕ) (d : Driver F D) (b : Bool) (r : Reader F D)
      → d.model ≡ 1
      → d.info.init_info_flag ≡ false
      → length (x ∷ bytes) ≤ 1024
      → uart_data_handle (x ∷ bytes) d.reader ≡ some (b, r)
      → rx_step (received (x ∷ bytes)) d ≡ some (record d { valid_data = 1; reader = r })
  unfolding rx_step handle_bytes collect_info
  rx_step-received x bytes d b r known quiet fits e =
      rw (le→ltb 1024 (length (x ∷ bytes)) fits, (==_iff d.model 1).1 known, e, quiet) refl

  pub rx_run_step :
      (a : Arrival) (got : List Arrival) (d d' : Driver F D)
      → rx_step a d ≡ some d'
      → rx_run (a ∷ got) d ≡ rx_run got d'
  unfolding rx_run
  rx_run_step a got d d' e = rw e refl

  -- The reader has stored these frames, with nothing left over.
  abbrev Stores : List Arrival → List LidarFrame → Driver F D → Type 0
  Stores got fs d =
      (d' : Driver F D) × (rx_run got d ≡ some d')
      × (d'.reader ≡ with_buf [] (run_frames fs d.reader))

  Stores-step :
      (a : Arrival) (got : List Arrival) (fs : List LidarFrame) (d : Driver F D) (n : ℕ)
      → rx_step a d ≡ some (record d { valid_data = n })
      → Stores got fs (record d { valid_data = n })
      → Stores (a ∷ got) fs d
  Stores-step a got fs d n e (d', run, same) = (d', rx_run_step a got d _ e ∙ run, same)

  -- For a driver of the MS200 that looks for no device information, searches for a header and has
  -- less than a frame buffered, and reads that fit the thread's buffer: if the buffered bytes and
  -- the reads together are a sequence of frames with 12 points and right checksums, then however
  -- the channel cuts them into reads, and however many silences lie between, the receive thread
  -- stores every frame, in order, and no byte is left.
  pub rx_run-sent :
      (fs : List LidarFrame) (got : List Arrival) (d : Driver F D)
      → All IsSent fs
      → All FitsBuffer got
      → IsListening d
      → length d.reader.bin_buf < 47
      → d.reader.bin_buf ++ received_bytes got ≡ frames_bytes fs []
      → (d' : Driver F D) × (rx_run got d ≡ some d')
        × (d'.reader ≡ with_buf [] (run_frames fs d.reader))
  unfolding rx_step rx_run
  rx_run-sent [] [] d sent fits l short e =
      (d, refl, ap (λ bs. with_buf bs d.reader) (sym (append-nil d.reader.bin_buf) ∙ e))
  rx_run-sent (f ∷ fs) [] d sent fits l short e = absurd (
      omega (
        arith,
        ap length e,
        length-append d.reader.bin_buf [],
        length-frames_bytes (f ∷ fs) [] sent,
      ))
  rx_run-sent fs (silence ∷ got) d sent fits l short e = Stores-step silence got fs d 0 refl (
      rx_run-sent fs got (record d { valid_data = 0 }) sent fits.1
        (record { model = l.model; quiet = l.quiet; unset = l.unset }) short e)
  rx_run-sent fs (received [] ∷ got) d sent fits l short e =
      Stores-step (received []) got fs d 1 refl (
        rx_run-sent fs got (record d { valid_data = 1 }) sent fits.1
          (record { model = l.model; quiet = l.quiet; unset = l.unset }) short e)
  rx_run-sent fs (received (x ∷ bytes) ∷ got) d sent fits l short e =
      let r = d.reader in
      let cut =
        Cut-frames fs (r.bin_buf ++ (x ∷ bytes)) (received_bytes got) sent
          (append_assoc r.bin_buf (x ∷ bytes) (received_bytes got) ∙ e) in
      let parts = All-cut IsSent cut.before cut.after (subst (All IsSent) cut.frames sent) in
      let (b, handled) =
        uart_data_handle-sent cut.before cut.rest (x ∷ bytes) r parts.0 cut.buffered cut.short
          (omega (arith, length-append r.bin_buf (x ∷ bytes), fits.0)) l.unset in
      let r' = with_buf cut.rest (run_frames cut.before r) in
      let d1 = record d { valid_data = 1; reader = r' } in
      let (d', run, same) =
        rx_run-sent cut.after got d1 parts.1 fits.1
          (record {
            model = l.model;
            quiet = l.quiet;
            unset = head_flag-run_frames cut.before r l.unset;
          })
          cut.short cut.left in
      (
        d',
        rx_run_step (received (x ∷ bytes)) got d d1
              (rx_step-received x bytes d b r' l.model l.quiet fits.0 handled)
            ∙ run,
        same
            ∙ (run_frames-with_buf cut.after cut.rest [] (run_frames cut.before r)
                ∙ ap (with_buf []) (
                    sym (run_frames-append cut.before cut.after r)
                    ∙ ap (λ gs. run_frames gs r) (sym cut.frames))),
      )

  -- For a driver of the MS200 that looks for no device information, searches for a header and has
  -- less than a frame buffered, and reads that fit the thread's buffer: if the buffered bytes and
  -- the reads together are a sequence of frames with 12 points and right checksums, and the circle
  -- in progress always has room for the next frame, then however the channel cuts them into reads,
  -- the full scan is the last circle that the frames' points complete, or the one before if they
  -- complete none, the scan in progress and the last angle are those of the description, and all
  -- completed circles followed by the scan in progress are the scan in progress before followed by
  -- the frames' points.
  pub rx_run-circles :
      (fs : List LidarFrame) (got : List Arrival) (d : Driver F D)
      → All IsSent fs
      → All FitsBuffer got
      → IsListening d
      → FitsArrays d.reader
      → length d.reader.bin_buf < 47
      → d.reader.bin_buf ++ received_bytes got ≡ frames_bytes fs []
      → HasRoom D fs (assembly_of D d.reader)
      → (d' : Driver F D) × (rx_run got d ≡ some d')
        × Follows fs d.reader d'.reader
        × (concat (absorb_all D fs (assembly_of D d.reader)).0 ++ contents d'.reader.temp_data
            ≡ contents d.reader.temp_data ++ points_of D fs)
  rx_run-circles fs got d sent fits l v short e room =
      let (d', run, same) = rx_run-sent fs got d sent fits l short e in
      let (segment, full) = run_frames-Follows fs d.reader sent v room in
      let asm : assembly_of D d'.reader ≡ (absorb_all D fs (assembly_of D d.reader)).1 =
        ap (assembly_of D) same ∙ segment in
      (
        d',
        run,
        (asm, ap (λ r. contents r.full_scan_data) same ∙ full),
        ap (λ a. concat (absorb_all D fs (assembly_of D d.reader)).0 ++ a.segment) asm
            ∙ absorb_all_conserves D fs (assembly_of D d.reader),
      )
