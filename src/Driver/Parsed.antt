-- ===== src/Driver/Parsed.antt =====
-- The receive thread (oradar_ros/sdk/src/ord_lidar_driver.cpp) on any bytes does what the parser does.
pub mod Circles
use cqut_lgv.Common.{
  ℕ, ◌≤◌, ◌≡◌, refl, sym, ap, subst, ◌∙◌, inl, inr, false, some, List, [], ◌∷◌, ◌++◌, arith, length,
  length-append, append_assoc, append-nil, All,
}
use cqut_lgv.Floats.{Floats}
use cqut_lgv.Protocol.{LidarFrame}
use cqut_lgv.Reader.{Reader}
use cqut_lgv.Reader.Stream.{run_frames}
use cqut_lgv.Reader.Stream.Buffered.{with_buf}
use cqut_lgv.Reader.Stream.Split.{run_frames-append}
use cqut_lgv.Reader.Parser.{parse, Yields, here}
use cqut_lgv.Reader.Parser.Laws.{Yields-append, Yields-trans, parse-Yields}
use cqut_lgv.Reader.Parser.Noise.{Item, IsNoisy, item_bytes, sent_frames, parse-item_bytes}
use cqut_lgv.Reader.Parser.Search.{IsPrepared, seen, seen-run_frames}
use cqut_lgv.Reader.Parser.Calls.{uart_data_handle-Handles}
use cqut_lgv.Driver.{Driver}
use cqut_lgv.Driver.Device.{Arrival, silence, received}
use cqut_lgv.Driver.Receive.{FitsBuffer, rx_step, rx_run}
use cqut_lgv.Driver.Stream.{received_bytes, rx_step-received, rx_run_step}

-- A driver of the modelled lidar that looks for no information, with at most 1025 bytes buffered.
pub record IsParsing {F D : Type 0} (d : Driver F D) : Type 0 where
  pub model : d.model ≡ 1
  pub quiet : d.info.init_info_flag ≡ false
  pub prepared : IsPrepared d.reader
  pub room : length d.reader.bin_buf ≤ 1025

module _ {F D : Type 0} ⦃fl : Floats F D⦄ where
  -- The thread has dealt with the arrivals as the parser does with the stream.
  abbrev Parses : List Arrival → Driver F D → Type 0
  Parses got d =
      (d' : Driver F D) × (gs : List LidarFrame) × (rx_run got d ≡ some d')
      × Yields (d.reader.bin_buf ++ received_bytes got) gs d'.reader.bin_buf
      × (d'.reader ≡ seen d'.reader (run_frames gs d.reader))
      × IsParsing d'

  Parses-step :
      (a : Arrival) (got : List Arrival) (d : Driver F D) (n : ℕ)
      → rx_step a d ≡ some (record d { valid_data = n })
      → received_bytes (a ∷ got) ≡ received_bytes got
      → Parses got (record d { valid_data = n })
      → Parses (a ∷ got) d
  Parses-step a got d n e same (d', gs, run, yields, stored, parsing) = (
    d',
    gs,
    rx_run_step a got d (record d { valid_data = n }) e ∙ run,
    subst (λ bs. Yields (d.reader.bin_buf ++ bs) gs d'.reader.bin_buf) (sym same) yields,
    stored,
    parsing,
  )

  -- Frames that are stored in two calls.
  seen-stored :
      (gs hs : List LidarFrame) (buf : List ℕ) (r s t : Reader F D)
      → s ≡ seen s (run_frames gs (with_buf buf r))
      → t ≡ seen t (run_frames hs s)
      → t ≡ seen t (run_frames (gs ++ hs) r)
  seen-stored gs hs buf r s t first later =
      later
      ∙ (ap (λ x. seen t (run_frames hs x)) first
          ∙ (seen-run_frames hs s t (run_frames gs (with_buf buf r))
              ∙ (ap (seen t) (sym (run_frames-append gs hs (with_buf buf r)))
                  ∙ seen-run_frames (gs ++ hs) (with_buf buf r) t r)))

  rx_run-Parses :
      (got : List Arrival) (d : Driver F D) → All FitsBuffer got → IsParsing d → Parses got d
  unfolding rx_run rx_step
  rx_run-Parses [] d fits p = (
    d,
    [],
    refl,
    subst (λ bs. Yields bs [] d.reader.bin_buf) (sym (append-nil d.reader.bin_buf)) here,
    refl,
    p,
  )
  rx_run-Parses (silence ∷ got) d fits p = Parses-step silence got d 0 refl refl (
      rx_run-Parses got (record d { valid_data = 0 }) fits.1
        (record { model = p.model; quiet = p.quiet; prepared = p.prepared; room = p.room }))
  rx_run-Parses (received [] ∷ got) d fits p = Parses-step (received []) got d 1 refl refl (
      rx_run-Parses got (record d { valid_data = 1 }) fits.1
        (record { model = p.model; quiet = p.quiet; prepared = p.prepared; room = p.room }))
  rx_run-Parses (received (x ∷ bytes) ∷ got) d fits p =
      let r = d.reader in
      let buf = r.bin_buf ++ (x ∷ bytes) in
      let len = length-append r.bin_buf (x ∷ bytes) in
      let room : length buf ≤ 2049 = omega (arith, len, p.room, fits.0) in
      let (b, s, gs, handled, parsed, left) =
        uart_data_handle-Handles (x ∷ bytes) r p.prepared (omega arith) in
      let d1 = record d { valid_data = 1; reader = s } in
      let few : length s.bin_buf ≤ 1025 = elim left [
        | inl short ↦ omega arith
        | inr half ↦ omega arith
      ] in
      let (d', hs, run, yields, stored, parsing) =
        rx_run-Parses got d1 fits.1
          (record { model = p.model; quiet = p.quiet; prepared = parsed.prepared; room = few }) in
      (
        d',
        gs ++ hs,
        rx_run_step (received (x ∷ bytes)) got d d1
              (rx_step-received x bytes d b s p.model p.quiet fits.0 handled)
            ∙ run,
        subst (λ bs. Yields bs (gs ++ hs) d'.reader.bin_buf)
            (append_assoc r.bin_buf (x ∷ bytes) (received_bytes got))
            (Yields-trans (Yields-append (received_bytes got) parsed.yields) yields),
        seen-stored gs hs buf r s d'.reader parsed.same stored,
        parsing,
      )

  -- Whatever bytes arrive, valid or not, and however the channel cuts them into reads: for a driver of the
  -- MS200 that looks for no device information, with at most 1025 bytes buffered, which searches for
  -- a header or has one in front, and reads that fit the thread's buffer, the receive thread ends. It
  -- has stored some frames, in order, and but for the flags and the buffer the reader is as these
  -- frames make it. They, followed by the frames among the bytes that are still buffered, are the frames
  -- that the parser finds in the whole stream, and what the parser leaves of both is the same. The driver
  -- is again in such a state; so the buffer is never thrown away.
  pub rx_run-parse :
      (got : List Arrival) (d : Driver F D)
      → All FitsBuffer got
      → IsParsing d
      → (d' : Driver F D) × (gs : List LidarFrame) × (rx_run got d ≡ some d')
        × (d'.reader ≡ seen d'.reader (run_frames gs d.reader))
        × (parse (d.reader.bin_buf ++ received_bytes got)
            ≡ (gs ++ (parse d'.reader.bin_buf).0, (parse d'.reader.bin_buf).1))
        × IsParsing d'
  rx_run-parse got d fits p =
      let (d', gs, run, yields, stored, parsing) = rx_run-Parses got d fits p in
      (d', gs, run, stored, parse-Yields yields, parsing)

  -- For a driver of the same kind, if the buffered bytes and the reads together are right frames, damaged frames and
  -- bytes without a header, each damaged frame and each run of such bytes with a frame behind it, then
  -- however the channel cuts them into reads, every right frame is stored, in order, or is still
  -- among the at most 1025 bytes that are buffered, behind all that are stored; no other frame is.
  pub rx_run-item_bytes :
      (items : List Item) (got : List Arrival) (d : Driver F D)
      → IsNoisy items
      → All FitsBuffer got
      → IsParsing d
      → d.reader.bin_buf ++ received_bytes got ≡ item_bytes items
      → (d' : Driver F D) × (gs : List LidarFrame) × (rx_run got d ≡ some d')
        × (d'.reader ≡ seen d'.reader (run_frames gs d.reader))
        × (sent_frames items ≡ gs ++ (parse d'.reader.bin_buf).0)
        × (length d'.reader.bin_buf ≤ 1025)
  rx_run-item_bytes items got d noisy fits p e =
      let (d', gs, run, stored, parsed, parsing) = rx_run-parse got d fits p in
      (
        d',
        gs,
        run,
        stored,
        ap (λ w. w.0) (sym (parse-item_bytes items noisy) ∙ (ap parse (sym e) ∙ parsed)),
        parsing.room,
      )
