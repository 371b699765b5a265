-- ===== src/Driver/Parsed/Circles.antt =====
-- The circles that the receive thread (oradar_ros/sdk/src/ord_lidar_driver.cpp) makes of a stream with damaged
-- frames in it.
use cqut_lgv.Common.{◌≤◌, ◌≡◌, ap, subst, ◌∙◌, some, List, [], ◌∷◌, ◌++◌, length, All}
use cqut_lgv.Floats.{Floats}
use cqut_lgv.Protocol.{LidarFrame}
use cqut_lgv.Reader.{point_data_parse_frame_ms200}
use cqut_lgv.Reader.Invariant.{FitsArrays}
use cqut_lgv.Reader.Assembly.{Assembly, contents, assembly_of, absorb}
use cqut_lgv.Reader.Stream.{IsSent}
use cqut_lgv.Reader.Stream.Split.{All-cut}
use cqut_lgv.Reader.Stream.Circles.{HasRoom, Follows, run_frames-Follows}
use cqut_lgv.Reader.Parser.{parse}
use cqut_lgv.Reader.Parser.Noise.{Item, sent, damaged, noise, IsNoisy, item_bytes, sent_frames}
use cqut_lgv.Driver.{Driver}
use cqut_lgv.Driver.Device.{Arrival}
use cqut_lgv.Driver.Receive.{FitsBuffer, rx_run}
use cqut_lgv.Driver.Stream.{received_bytes}
use cqut_lgv.Driver.Parsed.{IsParsing, rx_run-item_bytes}

sent_frames-IsSent : (items : List Item) → IsNoisy items → All IsSent (sent_frames items)
sent_frames-IsSent [] noisy = tt
sent_frames-IsSent (sent f ∷ items) (s, noisy) = (s, sent_frames-IsSent items noisy)
sent_frames-IsSent (damaged bad ∷ items) (d, starts, noisy) = sent_frames-IsSent items noisy
sent_frames-IsSent (noise junk ∷ items) (clean, starts, noisy) = sent_frames-IsSent items noisy

module _ {F : Type 0} (D : Type 0) ⦃fl : Floats F D⦄ where
  HasRoom-append :
      (gs hs : List LidarFrame) (a : Assembly F) → HasRoom D (gs ++ hs) a → HasRoom D gs a
  HasRoom-append [] hs a room = tt
  HasRoom-append (g ∷ gs) hs a room =
      (room.0, HasRoom-append gs hs (absorb D (point_data_parse_frame_ms200 D g) a).1 room.1)

-- For a driver of the MS200 that looks for no device information, with at most 1025 bytes buffered, which
-- searches for a header or has one in front, and reads that fit the thread's buffer: if the buffered
-- bytes and the reads together are right frames, damaged frames and bytes without a header, each
-- damaged frame and each run of such bytes with a frame behind it, and the circle in progress always
-- has room for the next right frame, then however the channel cuts them into reads, the scans are
-- those that some of the right frames make, from the first one on and without a gap, as if nothing else
-- had been sent: the full scan is the last circle that their points complete, or the one before if they
-- complete none, and the scan in progress and the last angle are those of the description. The
-- other right frames are among the at most 1025 bytes that are still buffered.
pub rx_run-item_circles :
    {F D : Type 0} ⦃fl : Floats F D⦄ (items : List Item) (got : List Arrival) (d : Driver F D)
    → IsNoisy items
    → All FitsBuffer got
    → IsParsing d
    → FitsArrays d.reader
    → d.reader.bin_buf ++ received_bytes got ≡ item_bytes items
    → HasRoom D (sent_frames items) (assembly_of D d.reader)
    → (d' : Driver F D) × (gs : List LidarFrame) × (rx_run got d ≡ some d')
      × Follows gs d.reader d'.reader
      × (sent_frames items ≡ gs ++ (parse d'.reader.bin_buf).0)
      × (length d'.reader.bin_buf ≤ 1025)
rx_run-item_circles {D = D} items got d noisy fits p v e room =
    let (d', gs, run, stored, frames, few) = rx_run-item_bytes items got d noisy fits p e in
    let waiting = (parse d'.reader.bin_buf).0 in
    let (sent_gs, sent_rest) =
      All-cut IsSent gs waiting (subst (All IsSent) frames (sent_frames-IsSent items noisy)) in
    let room_gs =
      HasRoom-append D gs waiting (assembly_of D d.reader)
        (subst (λ fs. HasRoom D fs (assembly_of D d.reader)) frames room) in
    let (segment, full) = run_frames-Follows gs d.reader sent_gs v room_gs in
    (
      d',
      gs,
      run,
      (ap (assembly_of D) stored ∙ segment, ap (λ r. contents r.full_scan_data) stored ∙ full),
      frames,
      few,
    )
