-- ===== src/Tests/Streams.antt =====
-- The receive thread on two frames that the channel delivers in three pieces.
use cqut_lgv.Common.{
  ℕ, true, ◌<◌, ◌≡◌, refl, some, none, List, [], ◌∷◌, ◌++◌, take, drop, length, All, arith,
}
use cqut_lgv.Common.Int.{ℤ}
use cqut_lgv.Floats.Fixed.{fixed}
use cqut_lgv.Crc.{crc8}
use cqut_lgv.Protocol.{LidarFrame}
use cqut_lgv.Protocol.Layout.{frame_bytes}
use cqut_lgv.Reader.{init_reader, point_data_parse_frame_ms200, parse_points}
use cqut_lgv.Reader.Invariant.{init_reader-FitsArrays}
use cqut_lgv.Reader.Assembly.{contents, assembly_of, absorb, split_wrap}
use cqut_lgv.Reader.Stream.{IsSent, frames_bytes, run_frames}
use cqut_lgv.Reader.Stream.Buffered.{with_buf}
use cqut_lgv.Reader.Stream.Circles.{concat, points_of, absorb_all, HasRoom, Follows}
use cqut_lgv.Driver.{Driver, System, new_driver}
use cqut_lgv.Driver.Grab.{grab_full_scan, grab_full_scan_blocking, grab_full_scan_blocking-misses}
use cqut_lgv.Tests.Sessions.{echo}
use cqut_lgv.Driver.Device.{Arrival, silence, received}
use cqut_lgv.Driver.Receive.{rx_run, FitsBuffer}
use cqut_lgv.Driver.Stream.{IsListening, received_bytes, rx_run-sent, rx_run-circles}
use cqut_lgv.Tests.Samples.{sample_frame}

abbrev pub listening : Driver ℤ ℤ
unfolding new_driver
listening = new_driver 0 1

abbrev two_frames : List LidarFrame
two_frames = sample_frame ∷ sample_frame ∷ []

abbrev two_frames_bytes : List ℕ
unfolding frame_bytes
two_frames_bytes = frames_bytes two_frames []

-- The first read ends inside the first frame, and the second one inside the second.
abbrev pieces : List Arrival
pieces =
    received (take 30 two_frames_bytes)
    ∷ silence
    ∷ received (take 40 (drop 30 two_frames_bytes))
    ∷ received (drop 70 two_frames_bytes)
    ∷ []

pub sample_frame-IsSent : IsSent sample_frame
unfolding crc8 frame_bytes
sample_frame-IsSent = record { header = refl; ver_len = refl; points = refl; checked = refl }

pieces-FitsBuffer : All FitsBuffer pieces
unfolding two_frames_bytes frame_bytes
pieces-FitsBuffer = (omega arith, (tt, (omega arith, (omega arith, tt))))

listening-IsListening : IsListening listening
unfolding listening init_reader
listening-IsListening = record { model = refl; quiet = refl; unset = refl }

pieces-received_bytes :
    listening.reader.bin_buf ++ received_bytes pieces ≡ frames_bytes two_frames []
unfolding listening two_frames_bytes frame_bytes init_reader
pieces-received_bytes = refl

listening_short : length listening.reader.bin_buf < 47
unfolding listening init_reader
listening_short = omega arith

two_frames-HasRoom : HasRoom ℤ two_frames (assembly_of ℤ listening.reader)
unfolding listening init_reader absorb split_wrap point_data_parse_frame_ms200 parse_points
two_frames-HasRoom = (omega arith, (omega arith, tt))

rx_run-sent_example :
    (d' : Driver ℤ ℤ) × (rx_run pieces listening ≡ some d')
    × (d'.reader ≡ with_buf [] (run_frames two_frames listening.reader))
rx_run-sent_example =
    rx_run-sent two_frames pieces listening (sample_frame-IsSent, (sample_frame-IsSent, tt))
      pieces-FitsBuffer listening-IsListening listening_short pieces-received_bytes

rx_run-circles_example :
    (d' : Driver ℤ ℤ) × (rx_run pieces listening ≡ some d')
    × Follows two_frames listening.reader d'.reader
    × (concat (absorb_all ℤ two_frames (assembly_of ℤ listening.reader)).0
          ++ contents d'.reader.temp_data
        ≡ contents listening.reader.temp_data ++ points_of ℤ two_frames)
unfolding listening
rx_run-circles_example =
    rx_run-circles two_frames pieces listening (sample_frame-IsSent, (sample_frame-IsSent, tt))
      pieces-FitsBuffer listening-IsListening init_reader-FitsArrays listening_short
      pieces-received_bytes two_frames-HasRoom

-- A scan of one point is ready.
abbrev with_scan : System ℕ ℤ ℤ
unfolding listening init_reader
with_scan = record {
  driver = record listening {
    reader = record listening.reader {
      full_scan_ready = true;
      full_scan_data = record listening.reader.full_scan_data { vailtidy_point_num = 1 };
    };
  };
  world = 0;
}

-- Nothing arrives: the call that does not block hands the scan out, the one that blocks does not.
grab_full_scan_blocking_misses :
    ((grab_full_scan with_scan.driver).0 ≡ some with_scan.driver.reader.full_scan_data)
    × (grab_full_scan_blocking (echo []) 1500 with_scan ≡ some (none, with_scan))
unfolding with_scan
grab_full_scan_blocking_misses =
    grab_full_scan_blocking-misses (echo []) 1500 with_scan refl refl (omega arith)
