-- ===== src/Tests/Noise.antt =====
-- The receive thread on a damaged frame, a byte that was lost and right frames.
use cqut_lgv.Common.{
  ℕ, ◌≤◌, ◌≡◌, refl, inl, some, List, [], ◌∷◌, ◌++◌, take, drop, length, All, arith,
}
use cqut_lgv.Common.Int.{ℤ}
use cqut_lgv.Floats.Fixed.{fixed}
use cqut_lgv.Crc.{crc8}
use cqut_lgv.Protocol.{LidarFrame}
use cqut_lgv.Protocol.Layout.{frame_bytes}
use cqut_lgv.Reader.Stream.{run_frames}
use cqut_lgv.Reader.Parser.{parse}
use cqut_lgv.Reader.Parser.Search.{seen}
use cqut_lgv.Reader.Parser.Noise.{Item, sent, damaged, noise, item_bytes, sent_frames, IsNoisy}
use cqut_lgv.Reader.{point_data_parse_frame_ms200, parse_points}
use cqut_lgv.Reader.Invariant.{init_reader-FitsArrays}
use cqut_lgv.Reader.Assembly.{assembly_of, absorb, split_wrap}
use cqut_lgv.Reader.Stream.Circles.{HasRoom, Follows}
use cqut_lgv.Driver.Parsed.Circles.{rx_run-item_circles}
use cqut_lgv.Driver.{Driver, new_driver}
use cqut_lgv.Driver.Device.{Arrival, silence, received}
use cqut_lgv.Driver.Receive.{rx_run, FitsBuffer}
use cqut_lgv.Driver.Stream.{received_bytes}
use cqut_lgv.Driver.Parsed.{IsParsing, rx_run-parse}
use cqut_lgv.Tests.Samples.{sample_frame}
use cqut_lgv.Tests.Streams.{listening, sample_frame-IsSent}
use cqut_lgv.Tests.Recovery.{damaged_frame, damaged_frame-IsDamaged}

-- Three bytes without a header, a right frame, a damaged one and a right one.
abbrev items : List Item
items =
    noise (0x54 ∷ 1 ∷ 0x2C ∷ [])
    ∷ sent sample_frame
    ∷ damaged damaged_frame
    ∷ sent sample_frame
    ∷ []

items-IsNoisy : IsNoisy items
items-IsNoisy = (
  ground arith,
  tt,
  (sample_frame-IsSent, (damaged_frame-IsDamaged, tt, (sample_frame-IsSent, tt))),
)

abbrev bytes : List ℕ
unfolding frame_bytes
bytes = item_bytes items

abbrev pieces : List Arrival
pieces = received (take 60 bytes) ∷ silence ∷ received (drop 60 bytes) ∷ []

pieces-FitsBuffer : All FitsBuffer pieces
unfolding frame_bytes
pieces-FitsBuffer = (omega arith, (tt, (omega arith, tt)))

listening-IsParsing : IsParsing listening
unfolding new_driver
listening-IsParsing = record { model = refl; quiet = refl; prepared = inl refl; room = omega arith }

pieces_bytes : listening.reader.bin_buf ++ received_bytes pieces ≡ item_bytes items
unfolding new_driver frame_bytes
pieces_bytes = refl

items-HasRoom : HasRoom ℤ (sent_frames items) (assembly_of ℤ listening.reader)
unfolding new_driver absorb split_wrap point_data_parse_frame_ms200 parse_points
items-HasRoom = (omega arith, (omega arith, tt))

rx_run-item_circles_example :
    (d' : Driver ℤ ℤ) × (gs : List LidarFrame) × (rx_run pieces listening ≡ some d')
    × Follows gs listening.reader d'.reader
    × (sent_frames items ≡ gs ++ (parse d'.reader.bin_buf).0)
    × (length d'.reader.bin_buf ≤ 1025)
unfolding new_driver
rx_run-item_circles_example =
    rx_run-item_circles items pieces listening items-IsNoisy pieces-FitsBuffer listening-IsParsing
      init_reader-FitsArrays pieces_bytes items-HasRoom

-- A stream that ends inside a frame.
abbrev broken : List Arrival
broken = received (take 80 bytes) ∷ []

broken-FitsBuffer : All FitsBuffer broken
unfolding frame_bytes
broken-FitsBuffer = (omega arith, tt)

rx_run-parse_example :
    (d' : Driver ℤ ℤ) × (gs : List LidarFrame) × (rx_run broken listening ≡ some d')
    × (d'.reader ≡ seen d'.reader (run_frames gs listening.reader))
    × (parse (listening.reader.bin_buf ++ received_bytes broken)
        ≡ (gs ++ (parse d'.reader.bin_buf).0, (parse d'.reader.bin_buf).1))
    × IsParsing d'
rx_run-parse_example = rx_run-parse broken listening broken-FitsBuffer listening-IsParsing

-- The parser alone on the same bytes.
parse_runs : parse bytes ≡ (sample_frame ∷ sample_frame ∷ [], [])
unfolding parse frame_bytes crc8
parse_runs = refl
