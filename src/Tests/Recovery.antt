-- ===== src/Tests/Recovery.antt =====
-- A damaged frame in front of right ones.
use cqut_lgv.Common.{ℕ, ◌≤◌, ◌≡◌, refl, true, Bool, some, List, [], ◌∷◌, ◌++◌, length, arith}
use cqut_lgv.Common.Int.{ℤ}
use cqut_lgv.Floats.Fixed.{fixed}
use cqut_lgv.Crc.{crc8}
use cqut_lgv.Protocol.{frame_of_bytes, head_flag_none}
use cqut_lgv.Protocol.Layout.{frame_bytes}
use cqut_lgv.Reader.{Reader, init_reader}
use cqut_lgv.Reader.Loop.{uart_data_handle, crc_ok}
use cqut_lgv.Reader.Stream.{frames_bytes, run_frames}
use cqut_lgv.Reader.Stream.Buffered.{with_buf}
use cqut_lgv.Reader.Recover.{IsDamaged}
use cqut_lgv.Reader.Recover.Calls.{uart_data_handle-IsDamaged, uart_data_handle-waits}
use cqut_lgv.Tests.Samples.{sample_frame, sample_before, sample_after}
use cqut_lgv.Tests.Streams.{sample_frame-IsSent}

abbrev start : Reader ℤ ℤ
unfolding init_reader
start = init_reader

-- The sample frame with a 45 in place of its seventh byte.
abbrev pub damaged_frame : List ℕ
damaged_frame = sample_before ++ (45 ∷ sample_after)

pub damaged_frame-IsDamaged : IsDamaged damaged_frame
unfolding crc_ok crc8 frame_of_bytes
damaged_frame-IsDamaged = record { header = refl; long = refl; clean = ground arith; wrong = refl }

abbrev arrived : List ℕ
unfolding frame_bytes
arrived = damaged_frame ++ frames_bytes (sample_frame ∷ []) (0x54 ∷ [])

arrived_lem :
    start.bin_buf ++ arrived ≡ damaged_frame ++ frames_bytes (sample_frame ∷ []) (0x54 ∷ [])
unfolding start arrived init_reader frame_bytes
arrived_lem = refl

start_unset : start.parsed_data.head_flag ≡ head_flag_none
unfolding start init_reader
start_unset = refl

arrived_small : length (start.bin_buf ++ arrived) ≤ 4700
unfolding start arrived init_reader frame_bytes
arrived_small = omega arith

uart_data_handle-IsDamaged_example :
    uart_data_handle arrived start
    ≡ some (true, with_buf (0x54 ∷ []) (run_frames (sample_frame ∷ []) start))
uart_data_handle-IsDamaged_example =
    uart_data_handle-IsDamaged damaged_frame sample_frame [] (0x54 ∷ []) arrived start
      damaged_frame-IsDamaged (sample_frame-IsSent, tt) arrived_lem arrived_small start_unset
      (omega arith) (omega arith)

abbrev arrived_two : List ℕ
unfolding frame_bytes
arrived_two = damaged_frame ++ frames_bytes (sample_frame ∷ sample_frame ∷ []) []

arrived_two_lem :
    start.bin_buf ++ arrived_two
    ≡ damaged_frame ++ frames_bytes (sample_frame ∷ sample_frame ∷ []) []
unfolding start arrived_two init_reader frame_bytes
arrived_two_lem = refl

uart_data_handle-waits_example :
    (waiting : Reader ℤ ℤ) × (waiting
      ≡ with_buf (frame_bytes sample_frame []) (run_frames (sample_frame ∷ []) start))
    × (uart_data_handle arrived_two start ≡ some (true, waiting))
    × (b : Bool) × (uart_data_handle (0x54 ∷ []) waiting
        ≡ some (b, with_buf (0x54 ∷ []) (run_frames (sample_frame ∷ sample_frame ∷ []) start)))
uart_data_handle-waits_example =
    uart_data_handle-waits damaged_frame sample_frame sample_frame [] (0x54 ∷ []) arrived_two
      (0x54 ∷ []) start damaged_frame-IsDamaged sample_frame-IsSent (sample_frame-IsSent, tt)
      arrived_two_lem refl (omega arith) (omega arith) start_unset
