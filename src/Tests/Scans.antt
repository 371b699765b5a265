-- ===== src/Tests/Scans.antt =====
-- The receiving half on the sample frame.
use cqut_lgv.Common.{◌+◌, ◌<◌, ◌≡◌, refl, Bool, some, [], ◌∷◌, ◌++◌, arith}
use cqut_lgv.Common.Int.{ℤ}
use cqut_lgv.Floats.Fixed.{fixed}
use cqut_lgv.Crc.{crc8}
use cqut_lgv.Protocol.{version_ms200, frame_of_bytes}
use cqut_lgv.Reader.{
  Reader, init_reader, store_package, parse_header, reset_flags, point_data_parse_frame_ms200,
}
use cqut_lgv.Reader.Loop.{continue, uart_data_handle, frame_round, crc_ok}
use cqut_lgv.Reader.Invariant.{FitsArrays, init_reader-FitsArrays}
use cqut_lgv.Reader.Total.{IsValid, init_reader-IsValid, uart_data_handle-IsValid}
use cqut_lgv.Reader.Assembly.{Shows, absorb, assembly_of}
use cqut_lgv.Reader.Packages.{store_package-Shows}
use cqut_lgv.Reader.Conserve.{Conserves, store_package-Conserves}
use cqut_lgv.Reader.Checksum.{frame_round-damaged}
use cqut_lgv.Tests.Samples.{sample_frame, sample_before, sample_after}

-- The driver after it has been constructed.
abbrev new_reader : Reader ℤ ℤ
new_reader = init_reader

-- The same after the header of the sample frame has been read.
abbrev announced : Reader ℤ ℤ
unfolding parse_header
announced = parse_header sample_frame new_reader

announced-FitsArrays : FitsArrays announced
unfolding announced
announced-FitsArrays =
    let v = init_reader-FitsArrays {F = ℤ} {D = ℤ} in
    omega (arith, v.temp_length, v.temp_num, v.full_length, v.full_num, v.one_length, v.one_num)

announced-room : announced.temp_data.vailtidy_point_num + 12 < 4096
unfolding announced init_reader
announced-room = omega arith

-- The sample frame with its seventh byte damaged, in the buffer.
abbrev damaged : Reader ℤ ℤ
unfolding init_reader
damaged = record new_reader {
  bin_buf = sample_before ++ (45 ∷ sample_after);
  parsed_data = record new_reader.parsed_data { version = version_ms200 };
}

uart_data_handle-IsValid_example :
    (b : Bool) × (r' : Reader ℤ ℤ) × (uart_data_handle (1 ∷ 0x54 ∷ 0x2C ∷ []) new_reader
      ≡ some (b, r'))
    × IsValid r'
uart_data_handle-IsValid_example =
    uart_data_handle-IsValid (1 ∷ 0x54 ∷ 0x2C ∷ []) new_reader init_reader-IsValid

store_package-Shows_example :
    Shows ℤ announced
      (store_package sample_frame announced)
      (absorb ℤ (point_data_parse_frame_ms200 ℤ sample_frame) (assembly_of ℤ announced))
unfolding announced parse_header
store_package-Shows_example =
    store_package-Shows sample_frame announced announced-FitsArrays refl refl announced-room

store_package-Conserves_example :
    Conserves announced
      (store_package sample_frame announced)
      (point_data_parse_frame_ms200 ℤ sample_frame)
unfolding announced parse_header
store_package-Conserves_example =
    store_package-Conserves sample_frame announced announced-FitsArrays refl refl announced-room

frame_round-damaged_example : frame_round 0 damaged ≡ continue 0 (reset_flags 2 damaged)
unfolding crc_ok crc8 frame_of_bytes damaged
frame_round-damaged_example =
    frame_round-damaged sample_before sample_after 44 45 0 damaged (ground arith) (ground arith)
      (omega arith) (omega arith) (omega arith) (omega arith) refl refl refl
