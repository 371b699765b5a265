-- ===== src/Tests/Races.antt =====
-- `GrabFullScan` and the receive thread side by side.
use cqut_lgv.Common.{ℕ, ◌≡◌, refl, true, none, some, List, [], ◌∷◌, ◌++◌, length, arith}
use cqut_lgv.Common.Int.{ℤ}
use cqut_lgv.Floats.Fixed.{fixed}
use cqut_lgv.Crc.{crc8}
use cqut_lgv.Protocol.{LidarFrame, Point, frame_of_bytes}
use cqut_lgv.Protocol.Layout.{frame_bytes}
use cqut_lgv.Reader.Total.{init_reader-IsValid}
use cqut_lgv.Driver.{Driver, new_driver}
use cqut_lgv.Driver.Device.{Arrival, received}
use cqut_lgv.Driver.Receive.{IsQuiet, FitsBuffer, rx_step}
use cqut_lgv.Driver.Race.{
  threads, outside, Steps, IsSound, IsReady, Steps-IsSound, reset_full, copied, receive, check,
  copy, reset, still, later,
}
use cqut_lgv.Reader.{point_data_parse_frame_ms200, parse_points, init_reader}
use cqut_lgv.Reader.Assembly.{last_angle_of, assembly_of, absorb, split_wrap}
use cqut_lgv.Reader.Stream.Circles.{absorb_all}
use cqut_lgv.Tests.Samples.{sample_frame}

abbrev frame : List ℕ
unfolding frame_bytes
frame = frame_bytes sample_frame []

-- A driver with a scan to hand out.
abbrev ready_driver : Driver ℤ ℤ
unfolding new_driver
ready_driver =
    let d = new_driver 0 1 in
    record d {
      reader = record d.reader {
        full_scan_ready = true;
        full_scan_data = record d.reader.full_scan_data { vailtidy_point_num = 1 };
      };
    }

-- Two frames in one round: a circle ends.
abbrev two_more : Arrival
two_more = received (frame ++ frame)

abbrev after_two : Driver ℤ ℤ
after_two = elim (rx_step two_more ready_driver) [ none ↦ ready_driver | some d ↦ d ]

two_more_received : rx_step two_more ready_driver ≡ some after_two
unfolding rx_step frame ready_driver crc8 frame_of_bytes
two_more_received = refl

announced : (after_two.reader.full_data_event ≡ 1) × (after_two.reader.full_scan_ready ≡ true)
unfolding rx_step frame ready_driver crc8 frame_of_bytes
announced = (refl, refl)

ready_driver-IsReady : IsReady ready_driver
unfolding ready_driver
ready_driver-IsReady = (λ e. omega arith, refl)

two_more-FitsBuffer : FitsBuffer two_more
unfolding frame
two_more-FitsBuffer = omega arith

abbrev two_frames : List LidarFrame
two_frames = sample_frame ∷ sample_frame ∷ []

-- The circle that the two frames complete: the first of them.
abbrev lost_circle : List (Point ℤ)
lost_circle = elim (absorb_all {F = ℤ} ℤ two_frames (assembly_of ℤ ready_driver.reader)).0 [
  | [] ↦ []
  | circle ∷ more ↦ circle
]

length-lost_circle : length lost_circle ≡ 12
unfolding absorb_all absorb split_wrap point_data_parse_frame_ms200 parse_points ready_driver
    init_reader last_angle_of
length-lost_circle = refl

ready_driver-IsQuiet : IsQuiet ready_driver
unfolding ready_driver
ready_driver-IsQuiet =
    let v = init_reader-IsValid {F = ℤ} {D = ℤ} in
    record {
      valid = record {
        synced = v.synced;
        fits = record {
          temp_length = v.fits.temp_length;
          temp_num = v.fits.temp_num;
          full_length = v.fits.full_length;
          full_num = omega arith;
          one_length = v.fits.one_length;
          one_num = v.fits.one_num;
        };
      };
      quiet = refl;
    }

lost_run :
    Steps
      (threads ready_driver outside [])
      (threads (reset_full after_two) outside (ready_driver.reader.full_scan_data ∷ []))
lost_run = later _ _ _ (check ready_driver [] ready_driver-IsReady) (
    later _ _ _ (copy ready_driver []) (
      later _ _ _
        (receive two_more ready_driver after_two (copied ready_driver.reader.full_scan_data) []
          two_more-FitsBuffer two_more_received)
        (later _ _ _ (reset after_two ready_driver.reader.full_scan_data []) (still _))))

Steps-IsSound_example :
    IsSound (threads (reset_full after_two) outside (ready_driver.reader.full_scan_data ∷ []))
Steps-IsSound_example =
    Steps-IsSound (threads ready_driver outside [])
      (threads (reset_full after_two) outside (ready_driver.reader.full_scan_data ∷ [])) lost_run
      (record { quiet = ready_driver-IsQuiet; fits_phase = tt; fits_given = tt })
