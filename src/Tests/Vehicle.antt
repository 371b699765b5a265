-- ===== src/Tests/Vehicle.antt =====
-- The controller node on a line that answers with given bytes: lgv_controller/src/lgv_controller_node.cpp.
use cqut_lgv.Common.{
  ℕ, ◌/◌, ◌<◌, zero, suc, get_or-append_lt, drop, sym, ◌∙◌, ◌≡◌, refl, true, some, List, [], ◌∷◌,
  ◌++◌, length, replicate, take, copy_into, get_or, arith,
}
use cqut_lgv.Common.Int.{ℤ, pos, negsuc, pos_part, neg_part, sub_ℕ}
use cqut_lgv.Floats.Fixed.{fixed, unit}
use cqut_lgv.Controller.{
  Twist, Odometry, Platform, returned, command, publish_pose, read_input, run_main, main_loop,
  main_round, spin_once, find_packet, search, packet_at, thousandths, looping,
}
use cqut_lgv.Controller.Memory.{ok, stop, out_of_bounds, int16_at}
use cqut_lgv.Controller.Packets.{Packet, FitsWords, packet_bytes, pose_of, int16_at-command}
use cqut_lgv.Controller.Reading.{IsHeader}
use cqut_lgv.Controller.Rounds.{read_input-packet_bytes, read_input_outside, read_input_stale}

-- The bytes that the next reads bring, what was written, and what was published.
record Line : Type 0 where
  incoming : List (List ℕ)
  written : List (List ℕ)
  published : List (Odometry ℕ ℤ ℤ)

abbrev next_bytes : List (List ℕ) → List ℕ
next_bytes [] = []
next_bytes (bytes ∷ rest) = bytes

abbrev later_bytes : List (List ℕ) → List (List ℕ)
later_bytes [] = []
later_bytes (bytes ∷ rest) = rest

-- Every round has one velocity to pass on, of 1.5, 0 and -0.25.
abbrev velocity : Twist ℤ
velocity = record { linear_x = pos 1500; linear_y = pos 0; angular_z = negsuc 249 }

abbrev line : Platform Line ℕ ℤ ℤ ℤ
line = record {
  open_port = λ s. (returned, s);
  is_open = λ s. true;
  available = λ s. some (length (next_bytes s.incoming), s);
  read = λ n s. some (next_bytes s.incoming, record s { incoming = later_bytes s.incoming });
  write = λ bytes s. some (record s { written = bytes ∷ s.written });
  close = λ s. s;
  is_ok = λ s. true;
  pending = λ s. (velocity ∷ [], s);
  now = λ s. (0, s);
  send_transform = λ t s. s;
  publish = λ o s. record s { published = o ∷ s.published };
  sleep = λ s. s;
  quaternion_from_yaw = λ w. w;
  int16_of = λ v. sub_ℕ (pos_part v / unit) (neg_part v / unit);
  float_of_bits = λ b. pos b;
}

abbrev sample_packet : Packet
sample_packet = record { vx = pos 1500; vy = pos 0; vw = negsuc 249; x = 7; y = 800; w = 90000 }

sample_packet-FitsWords : FitsWords sample_packet
sample_packet-FitsWords = record {
  fits_vx = (omega arith, omega arith);
  fits_vy = (omega arith, omega arith);
  fits_vw = (omega arith, omega arith);
}

abbrev zeros : List ℕ
zeros = replicate 32 0

abbrev line_with : List ℕ → Line
line_with bytes = record { incoming = bytes ∷ []; written = []; published = [] }

abbrev line_after : Line
line_after = record { incoming = []; written = []; published = [] }

int16_at-command_example :
    (length (command line velocity) ≡ 8)
    × (take 2 (command line velocity) ≡ 0xFF ∷ 0xFF ∷ [])
    × (int16_at (command line velocity) 2 ≡ ok (pos 1500))
    × (int16_at (command line velocity) 4 ≡ ok (pos 0))
    × (int16_at (command line velocity) 6 ≡ ok (negsuc 249))
int16_at-command_example =
    int16_at-command line velocity (omega arith, omega arith) (omega arith, omega arith)
      (omega arith, omega arith)

abbrev behind_two : List ℕ
unfolding packet_bytes
behind_two = 1 ∷ 0xFF ∷ 2 ∷ packet_bytes sample_packet []

behind_two_before : (j : ℕ) → j < 3 → ¬ IsHeader behind_two j
unfolding behind_two packet_bytes
behind_two_before zero less (h, h') = absurd (omega (arith, h))
behind_two_before (suc zero) less (h, h') = absurd (omega (arith, h'))
behind_two_before (suc (suc zero)) less (h, h') = absurd (omega (arith, h))
behind_two_before (suc (suc (suc j))) less h = absurd (omega arith)

read_input-packet_bytes_example :
    read_input line 0 23 zeros (line_with behind_two)
    ≡ ok (
      copy_into zeros 0 behind_two,
      publish_pose line 0 (some (pose_of line sample_packet)) line_after,
    )
unfolding behind_two
read_input-packet_bytes_example =
    read_input-packet_bytes line 0 23 zeros behind_two (line_with behind_two) line_after refl
      (omega arith) (1 ∷ 0xFF ∷ 2 ∷ []) sample_packet [] refl behind_two_before
      sample_packet-FitsWords

get_or-zeros : (n j : ℕ) → get_or (replicate n zero) j 0 ≡ 0
get_or-zeros zero j = refl
get_or-zeros (suc n) zero = refl
get_or-zeros (suc n) (suc j) = get_or-zeros n j

-- A header at the fourteenth place.
abbrev late_header : List ℕ
late_header = replicate 13 0 ++ (0xFF ∷ 0xFF ∷ [])

late_header_before : (j : ℕ) → j < 13 → ¬ IsHeader (copy_into zeros 0 late_header) j
late_header_before j less h = absurd (
    omega (
      arith,
      sym (get_or-append_lt (replicate 13 0) (0xFF ∷ 0xFF ∷ drop 15 zeros) j 0 less) ∙ h.0,
      get_or-zeros 13 j,
    ))

read_input_outside_example : read_input line 0 15 zeros (line_with late_header) ≡ stop out_of_bounds
read_input_outside_example =
    read_input_outside line 0 15 zeros late_header (line_with late_header) line_after refl
      (omega arith) 13 refl (omega arith) (omega arith) refl (λ more. refl) late_header_before

abbrev header_only : List ℕ
header_only = 0xFF ∷ 0xFF ∷ 1 ∷ 0 ∷ []

read_input_stale_example :
    (vx vy vw : ℤ) × (read_input line 0 4 (packet_bytes sample_packet []) (line_with header_only)
      ≡ ok (
        copy_into (packet_bytes sample_packet []) 0 header_only,
        publish_pose line 0
            (some (pose_of line (record sample_packet { vx = vx; vy = vy; vw = vw })))
            line_after,
      ))
read_input_stale_example =
    read_input_stale line 0 4 (packet_bytes sample_packet []) header_only (line_with header_only)
      line_after refl (omega arith) (1 ∷ 0 ∷ []) sample_packet [] refl (omega arith) refl

-- Two rounds pass the velocity on twice, behind the two bytes that start the vehicle, and publish the
-- packet that came.
two_rounds :
    run_main line 2 zeros (line_with behind_two)
    ≡ ok (
        looping (copy_into zeros 0 behind_two) (record {
          incoming = [];
          written = command line velocity ∷ command line velocity ∷ (0xFF ∷ 0xFE ∷ []) ∷ [];
          published =
              record {
                stamp = 0;
                linear_x = pos 1500;
                linear_y = pos 0;
                angular_z = negsuc 249;
                position_x = pos 7;
                position_y = pos 800;
                orientation = pos 90000;
              }
              ∷ [];
        }))
unfolding run_main main_loop main_round spin_once read_input find_packet search packet_at
    thousandths publish_pose behind_two
two_rounds = refl
