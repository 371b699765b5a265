-- ===== src/Protocol/Layout.antt =====
-- The wire format of a lidar frame, written field by field, against the cast of the driver.
use cqut_lgv.Common.{
  ℕ, zero, suc, ◌+◌, ◌*◌, ◌/◌, ◌%◌, ◌≡◌, refl, sym, ap, List, [], ◌∷◌, arith, length,
}
use cqut_lgv.Protocol.{
  LidarPoint, LidarFrame, point_per_pack, u8_at, lidar_points, frame_of_bytes, frame_size,
}

-- A 16 bit word, low byte first, in front of what follows.
abbrev pub put_u16 : ℕ → List ℕ → List ℕ
put_u16 w rest = w % 256 ∷ w / 256 ∷ rest

unfoldable pub put_points : List LidarPoint → List ℕ → List ℕ
put_points [] rest = rest
put_points (p ∷ ps) rest = put_u16 p.distance (p.confidence ∷ put_points ps rest)

-- The bytes that a device sends for a frame, in front of what follows.
unfoldable pub frame_bytes : LidarFrame → List ℕ → List ℕ
unfolding put_points
frame_bytes f rest =
    f.header
    ∷ f.ver_len
    ∷ put_u16 f.speed (
        put_u16 f.start_angle
          (put_points f.point (put_u16 f.end_angle (put_u16 f.timestamp (f.crc8 ∷ rest)))))

word : (w : ℕ) → w % 256 + 256 * (w / 256) ≡ w
word w = omega arith

lidar_points-put_points :
    (ps : List LidarPoint) (n : ℕ) (rest : List ℕ)
    → n ≡ length ps
    → lidar_points n (put_points ps rest) ≡ ps
unfolding lidar_points put_points
lidar_points-put_points [] zero rest e = refl
lidar_points-put_points [] (suc n) rest e = absurd (omega arith)
lidar_points-put_points (p ∷ ps) zero rest e = absurd (omega arith)
lidar_points-put_points (p ∷ ps) (suc n) rest e =
    ground (arith, word p.distance, lidar_points-put_points ps n rest (omega arith))

-- What stands behind the points.
u8_at-put_points :
    (ps : List LidarPoint) (i k : ℕ) (rest : List ℕ)
    → i ≡ 3 * length ps + k
    → u8_at (put_points ps rest) i ≡ u8_at rest k
unfolding put_points
u8_at-put_points [] i k rest e = ap (u8_at rest) (omega arith)
u8_at-put_points (p ∷ ps) zero k rest e = absurd (omega arith)
u8_at-put_points (p ∷ ps) (suc zero) k rest e = absurd (omega arith)
u8_at-put_points (p ∷ ps) (suc (suc zero)) k rest e = absurd (omega arith)
u8_at-put_points (p ∷ ps) (suc (suc (suc i))) k rest e = u8_at-put_points ps i k rest (omega arith)

-- The driver's cast reads back every field of a frame with 12 points that was written in the wire
-- format, whatever follows it in the buffer.
pub frame_of_bytes-frame_bytes :
    (f : LidarFrame) (rest : List ℕ)
    → length f.point ≡ point_per_pack
    → frame_of_bytes (frame_bytes f rest) ≡ f
unfolding frame_of_bytes frame_bytes
frame_of_bytes-frame_bytes f rest e = ground (
  arith,
  word f.speed,
  word f.start_angle,
  word f.end_angle,
  word f.timestamp,
  lidar_points-put_points f.point 12 tail (sym e),
  u8_at-put_points f.point 36 0 tail (omega arith),
  u8_at-put_points f.point 37 1 tail (omega arith),
  u8_at-put_points f.point 38 2 tail (omega arith),
  u8_at-put_points f.point 39 3 tail (omega arith),
  u8_at-put_points f.point 40 4 tail (omega arith),
)
  where
    tail : List ℕ
    tail = put_u16 f.end_angle (put_u16 f.timestamp (f.crc8 ∷ rest))

length-put_points :
    (ps : List LidarPoint) (rest : List ℕ)
    → length (put_points ps rest) ≡ 3 * length ps + length rest
unfolding put_points
length-put_points [] rest = omega arith
length-put_points (p ∷ ps) rest = omega (arith, length-put_points ps rest)

-- A frame with 12 points takes `sizeof(OradarLidarFrame)` bytes.
pub length-frame_bytes :
    (f : LidarFrame) (rest : List ℕ)
    → length f.point ≡ point_per_pack
    → length (frame_bytes f rest) ≡ frame_size + length rest
unfolding frame_bytes
length-frame_bytes f rest e =
    omega
      (arith, length-put_points f.point (put_u16 f.end_angle (put_u16 f.timestamp (f.crc8 ∷ rest))))
