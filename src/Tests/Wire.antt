-- ===== src/Tests/Wire.antt =====
-- The checksum and the frames on the wire.
use cqut_lgv.Common.{◌≡◌, refl, [], ◌∷◌, ◌++◌, take, arith}
use cqut_lgv.Crc.{crc8}
use cqut_lgv.Crc.Polynomial.{poly_crc, crc8-poly_crc}
use cqut_lgv.Protocol.{frame_of_bytes}
use cqut_lgv.Protocol.Layout.{frame_bytes, frame_of_bytes-frame_bytes}
use cqut_lgv.Tests.Samples.{sample_frame, sample_before, sample_after}

-- The bytes of the sample frame, with its checksum.
frame_bytes_sample : frame_bytes sample_frame [] ≡ sample_before ++ (44 ∷ sample_after)
unfolding frame_bytes
frame_bytes_sample = refl

crc8_sample : crc8 (take 46 (frame_bytes sample_frame [])) ≡ 110
unfolding crc8 frame_bytes
crc8_sample = refl

crc8-poly_crc_example : crc8 (84 ∷ 44 ∷ 16 ∷ []) ≡ poly_crc 0 (84 ∷ 44 ∷ 16 ∷ [])
crc8-poly_crc_example =
    crc8-poly_crc (84 ∷ 44 ∷ 16 ∷ []) (omega arith, (omega arith, (omega arith, tt)))

frame_of_bytes-frame_bytes_example :
    frame_of_bytes (frame_bytes sample_frame (84 ∷ [])) ≡ sample_frame
frame_of_bytes-frame_bytes_example = frame_of_bytes-frame_bytes sample_frame (84 ∷ []) refl
