-- ===== src/Controller/Packets.antt =====
-- The packets of lgv_controller/src/lgv_controller_node.cpp, as both ends of the line write and read them.
use cqut_lgv.Common.{
  ℕ, zero, suc, ◌+◌, ◌*◌, ◌/◌, ◌%◌, ◌≡◌, refl, ap, ◌∙◌, List, [], ◌∷◌, ◌++◌, length, take, arith,
}
use cqut_lgv.Common.Int.{ℤ, pos}
use cqut_lgv.Floats.{Floats}
use cqut_lgv.Controller.{Twist, Pose, Platform, command, packet_at, thousandths}
use cqut_lgv.Controller.Memory.{
  ok, byte_at, int16_at, bits32_at, int16_bytes, signed16, unsigned16, FitsInt16,
  signed16-unsigned16,
}

-- `get_elem?` behind a list of known length.
pub byte_at-append :
    (xs ys : List ℕ) (k i : ℕ) → k ≡ length xs + i → byte_at (xs ++ ys) k ≡ byte_at ys i
byte_at-append [] ys k i e = ap (byte_at ys) (omega arith)
byte_at-append (x ∷ xs) ys zero i e = absurd (omega arith)
byte_at-append (x ∷ xs) ys (suc k) i e = byte_at-append xs ys k i (omega arith)

word_lem : (w : ℕ) → w % 256 + 256 * (w / 256) ≡ w
word_lem w = omega arith

-- A word that is written is read back.
int16_at-int16_bytes :
    (z : ℤ) (rest : List ℕ) → FitsInt16 z → int16_at (int16_bytes z ++ rest) 0 ≡ ok z
int16_at-int16_bytes z rest fits =
    ap (λ w. ok (signed16 w)) (word_lem (unsigned16 z)) ∙ ap ok (signed16-unsigned16 z fits)

module _ {W T Q F D : Type 0} ⦃fl : Floats F D⦄ (p : Platform W T Q F D) where
  open fl use {dmul, double_of}

  -- A velocity in thousandths.
  abbrev milli : D → ℤ
  milli v = p.int16_of (dmul v (double_of (pos 1000)))

  -- The eight bytes that are sent for a velocity whose thousandths fit an `int16_t` are the header and
  -- three words that read back as these thousandths.
  pub int16_at-command :
      (msg : Twist D)
      → FitsInt16 (milli msg.linear_x)
      → FitsInt16 (milli msg.linear_y)
      → FitsInt16 (milli msg.angular_z)
      → (length (command p msg) ≡ 8)
        × (take 2 (command p msg) ≡ 0xFF ∷ 0xFF ∷ [])
        × (int16_at (command p msg) 2 ≡ ok (milli msg.linear_x))
        × (int16_at (command p msg) 4 ≡ ok (milli msg.linear_y))
        × (int16_at (command p msg) 6 ≡ ok (milli msg.angular_z))
  unfolding command
  int16_at-command msg fx fy fw = (
    refl,
    refl,
    int16_at-int16_bytes (milli msg.linear_x) [] fx,
    int16_at-int16_bytes (milli msg.linear_y) [] fy,
    int16_at-int16_bytes (milli msg.angular_z) [] fw,
  )

-- What a packet of the controller holds: velocities in thousandths, and the bits of three floats.
pub record Packet : Type 0 where
  pub vx : ℤ
  pub vy : ℤ
  pub vw : ℤ
  pub x : ℕ
  pub y : ℕ
  pub w : ℕ

pub record FitsWords (q : Packet) : Type 0 where
  pub fits_vx : FitsInt16 q.vx
  pub fits_vy : FitsInt16 q.vy
  pub fits_vw : FitsInt16 q.vw

abbrev pub put_int16 : ℤ → List ℕ → List ℕ
put_int16 z rest = unsigned16 z % 256 ∷ unsigned16 z / 256 ∷ rest

abbrev pub put_bits32 : ℕ → List ℕ → List ℕ
put_bits32 b rest = b % 256 ∷ b / 256 % 256 ∷ b / 256 / 256 % 256 ∷ b / 256 / 256 / 256 ∷ rest

-- The 20 bytes of a packet, in front of what follows.
unfoldable pub packet_bytes : Packet → List ℕ → List ℕ
packet_bytes q rest =
    0xFF
    ∷ 0xFF
    ∷ put_int16 q.vx
        (put_int16 q.vy (put_int16 q.vw (put_bits32 q.x (put_bits32 q.y (put_bits32 q.w rest)))))

int16_at_behind :
    (xs ys : List ℕ) (k i : ℕ) → k ≡ length xs + i → int16_at (xs ++ ys) k ≡ int16_at ys i
int16_at_behind xs ys k i e =
    rw (byte_at-append xs ys k i e, byte_at-append xs ys (k + 1) (i + 1) (omega arith)) refl

bits32_at_behind :
    (xs ys : List ℕ) (k i : ℕ) → k ≡ length xs + i → bits32_at (xs ++ ys) k ≡ bits32_at ys i
bits32_at_behind xs ys k i e =
    rw
      (
        byte_at-append xs ys k i e,
        byte_at-append xs ys (k + 1) (i + 1) (omega arith),
        byte_at-append xs ys (k + 2) (i + 2) (omega arith),
        byte_at-append xs ys (k + 3) (i + 3) (omega arith),
      )
      refl

pub bits_lem :
    (b : ℕ)
    → b % 256 + 256 * (b / 256 % 256 + 256 * (b / 256 / 256 % 256 + 256 * (b / 256 / 256 / 256)))
      ≡ b
bits_lem b = omega arith

module _ {W T Q F D : Type 0} ⦃fl : Floats F D⦄ (p : Platform W T Q F D) where
  -- The values of a packet as they are published.
  abbrev pub pose_of : Packet → Pose F
  pose_of q = record {
    vx = thousandths p q.vx;
    vy = thousandths p q.vy;
    vw = thousandths p q.vw;
    x = p.float_of_bits q.x;
    y = p.float_of_bits q.y;
    w = p.float_of_bits q.w;
  }

  -- A packet is read field by field.
  pub packet_at_fields :
      (buf : List ℕ) (i : ℕ) (q : Packet)
      → int16_at buf (i + 2) ≡ ok q.vx
      → int16_at buf (i + 4) ≡ ok q.vy
      → int16_at buf (i + 6) ≡ ok q.vw
      → bits32_at buf (i + 8) ≡ ok q.x
      → bits32_at buf (i + 12) ≡ ok q.y
      → bits32_at buf (i + 16) ≡ ok q.w
      → packet_at p buf i ≡ ok (pose_of q)
  unfolding packet_at
  packet_at_fields buf i q evx evy evw ex ey ew = rw (evx, evy, evw, ex, ey, ew) refl

  pub packet_at-packet_bytes :
      (junk : List ℕ) (q : Packet) (rest : List ℕ)
      → FitsWords q
      → packet_at p (junk ++ packet_bytes q rest) (length junk) ≡ ok (pose_of q)
  unfolding packet_bytes
  packet_at-packet_bytes junk q rest fits =
      let ys = packet_bytes q rest in
      let n = length junk in
      packet_at_fields (junk ++ ys) n q
        (int16_at_behind junk ys (n + 2) 2 refl ∙ int16_at-int16_bytes q.vx [] fits.fits_vx)
        (int16_at_behind junk ys (n + 4) 4 refl ∙ int16_at-int16_bytes q.vy [] fits.fits_vy)
        (int16_at_behind junk ys (n + 6) 6 refl ∙ int16_at-int16_bytes q.vw [] fits.fits_vw)
        (bits32_at_behind junk ys (n + 8) 8 refl ∙ ap ok (bits_lem q.x))
        (bits32_at_behind junk ys (n + 12) 12 refl ∙ ap ok (bits_lem q.y))
        (bits32_at_behind junk ys (n + 16) 16 refl ∙ ap ok (bits_lem q.w))
