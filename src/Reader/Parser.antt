-- ===== src/Reader/Parser.antt =====
-- What the receiving half of oradar_ros/sdk/src/ord_lidar_driver.cpp should find in a stream of bytes, and
-- nothing about how its buffer finds it.
pub mod Laws
pub mod Search
pub mod Rounds
pub mod Calls
pub mod Noise
use cqut_lgv.Common.{
  ℕ, zero, suc, ◌+◌, ◌-◌, ◌*◌, ◌≤◌, ◌<◌, ◌≡◌, refl, sym, ap, ap₂, ◌∙◌, inl, inr, Bool, true, false,
  ◌&&◌, Option, none, some, List, [], ◌∷◌, ◌++◌, arith, ltb, ltb→lt, ltb→ge, lt→ltb, le→ltb, ◌==◌,
  if◌then◌else◌, Bool-cases, Option-cases, length, take, drop, length-append, length-drop,
  take-append_le, drop-append_le, get_or-append_lt, append_assoc, subst,
}
use cqut_lgv.Crc.{crc8}
use cqut_lgv.Protocol.{LidarFrame, frame_of_bytes, lidar_points, lidar_point_at, u8_at, u16_at}
use cqut_lgv.Reader.Loop.{crc_ok}

-- A header stands in front, with another byte behind it.
abbrev pub is_headed : List ℕ → Bool
is_headed [] = false
is_headed (a ∷ []) = false
is_headed (a ∷ b ∷ []) = false
is_headed (a ∷ b ∷ c ∷ rest) = (a == 0x54) && (b == 0x2C)

-- What the bytes in front are: the frame that they are, if they are one, and how many of them are
-- dealt with; `none` asks for more bytes.
pub next : List ℕ → Option (List LidarFrame × ℕ)
next bs =
    if ltb (length bs) 3
    then none
    else if is_headed bs
    then (if ltb (length bs) 47
        then none
        else if crc_ok bs
        then some (frame_of_bytes bs ∷ [], 47)
        else some ([], 2))
    else some ([], 1)

-- The frames of a stream, on fuel, and the bytes behind them that may start another one.
parse_on : ℕ → List ℕ → List LidarFrame × List ℕ
parse_on zero bs = ([], bs)
parse_on (suc fuel) bs = elim (next bs) [
  | none ↦ ([], bs)
  | some (fs, k) ↦ let (gs, rest) = parse_on fuel (drop k bs) in (fs ++ gs, rest)
]

unfoldable pub parse : List ℕ → List LidarFrame × List ℕ
unfolding parse_on next crc_ok frame_of_bytes
parse bs = parse_on (length bs) bs

-- Some of the bytes have been dealt with, and these are the frames among them.
pub data Yields : List ℕ → List LidarFrame → List ℕ → Type 0 where
  here : {bs : List ℕ} → Yields bs [] bs
  step :
      {bs ys : List ℕ} {gs hs : List LidarFrame} (fs : List LidarFrame) (k : ℕ)
      → next bs ≡ some (fs, k)
      → Yields (drop k bs) gs ys
      → hs ≡ fs ++ gs
      → Yields bs hs ys

-- How the bytes in front are read.
pub next_headed :
    (bs : List ℕ)
    → is_headed bs ≡ true
    → 47 ≤ length bs
    → crc_ok bs ≡ true
    → next bs ≡ some (frame_of_bytes bs ∷ [], 47)
unfolding next
next_headed bs headed long right =
    rw (le→ltb (length bs) 3 (omega arith), headed, le→ltb (length bs) 47 long, right) refl

pub next_wrong :
    (bs : List ℕ)
    → is_headed bs ≡ true
    → 47 ≤ length bs
    → crc_ok bs ≡ false
    → next bs ≡ some ([], 2)
unfolding next
next_wrong bs headed long wrong =
    rw (le→ltb (length bs) 3 (omega arith), headed, le→ltb (length bs) 47 long, wrong) refl

pub next_junk : (bs : List ℕ) → is_headed bs ≡ false → 3 ≤ length bs → next bs ≡ some ([], 1)
unfolding next
next_junk bs headed long = rw (le→ltb (length bs) 3 long, headed) refl

pub next_few : (bs : List ℕ) → length bs < 3 → next bs ≡ none
unfolding next
next_few bs few = rw (lt→ltb (length bs) 3 few) refl

pub headed_long : (bs : List ℕ) → is_headed bs ≡ true → 3 ≤ length bs
headed_long [] e = absurd (ground arith)
headed_long (a ∷ []) e = absurd (ground arith)
headed_long (a ∷ b ∷ []) e = absurd (ground arith)
headed_long (a ∷ b ∷ c ∷ rest) e = omega arith

pub next_waits : (bs : List ℕ) → is_headed bs ≡ true → length bs < 47 → next bs ≡ none
unfolding next
next_waits bs headed short =
    rw (le→ltb (length bs) 3 (headed_long bs headed), headed, lt→ltb (length bs) 47 short) refl

-- What stands in front of a stream.
pub data Front (bs : List ℕ) : Type 0 where
  few : length bs < 3 → Front bs
  waits : is_headed bs ≡ true → length bs < 47 → Front bs
  frame : is_headed bs ≡ true → 47 ≤ length bs → crc_ok bs ≡ true → Front bs
  damaged : is_headed bs ≡ true → 47 ≤ length bs → crc_ok bs ≡ false → Front bs
  junk : is_headed bs ≡ false → 3 ≤ length bs → Front bs

pub front : (bs : List ℕ) → Front bs
front bs = elim (Bool-cases (is_headed bs)) [
  | inl headed ↦ elim (Bool-cases (ltb (length bs) 47)) [
    | inl short ↦ waits headed (ltb→lt _ _ short)
    | inr long ↦ elim (Bool-cases (crc_ok bs)) [
      | inl right ↦ frame headed (ltb→ge _ _ long) right
      | inr wrong ↦ damaged headed (ltb→ge _ _ long) wrong
    ]
  ]
  | inr other ↦ elim (Bool-cases (ltb (length bs) 3)) [
    | inl short ↦ few (ltb→lt _ _ short)
    | inr long ↦ junk other (ltb→ge _ _ long)
  ]
]
