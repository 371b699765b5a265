-- ===== src/Reader/Stream/Split.antt =====
-- Where a read cuts a stream of frames (oradar_ros/sdk/src/ord_lidar_driver.cpp).
use cqut_lgv.Common.{
  ℕ, ◌≤◌, ◌<◌, ◌≡◌, refl, sym, ap, ◌∙◌, inl, inr, List, [], ◌∷◌, ◌++◌, arith, ltb, ltb→lt, ltb→ge,
  Bool-cases, length, take, drop, length-append, take-append-drop, take-append_le, drop-append_le,
  take-append_all, All,
}
use cqut_lgv.Floats.{Floats}
use cqut_lgv.Protocol.{LidarFrame}
use cqut_lgv.Protocol.Layout.{frame_bytes, length-frame_bytes}
use cqut_lgv.Reader.{Reader}
use cqut_lgv.Reader.Stream.{IsSent, frames_bytes, frame_bytes-append, drop-sent, run_frames}
use cqut_lgv.Reader.Stream.Buffered.{with_buf}

-- A cut of a stream of frames: whole frames with the start of another one, and the rest of the stream.
pub record Cut (fs : List LidarFrame) (buf tail : List ℕ) : Type 0 where
  pub before : List LidarFrame
  pub after : List LidarFrame
  pub rest : List ℕ
  pub frames : fs ≡ before ++ after
  pub buffered : buf ≡ frames_bytes before rest
  pub left : rest ++ tail ≡ frames_bytes after []
  pub short : length rest < 47

-- The bytes of a stream that have been read make such a cut, wherever the read ends.
pub Cut-frames :
    (fs : List LidarFrame) (buf tail : List ℕ)
    → All IsSent fs
    → buf ++ tail ≡ frames_bytes fs []
    → Cut fs buf tail
Cut-frames [] buf tail sent e = record {
  before = [];
  after = [];
  rest = buf;
  frames = refl;
  buffered = refl;
  left = e;
  short = omega (arith, ap length e, length-append buf tail);
}
Cut-frames (f ∷ fs) buf tail sent e = elim (Bool-cases (ltb (length buf) 47)) [
  | inl few ↦ record {
    before = [];
    after = f ∷ fs;
    rest = buf;
    frames = refl;
    buffered = refl;
    left = e;
    short = ltb→lt _ _ few;
  }
  | inr enough ↦
      let long : 47 ≤ length buf = ltb→ge _ _ enough in
      let first : take 47 buf ≡ frame_bytes f [] =
        sym (take-append_le buf tail 47 long)
        ∙ (ap (take 47) (e ∙ frame_bytes-append f (frames_bytes fs []))
            ∙ take-append_all (frame_bytes f []) (frames_bytes fs []) 47
                (omega (arith, length-frame_bytes f [] sent.0.points))) in
      let others : drop 47 buf ++ tail ≡ frames_bytes fs [] =
        sym (drop-append_le buf tail 47 long)
        ∙ (ap (drop 47) e ∙ drop-sent f sent.0 (frames_bytes fs [])) in
      let cut = Cut-frames fs (drop 47 buf) tail sent.1 others in
      record {
        before = f ∷ cut.before;
        after = cut.after;
        rest = cut.rest;
        frames = ap (◌∷◌ f) cut.frames;
        buffered =
            sym (take-append-drop 47 buf)
            ∙ (ap (λ bs. bs ++ drop 47 buf) first
                ∙ (ap (◌++◌ (frame_bytes f [])) cut.buffered
                    ∙ sym (frame_bytes-append f (frames_bytes cut.before cut.rest))));
        left = cut.left;
        short = cut.short;
      }
]

pub All-cut {ℓ} :
    {A : Type ℓ} (P : A → Type 0) (xs ys : List A) → All P (xs ++ ys) → All P xs × All P ys
All-cut P [] ys h = (tt, h)
All-cut P (x ∷ xs) ys h = let (hx, hy) = All-cut P xs ys h.1 in ((h.0, hx), hy)

module _ {F D : Type 0} ⦃fl : Floats F D⦄ where
  pub run_frames-append :
      (fs gs : List LidarFrame) (r : Reader F D)
      → run_frames (fs ++ gs) r ≡ run_frames gs (run_frames fs r)
  run_frames-append [] gs r = refl
  run_frames-append (f ∷ fs) gs r = run_frames-append fs gs _

  -- The bytes that wait have no part in what the frames do.
  pub run_frames-with_buf :
      (fs : List LidarFrame) (b b' : List ℕ) (r : Reader F D)
      → with_buf b' (run_frames fs (with_buf b r)) ≡ with_buf b' (run_frames fs r)
  run_frames-with_buf [] b b' r = refl
  run_frames-with_buf (f ∷ fs) b b' r = refl
