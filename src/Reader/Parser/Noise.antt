-- ===== src/Reader/Parser/Noise.antt =====
-- The parser of a stream (oradar_ros/sdk/src/ord_lidar_driver.cpp) on right frames among damaged ones and other
-- bytes.
use cqut_lgv.Common.{
  ℕ, ◌≡◌, refl, sym, ap, ap₂, subst, ◌∙◌, true, List, [], ◌∷◌, ◌++◌, some, ◌%◌, drop-append_le,
  append-nil, arith, length, drop, length-append, drop-append_add,
}
use cqut_lgv.Protocol.{LidarFrame}
use cqut_lgv.Protocol.Layout.{frame_bytes, frame_of_bytes-frame_bytes, length-frame_bytes}
use cqut_lgv.Reader.Loop.{find_header}
use cqut_lgv.Reader.Resync.{NoHeader, find_header-NoHeader}
use cqut_lgv.Reader.Recover.{IsDamaged}
use cqut_lgv.Reader.Stream.{IsSent, crc_ok-sent, drop-sent}
use cqut_lgv.Reader.Parser.{is_headed, parse, Yields, here, step, next_headed, next_wrong}
use cqut_lgv.Reader.Parser.Laws.{crc_ok-append, Yields-trans, parse-Yields}
use cqut_lgv.Reader.Parser.Search.{find_header-Found}

-- What a stream is made of.
pub data Item : Type 0 where
  sent : LidarFrame → Item
  damaged : List ℕ → Item
  noise : List ℕ → Item

abbrev pub item_bytes : List Item → List ℕ
item_bytes [] = []
item_bytes (sent f ∷ items) = frame_bytes f (item_bytes items)
item_bytes (damaged bad ∷ items) = bad ++ item_bytes items
item_bytes (noise junk ∷ items) = junk ++ item_bytes items

abbrev pub sent_frames : List Item → List LidarFrame
sent_frames [] = []
sent_frames (sent f ∷ items) = f ∷ sent_frames items
sent_frames (damaged bad ∷ items) = sent_frames items
sent_frames (noise junk ∷ items) = sent_frames items

-- A header comes next.
abbrev pub Starts : List Item → Type 0
Starts [] = ⊥
Starts (sent f ∷ items) = Unit
Starts (damaged bad ∷ items) = Unit
Starts (noise junk ∷ items) = ⊥

-- Right frames, damaged ones, and bytes without a header; damaged frames and other bytes have a right or
-- a damaged frame behind them.
abbrev pub IsNoisy : List Item → Type 0
IsNoisy [] = Unit
IsNoisy (sent f ∷ items) = IsSent f × IsNoisy items
IsNoisy (damaged bad ∷ items) = IsDamaged bad × Starts items × IsNoisy items
IsNoisy (noise junk ∷ items) = NoHeader junk × Starts items × IsNoisy items

-- Bytes with the header in front.
record Header (bs : List ℕ) : Type 0 where
  third : ℕ
  others : List ℕ
  shape : bs ≡ 0x54 ∷ 0x2C ∷ third ∷ others

frame_bytes-Header : (f : LidarFrame) (rest : List ℕ) → IsSent f → Header (frame_bytes f rest)
unfolding frame_bytes
frame_bytes-Header f rest s = record {
  third = f.speed % 256;
  others = drop 3 (frame_bytes f rest);
  shape = ap₂ (λ a b. a ∷ b ∷ drop 2 (frame_bytes f rest)) s.header s.ver_len;
}

IsDamaged-Header : (bad rest : List ℕ) → IsDamaged bad → Header (bad ++ rest)
IsDamaged-Header [] rest d = absurd (omega (arith, d.long))
IsDamaged-Header (a ∷ []) rest d = absurd (omega (arith, d.long))
IsDamaged-Header (a ∷ b ∷ []) rest d = absurd (omega (arith, d.long))
IsDamaged-Header (a ∷ b ∷ c ∷ junk) rest d =
    let a_eq : a ≡ 0x54 = cc d.header in
    let b_eq : b ≡ 0x2C = cc d.header in
    record {
      third = c;
      others = junk ++ rest;
      shape = ap₂ (λ x y. x ∷ y ∷ c ∷ (junk ++ rest)) a_eq b_eq;
    }

items-Header : (items : List Item) → Starts items → IsNoisy items → Header (item_bytes items)
items-Header [] starts noisy = absurd starts
items-Header (sent f ∷ items) starts noisy = frame_bytes-Header f (item_bytes items) noisy.0
items-Header (damaged bad ∷ items) starts noisy = IsDamaged-Header bad (item_bytes items) noisy.0
items-Header (noise junk ∷ items) starts noisy = absurd starts

Header-is_headed : (bs : List ℕ) → Header bs → is_headed bs ≡ true
Header-is_headed bs h = ap is_headed h.shape

-- Bytes without a header are passed over up to the next one.
noise-Yields : (junk bs : List ℕ) → NoHeader junk → Header bs → Yields (junk ++ bs) [] bs
noise-Yields junk bs clean h =
    let f = find_header-Found (junk ++ bs) 0 in
    let end =
      ap (λ b. find_header (junk ++ b) 0) h.shape
      ∙ find_header-NoHeader junk 0 h.third h.others clean in
    let all : f.skipped ≡ length junk = omega (arith, f.position, ap (λ w. w.0) end) in
    subst (Yields (junk ++ bs) [])
      (ap (λ k. drop k (junk ++ bs)) all ∙ drop-append_add junk bs 0 (length junk) (omega arith))
      f.yields

sent-Yields : (f : LidarFrame) (bs : List ℕ) → IsSent f → Yields (frame_bytes f bs) (f ∷ []) bs
sent-Yields f bs s =
    let frame = frame_of_bytes-frame_bytes f bs s.points in
    step (f ∷ []) 47
      (next_headed (frame_bytes f bs)
          (Header-is_headed (frame_bytes f bs) (frame_bytes-Header f bs s))
          (omega (arith, length-frame_bytes f bs s.points)) (crc_ok-sent f s bs)
        ∙ ap (λ g. some (g ∷ [], 47)) frame)
      (subst (λ b. Yields b [] bs) (sym (drop-sent f s bs)) here) refl

damaged-Yields : (bad bs : List ℕ) → IsDamaged bad → Header bs → Yields (bad ++ bs) [] bs
damaged-Yields bad bs d h =
    step [] 2
      (next_wrong (bad ++ bs) (Header-is_headed (bad ++ bs) (IsDamaged-Header bad bs d))
        (omega (arith, length-append bad bs, d.long))
        (crc_ok-append bad bs (omega (arith, d.long)) ∙ d.wrong))
      (subst (λ b. Yields b [] bs) (sym (drop-append_le bad bs 2 (omega (arith, d.long))))
        (noise-Yields (drop 2 bad) bs d.clean h))
      refl

items-Yields :
    (items : List Item) → IsNoisy items → Yields (item_bytes items) (sent_frames items) []
items-Yields [] noisy = here
items-Yields (sent f ∷ items) (s, noisy) =
    Yields-trans (sent-Yields f (item_bytes items) s) (items-Yields items noisy)
items-Yields (damaged bad ∷ items) (d, starts, noisy) =
    Yields-trans (damaged-Yields bad (item_bytes items) d (items-Header items starts noisy))
      (items-Yields items noisy)
items-Yields (noise junk ∷ items) (clean, starts, noisy) =
    Yields-trans (noise-Yields junk (item_bytes items) clean (items-Header items starts noisy))
      (items-Yields items noisy)

-- In a stream of right frames, damaged frames and bytes without a header, each damaged frame and each run
-- of such bytes with a frame behind it, the parser finds the right frames, all of them and in order,
-- and leaves no byte.
pub parse-item_bytes :
    (items : List Item) → IsNoisy items → parse (item_bytes items) ≡ (sent_frames items, [])
unfolding parse
parse-item_bytes items noisy =
    parse-Yields (items-Yields items noisy) ∙ ap (λ fs. (fs, [])) (append-nil (sent_frames items))
