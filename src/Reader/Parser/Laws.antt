-- ===== src/Reader/Parser/Laws.antt =====
-- The parser of a stream (oradar_ros/sdk/src/ord_lidar_driver.cpp) does not depend on where the stream is cut.
use cqut_lgv.Common.{
  ℕ, zero, suc, ◌+◌, ◌-◌, ◌*◌, ◌≤◌, ◌<◌, ◌≡◌, refl, sym, ap, ap₂, ◌∙◌, inl, inr, Option, none, some,
  List, [], ◌∷◌, ◌++◌, arith, ◌==◌, Option-cases, length, drop, length-append, length-drop,
  take-append_le, drop-append_le, get_or-append_lt, append_assoc, subst,
}
use cqut_lgv.Crc.{crc8}
use cqut_lgv.Protocol.{LidarFrame, frame_of_bytes, lidar_points, u16_at}
use cqut_lgv.Reader.Loop.{crc_ok}
use cqut_lgv.Reader.Parser.{
  is_headed, next, parse_on, parse, Yields, here, step, few, waits, frame, damaged, junk, front,
  next_few, next_waits, next_headed, next_wrong, next_junk,
}

-- What `next` deals with is there, and more bytes behind it make no difference.
abbrev Settled : List ℕ → Option (List LidarFrame × ℕ) → Type 0
Settled bs none = Unit
Settled bs (some (fs, k)) =
    (1 ≤ k) × (k ≤ length bs) × ((zs : List ℕ) → next (bs ++ zs) ≡ some (fs, k))

pub is_headed-append : (bs zs : List ℕ) → 3 ≤ length bs → is_headed (bs ++ zs) ≡ is_headed bs
is_headed-append [] zs long = absurd (omega arith)
is_headed-append (a ∷ []) zs long = absurd (omega arith)
is_headed-append (a ∷ b ∷ []) zs long = absurd (omega arith)
is_headed-append (a ∷ b ∷ c ∷ rest) zs long = refl

u16_at-append : (bs zs : List ℕ) (i : ℕ) → i + 1 < length bs → u16_at (bs ++ zs) i ≡ u16_at bs i
u16_at-append bs zs i h =
    ap₂ (λ x y. x + 256 * y) (get_or-append_lt bs zs i 0 (omega arith))
      (get_or-append_lt bs zs (i + 1) 0 h)

lidar_points-append :
    (n : ℕ) (bs zs : List ℕ) → 3 * n ≤ length bs → lidar_points n (bs ++ zs) ≡ lidar_points n bs
unfolding lidar_points
lidar_points-append zero bs zs h = refl
lidar_points-append (suc n) bs zs h =
    ap₂ (◌∷◌)
      (ap₂ (λ x y. record { distance = x; confidence = y }) (u16_at-append bs zs 0 (omega arith))
        (get_or-append_lt bs zs 2 0 (omega arith)))
      (ap (lidar_points n) (drop-append_le bs zs 3 (omega arith))
        ∙ lidar_points-append n (drop 3 bs) zs (omega (arith, length-drop 3 bs)))

frame_of_bytes-append :
    (bs zs : List ℕ) → 47 ≤ length bs → frame_of_bytes (bs ++ zs) ≡ frame_of_bytes bs
unfolding frame_of_bytes
frame_of_bytes-append bs zs long =
    rw
      (
        get_or-append_lt bs zs 0 0 (omega arith),
        get_or-append_lt bs zs 1 0 (omega arith),
        u16_at-append bs zs 2 (omega arith),
        u16_at-append bs zs 4 (omega arith),
        drop-append_le bs zs 6 (omega arith),
        lidar_points-append 12 (drop 6 bs) zs (omega (arith, length-drop 6 bs)),
        u16_at-append bs zs 42 (omega arith),
        u16_at-append bs zs 44 (omega arith),
        get_or-append_lt bs zs 46 0 (omega arith),
      )
      refl

-- The checksum test looks at the first 47 bytes only.
pub crc_ok-append : (bs zs : List ℕ) → 47 ≤ length bs → crc_ok (bs ++ zs) ≡ crc_ok bs
unfolding crc_ok frame_of_bytes
crc_ok-append bs zs long =
    ap₂ (λ xs c. crc8 xs == c) (take-append_le bs zs 46 (omega arith))
      (get_or-append_lt bs zs 46 0 (omega arith))

next-Settled : (bs : List ℕ) → Settled bs (next bs)
next-Settled bs = elim (front bs) [
  | few short ↦ rw (next_few bs short) tt
  | waits headed short ↦ rw (next_waits bs headed short) tt
  | frame headed long right ↦ rw (next_headed bs headed long right) (
    omega arith,
    long,
    λ zs.
        next_headed (bs ++ zs) (is_headed-append bs zs (omega arith) ∙ headed)
          (omega (arith, length-append bs zs)) (crc_ok-append bs zs long ∙ right)
        ∙ ap (λ f. some (f ∷ [], 47)) (frame_of_bytes-append bs zs long),
  )
  | damaged headed long wrong ↦ rw (next_wrong bs headed long wrong) (
    omega arith,
    omega arith,
    λ zs.
        next_wrong (bs ++ zs) (is_headed-append bs zs (omega arith) ∙ headed)
          (omega (arith, length-append bs zs)) (crc_ok-append bs zs long ∙ wrong),
  )
  | junk other long ↦ rw (next_junk bs other long) (
    omega arith,
    omega arith,
    λ zs.
        next_junk (bs ++ zs) (is_headed-append bs zs long ∙ other)
          (omega (arith, length-append bs zs)),
  )
]

settled :
    (bs : List ℕ) (fs : List LidarFrame) (k : ℕ)
    → next bs ≡ some (fs, k)
    → Settled bs (some (fs, k))
settled bs fs k e = subst (Settled bs) e (next-Settled bs)

-- Bytes that come later do not change what has been found.
pub Yields-append :
    {bs ys : List ℕ} {gs : List LidarFrame} (zs : List ℕ)
    → Yields bs gs ys
    → Yields (bs ++ zs) gs (ys ++ zs)
Yields-append zs here = here
Yields-append {bs = bs} {ys = ys} zs (step {gs = gs} fs k e rest same) =
    let (pos, fits, more) = settled bs fs k e in
    step fs k (more zs)
      (subst (λ b. Yields b gs (ys ++ zs)) (sym (drop-append_le bs zs k fits))
        (Yields-append zs rest))
      same

pub Yields-trans :
    {xs ys zs : List ℕ} {gs hs : List LidarFrame}
    → Yields xs gs ys
    → Yields ys hs zs
    → Yields xs (gs ++ hs) zs
Yields-trans here later = later
Yields-trans {hs = hs} (step {gs = gs} fs k e rest same) later =
    step fs k e (Yields-trans rest later) (ap (λ l. l ++ hs) same ∙ append_assoc fs gs hs)

parse_on-next :
    (n : ℕ) (bs : List ℕ) (fs : List LidarFrame) (k : ℕ)
    → next bs ≡ some (fs, k)
    → parse_on (suc n) bs ≡ (fs ++ (parse_on n (drop k bs)).0, (parse_on n (drop k bs)).1)
unfolding parse_on
parse_on-next n bs fs k e =
    ap
      (λ o. elim o [
        | none ↦ ([], bs)
        | some (fs', k') ↦ (fs' ++ (parse_on n (drop k' bs)).0, (parse_on n (drop k' bs)).1)
      ])
      e

parse_on-none : (n : ℕ) (bs : List ℕ) → next bs ≡ none → parse_on n bs ≡ ([], bs)
unfolding parse_on
parse_on-none zero bs e = refl
parse_on-none (suc n) bs e =
    ap
      (λ o. elim o [
        | none ↦ ([], bs)
        | some (fs', k') ↦ (fs' ++ (parse_on n (drop k' bs)).0, (parse_on n (drop k' bs)).1)
      ])
      e

-- Fuel for each byte is enough.
parse_on_enough :
    (n m : ℕ) (bs : List ℕ) → length bs ≤ n → length bs ≤ m → parse_on n bs ≡ parse_on m bs
parse_on_enough zero m bs hn hm =
    let few_left = next_few bs (omega arith) in
    parse_on-none zero bs few_left ∙ sym (parse_on-none m bs few_left)
parse_on_enough (suc n) zero bs hn hm =
    let few_left = next_few bs (omega arith) in
    parse_on-none (suc n) bs few_left ∙ sym (parse_on-none zero bs few_left)
parse_on_enough (suc n) (suc m) bs hn hm = elim (Option-cases (next bs)) [
  | inl not_yet ↦ parse_on-none (suc n) bs not_yet ∙ sym (parse_on-none (suc m) bs not_yet)
  | inr ((fs, k), e) ↦
      let (pos, fits, more) = settled bs fs k e in
      let len = length-drop k bs in
      parse_on-next n bs fs k e
      ∙ (ap (λ p. (fs ++ p.0, p.1))
            (parse_on_enough n m (drop k bs) (omega (arith, len)) (omega (arith, len)))
          ∙ sym (parse_on-next m bs fs k e))
]

parse-next :
    (bs : List ℕ) (fs : List LidarFrame) (k : ℕ)
    → next bs ≡ some (fs, k)
    → parse bs ≡ (fs ++ (parse (drop k bs)).0, (parse (drop k bs)).1)
unfolding parse
parse-next bs fs k e =
    let (pos, fits, more) = settled bs fs k e in
    let n = length bs - 1 in
    let len = length-drop k bs in
    ap (λ m. parse_on m bs) (let long : length bs ≡ suc n = omega arith in long)
    ∙ (parse_on-next n bs fs k e
        ∙ ap (λ p. (fs ++ p.0, p.1))
            (parse_on_enough n (length (drop k bs)) (drop k bs) (omega (arith, len))
              (omega (arith, len))))

-- What has been found is what `parse` finds first, and it goes on from there.
pub parse-Yields :
    {bs ys : List ℕ} {gs : List LidarFrame}
    → Yields bs gs ys
    → parse bs ≡ (gs ++ (parse ys).0, (parse ys).1)
parse-Yields here = refl
parse-Yields {bs = bs} (step {ys = ys} {gs = gs} fs k e rest same) =
    parse-next bs fs k e
    ∙ (ap (λ p. (fs ++ p.0, p.1)) (parse-Yields rest)
        ∙ (ap (λ l. (l, (parse ys).1)) (sym (append_assoc fs gs (parse ys).0))
            ∙ ap (λ l. (l ++ (parse ys).0, (parse ys).1)) (sym same)))
