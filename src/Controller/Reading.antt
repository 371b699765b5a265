-- ===== src/Controller/Reading.antt =====
-- What lgv_controller/src/lgv_controller_node.cpp finds in the bytes it reads.
use cqut_lgv.Common.{
  ℕ, zero, suc, ◌+◌, ◌-◌, ◌≤◌, ◌<◌, ◌≡◌, ◌⊎◌, inl, inr, refl, ap, ◌∙◌, Bool-cases, none, some, List,
  [], ◌∷◌, length, drop, copy_into, get_or, arith, ◌==◌, ltb, ltb→lt, ltb→ge, ◌*◌, ==_iff,
  get_elem?-eq-get_or, get_elem?-ge,
}
use cqut_lgv.Common.Int.{ℤ}
use cqut_lgv.Floats.{Floats}
use cqut_lgv.Controller.{Pose, Platform, search, packet_at}
use cqut_lgv.Controller.Packets.{pose_of, byte_at-append}
use cqut_lgv.Controller.Memory.{
  Run, ok, stop, out_of_bounds, ◌>>=◌, byte_at, int16_at, bits32_at, signed16,
}

-- The header stands at `j`.
abbrev pub IsHeader : List ℕ → ℕ → Type 0
IsHeader buf j = (get_or buf j 0 ≡ 0xFF) × (get_or buf (j + 1) 0 ≡ 0xFF)

pub byte_at-get_or : (buf : List ℕ) (i : ℕ) → i < length buf → byte_at buf i ≡ ok (get_or buf i 0)
byte_at-get_or buf i h =
    ap (λ o. elim o [ none ↦ stop out_of_bounds | some b ↦ ok b ]) (get_elem?-eq-get_or buf i 0 h)

byte_at-ge : (buf : List ℕ) (i : ℕ) → length buf ≤ i → byte_at buf i ≡ stop out_of_bounds
byte_at-ge buf i h =
    ap (λ o. elim o [ none ↦ stop out_of_bounds | some b ↦ ok b ]) (get_elem?-ge buf i h)

-- A round of the search.
pub search_found_step :
    (n i : ℕ) (buf : List ℕ)
    → suc i < length buf
    → IsHeader buf i
    → search (suc n) i buf ≡ ok (some i)
unfolding search
search_found_step n i buf room (e, e') =
    rw (byte_at-get_or buf i (omega arith), byte_at-get_or buf (i + 1) (omega arith), e)
      (rw e' refl)

search_next_step :
    (n i : ℕ) (buf : List ℕ)
    → suc i < length buf
    → ¬ IsHeader buf i
    → search (suc n) i buf ≡ search n (suc i) buf
unfolding search
search_next_step n i buf room missing =
    rw (byte_at-get_or buf i (omega arith), byte_at-get_or buf (i + 1) (omega arith))
      (elim (Bool-cases (get_or buf i 0 == 0xFF)) [
        | inr other ↦ rw other refl
        | inl first ↦ rw first (elim (Bool-cases (get_or buf (i + 1) 0 == 0xFF)) [
          | inr other ↦ rw other refl
          | inl second ↦ absurd (missing (ground arith))
        ])
      ])

-- The search comes to `k` if no header stands before.
pub search_reaches :
    (n i k : ℕ) (buf : List ℕ)
    → i ≤ k
    → k < i + n
    → k < length buf
    → ((j : ℕ) → j < k → ¬ IsHeader buf j)
    → (m : ℕ) × (search n i buf ≡ search (suc m) k buf)
search_reaches zero i k buf le lt room before = absurd (omega arith)
search_reaches (suc n) i k buf le lt room before = elim (Bool-cases (i == k)) [
  | inl same ↦ let e : i ≡ k = (==_iff i k).0 same in (n, ap (λ m. search (suc n) m buf) e)
  | inr other ↦
      let less : i < k = ground arith in
      let (m, e) = search_reaches n (suc i) k buf less (omega arith) room before in
      (m, search_next_step n i buf (omega arith) (before i less) ∙ e)
]

-- A header, or a first half of one at the end of the array, stops the search.
pub search_last_step :
    (n k : ℕ) (buf : List ℕ)
    → suc k ≡ length buf
    → get_or buf k 0 ≡ 0xFF
    → search (suc n) k buf ≡ stop out_of_bounds
unfolding search
search_last_step n k buf end e =
    rw (byte_at-get_or buf k (omega arith), e, byte_at-ge buf (k + 1) (omega arith)) refl

-- What is read, or an access outside the array.
abbrev pub Reads : {A : Type 0} → Run A → Type 0
Reads {A} m = ((a : A) × (m ≡ ok a)) ⊎ (m ≡ stop out_of_bounds)

bind_Reads :
    {A B : Type 0} (m : Run A) (f : A → Run B) → Reads m → ((a : A) → Reads (f a)) → Reads (m >>= f)
bind_Reads m f (inl (a, e)) h = rw e (h a)
bind_Reads m f (inr e) h = rw e (inr refl)

bind_stop :
    {A B : Type 0} (m : Run A) (f : A → Run B)
    → Reads m
    → ((a : A) → f a ≡ stop out_of_bounds)
    → (m >>= f) ≡ stop out_of_bounds
bind_stop m f (inl (a, e)) h = rw e (h a)
bind_stop m f (inr e) h = rw e refl

byte_at-Reads : (buf : List ℕ) (i : ℕ) → Reads (byte_at buf i)
byte_at-Reads buf i = elim (Bool-cases (ltb i (length buf))) [
  | inl inside ↦ inl (get_or buf i 0, byte_at-get_or buf i (ltb→lt _ _ inside))
  | inr outside ↦ inr (byte_at-ge buf i (ltb→ge _ _ outside))
]

int16_at-Reads : (buf : List ℕ) (i : ℕ) → Reads (int16_at buf i)
int16_at-Reads buf i =
    bind_Reads (byte_at buf i) _ (byte_at-Reads buf i)
      (λ lo. bind_Reads (byte_at buf (i + 1)) _ (byte_at-Reads buf (i + 1)) (λ hi. inl (_, refl)))

-- A float is read whole or not at all.
pub bits32_at-Reads : (buf : List ℕ) (i : ℕ) → Reads (bits32_at buf i)
bits32_at-Reads buf i = bind_Reads (byte_at buf i) _ (byte_at-Reads buf i) (λ b0.
    bind_Reads (byte_at buf (i + 1)) _ (byte_at-Reads buf (i + 1)) (λ b1.
      bind_Reads (byte_at buf (i + 2)) _ (byte_at-Reads buf (i + 2)) (λ b2.
        bind_Reads (byte_at buf (i + 3)) _ (byte_at-Reads buf (i + 3)) (λ b3. inl (_, refl)))))

bits32_at_outside :
    (buf : List ℕ) (i : ℕ) → length buf ≤ i + 3 → bits32_at buf i ≡ stop out_of_bounds
bits32_at_outside buf i h = bind_stop (byte_at buf i) _ (byte_at-Reads buf i) (λ b0.
    bind_stop (byte_at buf (i + 1)) _ (byte_at-Reads buf (i + 1)) (λ b1.
      bind_stop (byte_at buf (i + 2)) _ (byte_at-Reads buf (i + 2)) (λ b2.
        ap (λ m. m >>= λ b3. ok (b0 + 256 * (b1 + 256 * (b2 + 256 * b3))))
          (byte_at-ge buf (i + 3) h))))

pub int16_at_inside :
    (buf : List ℕ) (i : ℕ) → i + 1 < length buf → (z : ℤ) × (int16_at buf i ≡ ok z)
int16_at_inside buf i h = (
  signed16 (get_or buf i 0 + 256 * get_or buf (i + 1) 0),
  rw (byte_at-get_or buf i (omega arith), byte_at-get_or buf (i + 1) h) refl,
)

byte_at-drop : (m k i : ℕ) (xs : List ℕ) → k ≡ m + i → byte_at (drop m xs) i ≡ byte_at xs k
byte_at-drop zero k i xs e = ap (byte_at xs) (omega arith)
byte_at-drop (suc m) k i [] e = refl
byte_at-drop (suc m) zero i (x ∷ xs) e = absurd (omega arith)
byte_at-drop (suc m) (suc k) i (x ∷ xs) e = byte_at-drop m k i xs (omega arith)

-- Behind what is copied to its front an array is as before.
byte_at-copy_into :
    (dst src : List ℕ) (j : ℕ) → length src ≤ j → byte_at (copy_into dst 0 src) j ≡ byte_at dst j
byte_at-copy_into dst src j h =
    byte_at-append src (drop (0 + length src) dst) j (j - length src) (omega arith)
    ∙ byte_at-drop (0 + length src) j (j - length src) dst (omega arith)

pub bits32_at-copy_into :
    (dst src : List ℕ) (i : ℕ)
    → length src ≤ i
    → bits32_at (copy_into dst 0 src) i ≡ bits32_at dst i
bits32_at-copy_into dst src i h =
    rw
      (
        byte_at-copy_into dst src i h,
        byte_at-copy_into dst src (i + 1) (omega arith),
        byte_at-copy_into dst src (i + 2) (omega arith),
        byte_at-copy_into dst src (i + 3) (omega arith),
      )
      refl

module _ {W T Q F D : Type 0} ⦃fl : Floats F D⦄ (p : Platform W T Q F D) where
  pub packet_at_outside :
      (buf : List ℕ) (i : ℕ) → length buf < i + 20 → packet_at p buf i ≡ stop out_of_bounds
  unfolding packet_at
  packet_at_outside buf i h = bind_stop (int16_at buf (i + 2)) _ (int16_at-Reads buf (i + 2)) (λ vx.
      bind_stop (int16_at buf (i + 4)) _ (int16_at-Reads buf (i + 4)) (λ vy.
        bind_stop (int16_at buf (i + 6)) _ (int16_at-Reads buf (i + 6)) (λ vw.
          bind_stop (bits32_at buf (i + 8)) _ (bits32_at-Reads buf (i + 8)) (λ x.
            bind_stop (bits32_at buf (i + 12)) _ (bits32_at-Reads buf (i + 12)) (λ y.
              ap (λ m. m >>= λ w. ok (pose_at vx vy vw x y w))
                (bits32_at_outside buf (i + 16) (omega arith)))))))
    where
      pose_at : ℤ → ℤ → ℤ → ℕ → ℕ → ℕ → Pose F
      pose_at vx vy vw x y w = pose_of p (record { vx = vx; vy = vy; vw = vw; x = x; y = y; w = w })
