-- ===== src/Filter/Base.antt =====
-- What the filters of oradar_ros/sdk/src/filters/FullScanFilter.cpp share: the parameters, the test
-- of the range, and the loop that writes distances.
use cqut_lgv.Common.{
  ℕ, zero, suc, ◌+◌, ◌≤◌, ◌<◌, ◌≡◌, ◌≢◌, ◌⊎◌, inl, inr, refl, ap, ◌∙◌, Bool, ◌&&◌, Option, none,
  some, List, [], ◌∷◌, arith, ltb, ltb→lt, ltb→ge, ◌>>=◌, Bool-cases, Option-cases, length, get_or,
}
use cqut_lgv.Common.Int.{ℤ, pos, leb_ℤ}
use cqut_lgv.Protocol.{Point}

-- `FilterPara`
pub record FilterPara : Type 0 where
  pub filter_type : ℤ
  pub max_range : ℤ
  pub min_range : ℤ
  pub sigma_d : ℤ
  pub sigma_r : ℤ
  pub intesntiy_filter_range : ℤ
  pub weak_intensity_th : ℤ
  pub rotation : ℤ
  pub level : ℤ

-- The defaults of `FilterPara`.
abbrev pub default_para : FilterPara
default_para = record {
  filter_type = pos 0;
  max_range = pos 150;
  min_range = pos 0;
  sigma_d = pos 5;
  sigma_r = pos 3;
  intesntiy_filter_range = pos 70;
  weak_intensity_th = pos 31;
  rotation = pos 10;
  level = pos 0;
}

-- `isValidRange`: the distance is converted to `int`.
unfoldable pub is_valid_range : FilterPara → ℕ → Bool
is_valid_range para_inf current_data =
    leb_ℤ para_inf.min_range (pos current_data) && leb_ℤ (pos current_data) para_inf.max_range

module _ {F : Type 0} where
  -- `out.data[i].distance = d`
  abbrev pub set_distance : List (Point F) → ℕ → ℕ → List (Point F)
  set_distance [] i d = []
  set_distance (p ∷ ps) zero d = record p { distance = d } ∷ ps
  set_distance (p ∷ ps) (suc i) d = p ∷ set_distance ps i d

  -- A distance that is written, or none.
  abbrev pub write_distance : Option ℕ → List (Point F) → ℕ → List (Point F)
  write_distance none out i = out
  write_distance (some d) out i = set_distance out i d

  abbrev pub replaced : Option ℕ → Point F → Point F
  replaced none p = p
  replaced (some d) p = record p { distance = d }

  -- for (i = first; i < first + rounds; i++): `f i` is what the round `i` writes to `out.data[i]`. What
  -- is written depends on the input alone, which the loop does not change.
  unfoldable pub for_points : (ℕ → Option ℕ) → ℕ → ℕ → List (Point F) → List (Point F)
  for_points f zero i out = out
  for_points f (suc rounds) i out = for_points f rounds (suc i) (write_distance (f i) out i)

  length-set_distance : (ps : List (Point F)) (i d : ℕ) → length (set_distance ps i d) ≡ length ps
  length-set_distance [] i d = refl
  length-set_distance (p ∷ ps) zero d = refl
  length-set_distance (p ∷ ps) (suc i) d = ap suc (length-set_distance ps i d)

  length-write_distance :
      (w : Option ℕ) (ps : List (Point F)) (i : ℕ) → length (write_distance w ps i) ≡ length ps
  length-write_distance none ps i = refl
  length-write_distance (some d) ps i = length-set_distance ps i d

  pub length-for_points :
      (f : ℕ → Option ℕ) (rounds i : ℕ) (out : List (Point F))
      → length (for_points f rounds i out) ≡ length out
  unfolding for_points
  length-for_points f zero i out = refl
  length-for_points f (suc rounds) i out =
      length-for_points f rounds (suc i) (write_distance (f i) out i)
      ∙ length-write_distance (f i) out i

  write_distance_self :
      (w : Option ℕ) (ps : List (Point F)) (i : ℕ) (p : Point F)
      → i < length ps
      → get_or (write_distance w ps i) i p ≡ replaced w (get_or ps i p)
  write_distance_self none ps i p h = refl
  write_distance_self (some d) [] i p h = absurd (omega arith)
  write_distance_self (some d) (q ∷ ps) zero p h = refl
  write_distance_self (some d) (q ∷ ps) (suc i) p h =
      write_distance_self (some d) ps i p (omega arith)

  write_distance_ne :
      (w : Option ℕ) (ps : List (Point F)) (i k : ℕ) (p : Point F)
      → i ≢ k
      → get_or (write_distance w ps i) k p ≡ get_or ps k p
  write_distance_ne none ps i k p h = refl
  write_distance_ne (some d) [] i k p h = refl
  write_distance_ne (some d) (q ∷ ps) zero zero p h = absurd (h refl)
  write_distance_ne (some d) (q ∷ ps) zero (suc k) p h = refl
  write_distance_ne (some d) (q ∷ ps) (suc i) zero p h = refl
  write_distance_ne (some d) (q ∷ ps) (suc i) (suc k) p h =
      write_distance_ne (some d) ps i k p (λ e. h (ap suc e))

  -- Outside its range the loop leaves a point alone.
  pub for_points_outside :
      (f : ℕ → Option ℕ) (rounds i : ℕ) (out : List (Point F)) (k : ℕ) (p : Point F)
      → (k < i) ⊎ (i + rounds ≤ k)
      → get_or (for_points f rounds i out) k p ≡ get_or out k p
  unfolding for_points
  for_points_outside f zero i out k p h = refl
  for_points_outside f (suc rounds) i out k p h =
      for_points_outside f rounds (suc i) (write_distance (f i) out i) k p (omega arith)
      ∙ write_distance_ne (f i) out i k p (omega arith)

  -- Inside it, the point has the distance that its round writes.
  pub for_points_inside :
      (f : ℕ → Option ℕ) (rounds i : ℕ) (out : List (Point F)) (k : ℕ) (p : Point F)
      → i ≤ k
      → k < i + rounds
      → k < length out
      → get_or (for_points f rounds i out) k p ≡ replaced (f k) (get_or out k p)
  unfolding for_points
  for_points_inside f zero i out k p lo hi h = absurd (omega arith)
  for_points_inside f (suc rounds) i out k p lo hi h = elim (Bool-cases (ltb i k)) [
    | inl lt ↦
        for_points_inside f rounds (suc i) (write_distance (f i) out i) k p (ltb→lt _ _ lt)
          (omega arith) (omega (arith, length-write_distance (f i) out i))
        ∙ ap (replaced (f k)) (write_distance_ne (f i) out i k p (omega (arith, ltb→lt _ _ lt)))
    | inr ge ↦
        let e : i ≡ k = omega (arith, ltb→ge _ _ ge) in
        for_points_outside f rounds (suc i) (write_distance (f i) out i) k p (inl (omega arith))
        ∙ rw e (write_distance_self (f k) out k p h)
  ]

  -- A loop that writes nothing changes nothing.
  pub for_points_idle :
      (f : ℕ → Option ℕ) (rounds i : ℕ) (out : List (Point F))
      → ((k : ℕ) → f k ≡ none)
      → for_points f rounds i out ≡ out
  unfolding for_points
  for_points_idle f zero i out h = refl
  for_points_idle f (suc rounds) i out h =
      ap (λ w. for_points f rounds (suc i) (write_distance w out i)) (h i)
      ∙ for_points_idle f rounds (suc i) out h

  -- The same loop where a round may fault, `none`: `some none` writes nothing.
  unfoldable pub try_points :
      (ℕ → Option (Option ℕ)) → ℕ → ℕ → List (Point F) → Option (List (Point F))
  try_points f zero i out = some out
  try_points f (suc rounds) i out =
      f i >>= λ w. try_points f rounds (suc i) (write_distance w out i)

  -- A round that faults makes the loop fault.
  pub try_points_fault :
      (f : ℕ → Option (Option ℕ)) (rounds i : ℕ) (out : List (Point F)) (k : ℕ)
      → i ≤ k
      → k < i + rounds
      → f k ≡ none
      → try_points f rounds i out ≡ none
  unfolding try_points
  try_points_fault f zero i out k lo hi e = absurd (omega arith)
  try_points_fault f (suc rounds) i out k lo hi e = elim (Bool-cases (ltb i k)) [
    | inr ge ↦ let i_eq : i ≡ k = omega (arith, ltb→ge _ _ ge) in rw (ap f i_eq ∙ e)
    | inl lt ↦ elim (Option-cases (f i)) [
      | inl fault ↦ rw fault
      | inr (w, e') ↦ rw e' (
          try_points_fault f rounds (suc i) (write_distance w out i) k (ltb→lt _ _ lt) (omega arith)
            e)
    ]
  ]

  -- If no round faults, the loop gives a result.
  pub try_points_defined :
      (f : ℕ → Option (Option ℕ)) (rounds i : ℕ) (out : List (Point F))
      → ((k : ℕ) → i ≤ k → k < i + rounds → f k ≢ none)
      → try_points f rounds i out ≢ none
  unfolding try_points
  try_points_defined f zero i out h e = ground arith
  try_points_defined f (suc rounds) i out h e = elim (Option-cases (f i)) [
    | inl fault ↦ h i (omega arith) (omega arith) fault
    | inr (w, e') ↦
        try_points_defined f rounds (suc i) (write_distance w out i)
          (λ k lo hi. h k (omega arith) (omega arith)) (rw e' at e)
  ]
