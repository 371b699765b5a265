-- ===== src/Driver/Reached.antt =====
-- The speed that `SetRotationSpeed` of oradar_ros/sdk/src/ord_lidar_driver.cpp brings the lidar to, in
-- numbers.
use cqut_lgv.Common.{
  ℕ, ◌≤◌, ◌<◌, ◌≡◌, ◌⊎◌, refl, inl, inr, Bool, Bool-cases, true, some, ltb, ◌&&◌, arith,
}
use cqut_lgv.Common.Int.{ℤ, pos, negsuc}
use cqut_lgv.Floats.{Floats}
use cqut_lgv.Driver.{System}
use cqut_lgv.Driver.Device.{ChannelDevice}
use cqut_lgv.Driver.Commands.{set_rotation_speed, is_near_speed, clamp_speed}
use cqut_lgv.Driver.Activation.{IsMeasuring, set_rotation_speed-clamp_speed}

-- The speed that is aimed at for a speed that is asked for.
abbrev pub IsTarget : ℤ → ℕ → Type 0
IsTarget (negsuc n) target = target ≡ 5
IsTarget (pos n) target =
    ((n < 5) × (target ≡ 5)) ⊎ (((5 ≤ n) × (n ≤ 15) × (target ≡ n)) ⊎ ((15 < n) × (target ≡ 15)))

clamp_speed-IsTarget : (speed : ℤ) → IsTarget speed (clamp_speed speed)
unfolding clamp_speed
clamp_speed-IsTarget (negsuc n) = refl
clamp_speed-IsTarget (pos n) = elim (Bool-cases (ltb n 5)) [
  | inl low ↦ inl (ground arith, rw low refl)
  | inr enough ↦ elim (Bool-cases (ltb 15 n)) [
    | inl high ↦ inr (inr (ground arith, rw (enough, high) refl))
    | inr fits ↦ inr (inl (ground arith, ground arith, rw (enough, fits) refl))
  ]
]

and_true : (a b : Bool) → a && b ≡ true → (a ≡ true) × (b ≡ true)
and_true a b e = ground arith

module _ {W F D : Type 0} ⦃fl : Floats F D⦄ (dev : ChannelDevice W) where
  open fl use {double_of, decimal, dadd, dsub, dmul, dlt}

  -- The speed that was read is less than a tenth of the target, 0.1 * target, away from it.
  abbrev pub IsNear : ℕ → System W F D → Type 0
  IsNear target s =
      let wanted = double_of (pos target) in
      let cur = s.driver.reader.parsed_data.speed in
      (dlt (dsub wanted (dmul wanted (decimal 1 1))) cur ≡ true)
      × (dlt cur (dadd wanted (dmul wanted (decimal 1 1))) ≡ true)

  is_near_speed-IsNear :
      (target : ℕ) (s : System W F D) → is_near_speed dev target s ≡ true → IsNear target s
  unfolding is_near_speed
  is_near_speed-IsNear target s e = and_true _ _ e

  -- The lidar measures, with a speed near the target.
  abbrev pub HasSpeed : ℤ → System W F D → Type 0
  HasSpeed speed s = (target : ℕ) × IsTarget speed target × IsNear target s × IsMeasuring dev s

  pub set_rotation_speed-HasSpeed :
      (speed : ℤ) (s s' : System W F D)
      → IsMeasuring dev s
      → set_rotation_speed dev speed s ≡ some (true, s')
      → HasSpeed speed s'
  set_rotation_speed-HasSpeed speed s s' sends h =
      let (near, measuring) = set_rotation_speed-clamp_speed dev speed s s' sends h in
      (
        clamp_speed speed,
        clamp_speed-IsTarget speed,
        is_near_speed-IsNear (clamp_speed speed) s' near,
        measuring,
      )
