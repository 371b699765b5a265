-- ===== src/Driver/Answers/Results.antt =====
-- What the commands of oradar_ros/sdk/src/ord_lidar_driver.cpp answer, and what the answers mean.
use cqut_lgv.Common.{◌≡◌, ◌⊎◌, refl, inl, inr, Bool, true, false, Option, some}
use cqut_lgv.Common.Int.{ℤ}
use cqut_lgv.Floats.{Floats}
use cqut_lgv.Driver.{System}
use cqut_lgv.Driver.Device.{ChannelDevice}
use cqut_lgv.Driver.Commands.{activate, deactive, set_rotation_speed}
use cqut_lgv.Driver.Activation.{
  IsMeasuring, IsForgotten, activate-IsMeasuring, deactive-IsForgotten,
}
use cqut_lgv.Driver.Reached.{HasSpeed, set_rotation_speed-HasSpeed}
use cqut_lgv.Driver.Answers.{FitsReads, IsServing, Answers}
use cqut_lgv.Driver.Answers.Commanded.{
  activate-Answers, deactive-Answers, set_rotation_speed-Answers,
}

module _ {W F D : Type 0} ⦃fl : Floats F D⦄ (dev : ChannelDevice W) (reads : FitsReads dev) where
  -- The answer true has a meaning.
  answer_meaning :
      (P : System W F D → Type 0) (m : Option (Bool × System W F D))
      → Answers dev reads m
      → ((t : System W F D) → m ≡ some (true, t) → P t)
      → (b : Bool) × (t : System W F D) × (m ≡ some (b, t)) × ((b ≡ false) ⊎ P t)
  answer_meaning P m (true, t, e, v) h = (true, t, e, inr (h t e))
  answer_meaning P m (false, t, e, v) h = (false, t, e, inl refl)

  -- On a driver with a channel that asks for no information, where every read fits the buffer, `Activate`
  -- ends with an answer, and if it is true, the receive thread has seen data and no silence since.
  pub activate_lem :
      (s : System W F D)
      → IsServing dev reads s
      → (b : Bool) × (s' : System W F D) × (activate dev s ≡ some (b, s'))
        × ((b ≡ false) ⊎ IsMeasuring dev s')
  activate_lem s v =
      answer_meaning (IsMeasuring dev) (activate dev s) (activate-Answers dev reads s v)
        (activate-IsMeasuring dev s)

  -- On a driver with a channel that asks for no information, where every read fits the buffer, `Deactive`
  -- ends with an answer, and if it is true, the lidar is silent, both scans are empty and the time
  -- stamp and the speed are zero.
  pub deactive_lem :
      (s : System W F D)
      → IsServing dev reads s
      → (b : Bool) × (s' : System W F D) × (deactive dev s ≡ some (b, s'))
        × ((b ≡ false) ⊎ IsForgotten dev s')
  deactive_lem s v =
      answer_meaning (IsForgotten dev) (deactive dev s) (deactive-Answers dev reads s v)
        (deactive-IsForgotten dev s)

  -- On a driver with a channel that asks for no information, where every read fits the buffer, while the
  -- lidar is measuring, `SetRotationSpeed` ends with an answer. If it is true, the lidar measures
  -- again, and the speed that the receive thread has read is, as `double` computes it, less than
  -- a tenth of a target away from the target: the speed that was asked for if it is from 5 to 15, or else 5 below this
  -- range and 15 above it.
  pub set_rotation_speed_lem :
      (speed : ℤ) (s : System W F D)
      → IsServing dev reads s
      → IsMeasuring dev s
      → (b : Bool) × (s' : System W F D) × (set_rotation_speed dev speed s ≡ some (b, s'))
        × ((b ≡ false) ⊎ HasSpeed dev speed s')
  set_rotation_speed_lem speed s v sends =
      answer_meaning (HasSpeed dev speed) (set_rotation_speed dev speed s)
        (set_rotation_speed-Answers dev reads speed s v)
        (λ t. set_rotation_speed-HasSpeed dev speed s t sends)
