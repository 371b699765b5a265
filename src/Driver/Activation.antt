-- ===== src/Driver/Activation.antt =====
-- What the answers of the commands of oradar_ros/sdk/src/ord_lidar_driver.cpp mean.
use cqut_lgv.Common.{
  ℕ, zero, suc, ◌≡◌, ◌≢◌, sym, ap, ◌∙◌, if◌then◌else◌, refl, inl, inr, Bool, true, false, Option,
  >>=-some, some_subst, some, List, ◌>>=◌, ◌==◌, ==_iff, ==_ne, Bool-cases, arith,
}
use cqut_lgv.Common.Int.{ℤ, pos}
use cqut_lgv.Floats.{Floats}
use cqut_lgv.Protocol.{set_time_out}
use cqut_lgv.Driver.{System}
use cqut_lgv.Driver.Device.{ChannelDevice}
use cqut_lgv.Driver.Receive.{delay}
use cqut_lgv.Driver.Commands.{
  write_request, wait_active, activate, forget_data, wait_silent, deactive, run_mode_request,
  after_write, is_near_speed, wait_speed, send_speed, set_rotation_speed, clamp_speed,
  rotation_request,
}

-- A property of the state that a command answers true with.
answered_true :
    {A : Type 0} (P : A → Type 0) (s s' : A)
    → ◌≡◌ {A = Option (Bool × A)} (some (true, s)) (some (true, s'))
    → P s
    → P s'
answered_true P s s' e p = some_subst (λ w. P w.1) (true, s) (true, s') e p

answered_false :
    {A : Type 0} (s s' : A) → ◌≢◌ {A = Option (Bool × A)} (some (false, s)) (some (true, s'))
answered_false s s' e = ground arith

module _ {W F D : Type 0} ⦃fl : Floats F D⦄ (dev : ChannelDevice W) where
  -- The lidar sends data.
  abbrev pub IsMeasuring : System W F D → Type 0
  IsMeasuring s = s.driver.valid_data ≢ 0

  -- The lidar is silent, and what it had sent is forgotten.
  abbrev pub IsForgotten : System W F D → Type 0
  IsForgotten s =
      (s.driver.valid_data ≡ 0)
      × (s.driver.reader.full_scan_data.vailtidy_point_num ≡ 0)
      × (s.driver.reader.one_scan_data.vailtidy_point_num ≡ 0)
      × (s.driver.reader.parsed_data.timestamp ≡ 0)
      × (s.driver.reader.parsed_data.speed ≡ fl.double_of (pos 0))

  -- A command that answers true has written its request.
  after_write-true :
      (next : System W F D → Option (Bool × System W F D)) (a : Bool × System W F D)
      (s' : System W F D)
      → after_write dev next a ≡ some (true, s')
      → next a.1 ≡ some (true, s')
  after_write-true next (true, t) s' h = h
  after_write-true next (false, t) s' h = absurd (ground arith)

  wait_active-IsMeasuring :
      (rounds : ℕ) (s s' : System W F D)
      → wait_active dev rounds s ≡ some (true, s')
      → IsMeasuring s'
  unfolding wait_active
  wait_active-IsMeasuring zero s s' h = absurd (ground arith)
  wait_active-IsMeasuring (suc rounds) s s' h =
      let (t, e, h1) = >>=-some (delay dev 1000 s) _ (true, s') h in
      elim (Bool-cases (t.driver.valid_data == 0)) [
        | inl silent ↦ wait_active-IsMeasuring rounds t s' (rw silent at h1)
        | inr sends ↦ answered_true IsMeasuring t s' (rw sends at h1) (ground arith)
      ]

  wait_silent-IsForgotten :
      (rounds : ℕ) (s s' : System W F D)
      → wait_silent dev rounds s ≡ some (true, s')
      → IsForgotten s'
  unfolding wait_silent forget_data
  wait_silent-IsForgotten zero s s' h = absurd (ground arith)
  wait_silent-IsForgotten (suc rounds) s s' h =
      let (t, e, h1) = >>=-some (delay dev 1000 s) _ (true, s') h in
      elim (Bool-cases (t.driver.valid_data == 0)) [
        | inl silent ↦
            answered_true IsForgotten (forget_data dev t) s' (rw silent at h1)
              ((==_iff _ _).0 silent, refl, refl, refl, refl)
        | inr sends ↦ wait_silent-IsForgotten rounds t s' (rw sends at h1)
      ]

  request_true :
      (bytes : List ℕ) (next : System W F D → Option (Bool × System W F D)) (s s' : System W F D)
      → (delay dev 400 s >>= λ t. write_request dev bytes t >>= after_write dev next)
        ≡ some (true, s')
      → (t : System W F D) × (next t ≡ some (true, s'))
  request_true bytes next s s' h =
      let (t, e, h1) = >>=-some (delay dev 400 s) _ (true, s') h in
      let (a, e1, h2) = >>=-some (write_request dev bytes t) _ (true, s') h1 in
      (a.1, after_write-true next a s' h2)

  -- If `Activate` answers true, the lidar is measuring: the receive thread has seen data and no silence
  -- since.
  pub activate-IsMeasuring :
      (s s' : System W F D) → activate dev s ≡ some (true, s') → IsMeasuring s'
  unfolding activate
  activate-IsMeasuring s s' h = elim (Bool-cases (s.driver.valid_data == 0)) [
    | inr sends ↦ answered_true IsMeasuring s s' (rw sends at h) (ground arith)
    | inl silent ↦
        let (t, e) =
          request_true (run_mode_request 0x81) (wait_active dev set_time_out) s s'
            (rw silent at h) in
        wait_active-IsMeasuring set_time_out t s' e
  ]

  -- If `Deactive` answers true, the lidar is silent, both scans are empty and the time stamp and the
  -- speed are zero.
  pub deactive-IsForgotten :
      (s s' : System W F D) → deactive dev s ≡ some (true, s') → IsForgotten s'
  unfolding deactive forget_data
  deactive-IsForgotten s s' h = elim (Bool-cases (s.driver.valid_data == 0)) [
    | inl silent ↦
        answered_true IsForgotten (forget_data dev s) s' (rw silent at h)
          ((==_iff _ _).0 silent, refl, refl, refl, refl)
    | inr sends ↦
        let (t, e) =
          request_true (run_mode_request 0x80) (wait_silent dev set_time_out) s s'
            (rw sends at h) in
        wait_silent-IsForgotten set_time_out t s' e
  ]

  wait_speed_near :
      (speed rounds : ℕ) (s s' : System W F D)
      → wait_speed dev speed rounds s ≡ some (true, s')
      → (is_near_speed dev speed s' ≡ true) × IsMeasuring s'
  unfolding wait_speed
  wait_speed_near speed zero s s' h = absurd (ground arith)
  wait_speed_near speed (suc rounds) s s' h =
      let (t, e, h1) = >>=-some (delay dev 1000 s) _ (true, s') h in
      elim (Bool-cases (t.driver.valid_data == 0)) [
        | inl silent ↦ absurd (answered_false t s' (rw silent at h1))
        | inr sends ↦ elim (Bool-cases (is_near_speed dev speed t)) [
          | inl near ↦
              answered_true (λ u. (is_near_speed dev speed u ≡ true) × IsMeasuring u) t s'
                (rw near at (rw sends at h1)) (near, ground arith)
          | inr far ↦ wait_speed_near speed rounds t s' (rw far at (rw sends at h1))
        ]
      ]

  send_speed_near :
      (speed : ℕ) (s s' : System W F D)
      → send_speed dev speed true s ≡ some (true, s')
      → (is_near_speed dev speed s' ≡ true) × IsMeasuring s'
  unfolding send_speed
  send_speed_near speed s s' h =
      let (t, e) =
        request_true (rotation_request speed)
          (λ t. activate dev t >>= after_write dev (wait_speed dev speed set_time_out)) s s' h in
      let (a, e1, h1) = >>=-some (activate dev t) _ (true, s') e in
      wait_speed_near speed set_time_out a.1 s'
        (after_write-true (wait_speed dev speed set_time_out) a s' h1)

  -- If `SetRotationSpeed` answers true for a lidar that was measuring, the lidar measures again, and its
  -- speed is within a tenth of the speed that was asked for, brought into the range from 5 to 15.
  pub set_rotation_speed-clamp_speed :
      (speed : ℤ) (s s' : System W F D)
      → IsMeasuring s
      → set_rotation_speed dev speed s ≡ some (true, s')
      → (is_near_speed dev (clamp_speed speed) s' ≡ true) × IsMeasuring s'
  unfolding set_rotation_speed
  set_rotation_speed-clamp_speed speed s s' sends h =
      let (a, e, h1) =
        >>=-some (deactive dev s) (after_write dev (send_speed dev (clamp_speed speed) true))
          (true, s')
          (sym (
              ap
                (λ b.
                  if b
                  then send_speed dev (clamp_speed speed) false s
                  else (deactive dev s
                      >>= after_write dev (send_speed dev (clamp_speed speed) true)))
                (==_ne s.driver.valid_data 0 sends))
            ∙ h) in
      send_speed_near (clamp_speed speed) a.1 s'
        (after_write-true (send_speed dev (clamp_speed speed) true) a s' h1)
