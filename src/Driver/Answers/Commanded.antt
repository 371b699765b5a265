-- ===== src/Driver/Answers/Commanded.antt =====
-- What the commands of oradar_ros/sdk/src/ord_lidar_driver.cpp answer, on a driver whose channel is there.
use cqut_lgv.Common.{
  ℕ, List, zero, suc, arith, refl, sym, subst, inl, inr, Bool, true, false, Bool-cases, Option,
  ◌>>=◌, ◌==◌, if◌then◌else◌,
}
use cqut_lgv.Common.Int.{ℤ}
use cqut_lgv.Floats.{Floats}
use cqut_lgv.Protocol.{set_time_out}
use cqut_lgv.Driver.{System}
use cqut_lgv.Driver.Device.{ChannelDevice}
use cqut_lgv.Driver.Receive.{delay}
use cqut_lgv.Driver.Commands.{
  write_request, wait_active, activate, forget_data, wait_silent, deactive, run_mode_request,
  after_write, is_near_speed, wait_speed, send_speed, set_rotation_speed, clamp_speed,
  rotation_request,
}
use cqut_lgv.Driver.Answers.{
  FitsReads, IsServing, Answers, delay-Ends, write_request-Answers, Ends-bind, Answers-after_write,
}

forget_data-IsServing :
    {W F D : Type 0} ⦃fl : Floats F D⦄ (dev : ChannelDevice W) (reads : FitsReads dev)
    (s : System W F D)
    → IsServing dev reads s
    → IsServing dev reads (forget_data dev s)
unfolding forget_data
forget_data-IsServing dev reads s v = record {
  quiet = record {
    valid = record {
      synced = v.quiet.valid.synced;
      fits = record {
        temp_length = v.quiet.valid.fits.temp_length;
        temp_num = v.quiet.valid.fits.temp_num;
        full_length = v.quiet.valid.fits.full_length;
        full_num = omega arith;
        one_length = v.quiet.valid.fits.one_length;
        one_num = omega arith;
      };
    };
    quiet = v.quiet.quiet;
  };
  serial = v.serial;
}

module _ {W F D : Type 0} ⦃fl : Floats F D⦄ (dev : ChannelDevice W) (reads : FitsReads dev) where
  wait_active-Answers :
      (rounds : ℕ) (s : System W F D)
      → IsServing dev reads s
      → Answers dev reads (wait_active dev rounds s)
  unfolding wait_active
  wait_active-Answers zero s v = (false, s, refl, v)
  wait_active-Answers (suc rounds) s v =
      Ends-bind dev reads (delay dev 1000 s) _ (delay-Ends dev reads 1000 s v) (λ t q.
        elim (Bool-cases (t.driver.valid_data == 0)) [
          | inl silent ↦ rw silent (wait_active-Answers rounds t q)
          | inr sends ↦ rw sends (true, t, refl, q)
        ])

  -- A command from its delay on.
  request-Answers :
      (bytes : List ℕ) (next : System W F D → Option (Bool × System W F D)) (s : System W F D)
      → IsServing dev reads s
      → ((t : System W F D) → IsServing dev reads t → Answers dev reads (next t))
      → Answers dev reads
          (delay dev 400 s >>= λ t. write_request dev bytes t >>= after_write dev next)
  request-Answers bytes next s v h =
      Ends-bind dev reads (delay dev 400 s) _ (delay-Ends dev reads 400 s v) (λ t q.
        Answers-after_write dev reads (write_request dev bytes t) next
          (write_request-Answers dev reads bytes t q) h)

  pub activate-Answers :
      (s : System W F D) → IsServing dev reads s → Answers dev reads (activate dev s)
  unfolding activate
  activate-Answers s v = elim (Bool-cases (s.driver.valid_data == 0)) [
    | inr sends ↦ rw sends (true, s, refl, v)
    | inl silent ↦ rw silent (
        request-Answers (run_mode_request 0x81) (wait_active dev set_time_out) s v
          (wait_active-Answers set_time_out))
  ]

  wait_silent-Answers :
      (rounds : ℕ) (s : System W F D)
      → IsServing dev reads s
      → Answers dev reads (wait_silent dev rounds s)
  unfolding wait_silent
  wait_silent-Answers zero s v = (false, s, refl, v)
  wait_silent-Answers (suc rounds) s v =
      Ends-bind dev reads (delay dev 1000 s) _ (delay-Ends dev reads 1000 s v) (λ t q.
        elim (Bool-cases (t.driver.valid_data == 0)) [
          | inl silent ↦
              rw silent (true, forget_data dev t, refl, forget_data-IsServing dev reads t q)
          | inr sends ↦ rw sends (wait_silent-Answers rounds t q)
        ])

  pub deactive-Answers :
      (s : System W F D) → IsServing dev reads s → Answers dev reads (deactive dev s)
  unfolding deactive
  deactive-Answers s v = elim (Bool-cases (s.driver.valid_data == 0)) [
    | inl silent ↦ rw silent (true, forget_data dev s, refl, forget_data-IsServing dev reads s v)
    | inr sends ↦ rw sends (
        request-Answers (run_mode_request 0x80) (wait_silent dev set_time_out) s v
          (wait_silent-Answers set_time_out))
  ]

  wait_speed-Answers :
      (speed rounds : ℕ) (s : System W F D)
      → IsServing dev reads s
      → Answers dev reads (wait_speed dev speed rounds s)
  unfolding wait_speed
  wait_speed-Answers speed zero s v = (false, s, refl, v)
  wait_speed-Answers speed (suc rounds) s v =
      Ends-bind dev reads (delay dev 1000 s) _ (delay-Ends dev reads 1000 s v) (λ t q.
        elim (Bool-cases (t.driver.valid_data == 0)) [
          | inl silent ↦ rw silent (false, t, refl, q)
          | inr sends ↦ rw sends (elim (Bool-cases (is_near_speed dev speed t)) [
            | inl near ↦ rw near (true, t, refl, q)
            | inr far ↦ rw far (wait_speed-Answers speed rounds t q)
          ])
        ])

  send_speed-Answers :
      (speed : ℕ) (set_flag : Bool) (s : System W F D)
      → IsServing dev reads s
      → Answers dev reads (send_speed dev speed set_flag s)
  unfolding send_speed
  send_speed-Answers speed true s v = request-Answers (rotation_request speed) _ s v (λ t q.
      Answers-after_write dev reads (activate dev t) (wait_speed dev speed set_time_out)
        (activate-Answers t q) (wait_speed-Answers speed set_time_out))
  send_speed-Answers speed false s v =
      request-Answers (rotation_request speed) _ s v (λ t q. (true, t, refl, q))

  pub set_rotation_speed-Answers :
      (speed : ℤ) (s : System W F D)
      → IsServing dev reads s
      → Answers dev reads (set_rotation_speed dev speed s)
  unfolding set_rotation_speed
  set_rotation_speed-Answers speed s v = elim (Bool-cases (s.driver.valid_data == 0)) [
    | inl silent ↦ rw silent (send_speed-Answers (clamp_speed speed) false s v)
    | inr sends ↦
        subst (λ b. Answers dev reads (speed_from b)) (sym sends)
          (Answers-after_write dev reads (deactive dev s) (send_speed dev (clamp_speed speed) true)
            (deactive-Answers s v) (send_speed-Answers (clamp_speed speed) true))
  ]
    where
      speed_from : Bool → Option (Bool × System W F D)
      speed_from b =
          if b
          then send_speed dev (clamp_speed speed) false s
          else (deactive dev s >>= after_write dev (send_speed dev (clamp_speed speed) true))
