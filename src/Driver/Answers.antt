-- ===== src/Driver/Answers.antt =====
-- The commands of oradar_ros/sdk/src/ord_lidar_driver.cpp come to an end.
pub mod Commanded
pub mod Connected
pub mod Fetched
pub mod Results
use cqut_lgv.Common.{
  ℕ, zero, suc, ◌≤◌, ◌≡◌, ◌≢◌, ◌⊎◌, refl, sym, ap, ◌∙◌, inl, inr, Bool, true, false, ◌&&◌, not,
  Bool-cases, Option, >>=-some, some_subst, none, some, List, [], ◌∷◌, ◌>>=◌, ◌==◌, if◌then◌else◌,
  ltb, le→ltb, length, All, arith,
}
use cqut_lgv.Common.Int.{ℤ, negsuc, eqb_ℤ}
use cqut_lgv.Floats.{Floats}
use cqut_lgv.Reader.Loop.{uart_data_handle}
use cqut_lgv.Driver.{Driver, System}
use cqut_lgv.Driver.Device.{Arrival, silence, received, ChannelDevice}
use cqut_lgv.Driver.Receive.{
  FitsBuffer, IsQuiet, collect_info, handle_bytes, rx_step, rx_run, rx_run-IsQuiet, delay,
  is_receiving,
}
use cqut_lgv.Driver.Info.{uart_data_find_init_info}
use cqut_lgv.Driver.Commands.{write_request, after_write}

-- A step that is taken or not.
either_way :
    {A : Type 0} (P : A → Type 0) (taken : Bool) (m : Option A) (a a' : A)
    → P a
    → (m ≡ some a' → P a')
    → (if taken then m else some a) ≡ some a'
    → P a'
either_way P true m a a' p h e = h e
either_way P false m a a' p h e = some_subst P a a' e p

module _ {F D : Type 0} ⦃fl : Floats F D⦄ where
  -- The rounds of the receive thread leave the channel.
  KeepsSerial : Driver F D → Driver F D → Type 0
  KeepsSerial d d' = d'.has_serial ≡ d.has_serial

  collect_info-KeepsSerial :
      (bytes : List ℕ) (d d' : Driver F D) → collect_info bytes d ≡ some d' → KeepsSerial d d'
  unfolding collect_info KeepsSerial
  collect_info-KeepsSerial bytes d d' h =
      either_way (KeepsSerial d) d.info.init_info_flag
        (uart_data_find_init_info bytes d.info >>= λ t. some (record d { info = t })) d d' refl
        (λ taken.
          let (t, e, h1) =
            >>=-some (uart_data_find_init_info bytes d.info) (λ t. some (record d { info = t })) d'
              taken in
          some_subst (KeepsSerial d) (record d { info = t }) d' h1 refl)
        h

  handle_bytes-KeepsSerial :
      (bytes : List ℕ) (d d' : Driver F D) → handle_bytes bytes d ≡ some d' → KeepsSerial d d'
  unfolding handle_bytes KeepsSerial
  handle_bytes-KeepsSerial bytes d d' h = elim (Bool-cases (d.model == 1)) [
    | inr other ↦ some_subst (KeepsSerial d) d d' (rw other at h) refl
    | inl known ↦
        let (t, e, h1) = >>=-some (uart_data_handle bytes d.reader) _ d' (rw known at h) in
        collect_info-KeepsSerial bytes (record d { reader = t.1 }) d' h1
  ]

  pub rx_step-KeepsSerial :
      (a : Arrival) (d d' : Driver F D) → rx_step a d ≡ some d' → d'.has_serial ≡ d.has_serial
  unfolding rx_step KeepsSerial
  rx_step-KeepsSerial silence d d' h =
      some_subst (KeepsSerial d) (record d { valid_data = 0 }) d' h refl
  rx_step-KeepsSerial (received []) d d' h =
      some_subst (KeepsSerial d) (record d { valid_data = 1 }) d' h refl
  rx_step-KeepsSerial (received (b ∷ bytes)) d d' h =
      elim (Bool-cases (ltb 1024 (length (b ∷ bytes)))) [
        | inl long ↦ absurd (ground arith)
        | inr short ↦
            handle_bytes-KeepsSerial (b ∷ bytes) (record d { valid_data = 1 }) d' (rw short at h)
      ]

  pub rx_run-KeepsSerial :
      (got : List Arrival) (d d' : Driver F D)
      → rx_run got d ≡ some d'
      → d'.has_serial ≡ d.has_serial
  unfolding rx_run KeepsSerial
  rx_run-KeepsSerial [] d d' h = some_subst (KeepsSerial d) d d' h refl
  rx_run-KeepsSerial (a ∷ got) d d' h =
      let (t, e, h1) = >>=-some (rx_step a d) _ d' h in
      rx_run-KeepsSerial got t d' h1 ∙ rx_step-KeepsSerial a d t e

abbrev pub FitsLast : Option Arrival → Type 0
FitsLast none = Unit
FitsLast (some a) = FitsBuffer a

-- Every read fits the buffer of the receive thread.
pub record FitsReads {W : Type 0} (dev : ChannelDevice W) : Type 0 where
  pub fits_arrivals : (ms : ℕ) (w : W) → All FitsBuffer (dev.arrivals ms w).0
  pub fits_awaited : (ms : ℕ) (w : W) → All FitsBuffer (dev.awaited ms w).0
  pub fits_last : (w : W) → FitsLast (dev.last_arrival w).0

module _ {W F D : Type 0} ⦃fl : Floats F D⦄ (dev : ChannelDevice W) (reads : FitsReads dev) where
  -- A driver with a channel that looks for no information.
  pub record IsServing (s : System W F D) : Type 0 where
    pub quiet : IsQuiet s.driver
    pub serial : s.driver.has_serial ≡ true

  abbrev pub Ends : Option (System W F D) → Type 0
  Ends m = (t : System W F D) × (m ≡ some t) × IsServing t

  -- The command comes to an end, with an answer.
  abbrev pub Answers : Option (Bool × System W F D) → Type 0
  Answers m = (b : Bool) × (t : System W F D) × (m ≡ some (b, t)) × IsServing t

  pub delay-Ends : (ms : ℕ) (s : System W F D) → IsServing s → Ends (delay dev ms s)
  unfolding delay
  delay-Ends ms s v = elim (Bool-cases (is_receiving s.driver)) [
    | inr off ↦ (s, rw off refl, v)
    | inl on ↦
        let (got, w) = dev.arrivals ms s.world in
        let (d, e, q) =
          rx_run-IsQuiet (dev.arrivals ms s.world).0 s.driver (reads.fits_arrivals ms s.world)
            v.quiet in
        (
          record { driver = d; world = (dev.arrivals ms s.world).1 },
          rw (on, e) refl,
          record {
            quiet = q;
            serial = rx_run-KeepsSerial (dev.arrivals ms s.world).0 s.driver d e ∙ v.serial;
          },
        )
  ]

  pub write_request-Answers :
      (bytes : List ℕ) (s : System W F D) → IsServing s → Answers (write_request dev bytes s)
  unfolding write_request
  write_request-Answers bytes s v = (
    if eqb_ℤ (dev.write_data bytes s.world).0 (negsuc 0) then false else true,
    record s { world = (dev.write_data bytes s.world).1 },
    rw v.serial refl,
    record { quiet = v.quiet; serial = v.serial },
  )

  pub Ends-bind :
      (m : Option (System W F D)) (f : System W F D → Option (Bool × System W F D))
      → Ends m
      → ((t : System W F D) → IsServing t → Answers (f t))
      → Answers (m >>= f)
  Ends-bind m f (t, e, v) h = rw e (h t v)

  -- After a command that is written the next one, and after a failed write none.
  pub Answers-after_write :
      (m : Option (Bool × System W F D)) (next : System W F D → Option (Bool × System W F D))
      → Answers m
      → ((t : System W F D) → IsServing t → Answers (next t))
      → Answers (m >>= after_write dev next)
  Answers-after_write m next (true, t, e, v) h = rw e (h t v)
  Answers-after_write m next (false, t, e, v) h = rw e (false, t, refl, v)
