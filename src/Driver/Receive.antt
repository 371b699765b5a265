-- ===== src/Driver/Receive.antt =====
-- The receive thread, `mRxThreadProc` of oradar_ros/sdk/src/ord_lidar_driver.cpp. Reading more bytes than
-- its buffer holds is a fault, `none`.
use cqut_lgv.Common.{
  ℕ, ◌≤◌, ◌≡◌, refl, inl, inr, Bool, false, not, ◌&&◌, Option, none, some, List, [], ◌∷◌, ◌>>=◌,
  ltb, le→ltb, ◌==◌, if◌then◌else◌, Bool-cases, length, All,
}
use cqut_lgv.Floats.{Floats}
use cqut_lgv.Protocol.{tmpbuff_size}
use cqut_lgv.Reader.Loop.{uart_data_handle}
use cqut_lgv.Reader.Total.{IsValid, uart_data_handle-IsValid}
use cqut_lgv.Driver.{Driver, System}
use cqut_lgv.Driver.Device.{Arrival, silence, received, ChannelDevice}
use cqut_lgv.Driver.Info.{uart_data_find_init_info}

-- `ORADAR_MS200`
abbrev pub oradar_ms200 : ℕ
oradar_ms200 = 1

-- Bytes that fit the thread's buffer.
abbrev pub FitsBuffer : Arrival → Type 0
FitsBuffer silence = Unit
FitsBuffer (received bytes) = length bytes ≤ 1024

module _ {F D : Type 0} ⦃fl : Floats F D⦄ where
  -- The bytes go to the search for information while it is wanted.
  unfoldable pub collect_info : List ℕ → Driver F D → Option (Driver F D)
  unfolding uart_data_find_init_info
  collect_info bytes d =
      if d.info.init_info_flag
      then (uart_data_find_init_info bytes d.info >>= λ t. some (record d { info = t }))
      else some d

  -- The switch over the model.
  unfoldable pub handle_bytes : List ℕ → Driver F D → Option (Driver F D)
  unfolding collect_info uart_data_handle
  handle_bytes bytes d =
      if d.model == oradar_ms200
      then (uart_data_handle bytes d.reader >>= λ (b, r).
          collect_info bytes (record d { reader = r }))
      else some d

  -- A round of the loop.
  unfoldable pub rx_step : Arrival → Driver F D → Option (Driver F D)
  unfolding handle_bytes
  rx_step silence d = some (record d { valid_data = 0 })
  rx_step (received []) d = some (record d { valid_data = 1 })
  rx_step (received (b ∷ bytes)) d =
      if ltb tmpbuff_size (length (b ∷ bytes))
      then none
      else handle_bytes (b ∷ bytes) (record d { valid_data = 1 })

  unfoldable pub rx_run : List Arrival → Driver F D → Option (Driver F D)
  unfolding rx_step
  rx_run [] d = some d
  rx_run (a ∷ rest) d = rx_step a d >>= λ d'. rx_run rest d'

  -- The thread is there and has not been told to stop.
  abbrev pub is_receiving : Driver F D → Bool
  is_receiving d = d.has_rx_thread && not d.rx_thread_exit_flag

  module _ {W : Type 0} (dev : ChannelDevice W) where
    -- `delay`: the receive thread works meanwhile.
    unfoldable pub delay : ℕ → System W F D → Option (System W F D)
    unfolding rx_run
    delay ms s =
        if is_receiving s.driver
        then (let (got, w) = dev.arrivals ms s.world in
            rx_run got s.driver >>= λ d. some (record { driver = d; world = w }))
        else some s

  -- The state that the receive thread keeps while no device information is asked for.
  pub record IsQuiet (d : Driver F D) : Type 0 where
    pub valid : IsValid d.reader
    pub quiet : d.info.init_info_flag ≡ false

  handle_bytes-IsQuiet :
      (bytes : List ℕ) (d : Driver F D)
      → IsQuiet d
      → (d' : Driver F D) × (handle_bytes bytes d ≡ some d') × IsQuiet d'
  unfolding handle_bytes collect_info
  handle_bytes-IsQuiet bytes d q = elim (Bool-cases (d.model == 1)) [
    | inr other ↦ (d, rw other refl, q)
    | inl known ↦
        let (b, r, e, v) = uart_data_handle-IsValid bytes d.reader q.valid in
        (
          record d { reader = r },
          rw (known, e, q.quiet) refl,
          record { valid = v; quiet = q.quiet },
        )
  ]

  pub rx_step-IsQuiet :
      (a : Arrival) (d : Driver F D)
      → FitsBuffer a
      → IsQuiet d
      → (d' : Driver F D) × (rx_step a d ≡ some d') × IsQuiet d'
  unfolding rx_step
  rx_step-IsQuiet silence d fits q =
      (record d { valid_data = 0 }, refl, record { valid = q.valid; quiet = q.quiet })
  rx_step-IsQuiet (received []) d fits q =
      (record d { valid_data = 1 }, refl, record { valid = q.valid; quiet = q.quiet })
  rx_step-IsQuiet (received (b ∷ bytes)) d fits q = rw (le→ltb 1024 (length (b ∷ bytes)) fits) (
      handle_bytes-IsQuiet (b ∷ bytes) (record d { valid_data = 1 })
        (record { valid = q.valid; quiet = q.quiet }))

  -- While no device information is asked for, and every read fits the buffer of 1024 bytes, the receive
  -- thread handles whatever arrives without a fault, and its state stays valid.
  pub rx_run-IsQuiet :
      (got : List Arrival) (d : Driver F D)
      → All FitsBuffer got
      → IsQuiet d
      → (d' : Driver F D) × (rx_run got d ≡ some d') × IsQuiet d'
  unfolding rx_run
  rx_run-IsQuiet [] d fits q = (d, refl, q)
  rx_run-IsQuiet (a ∷ rest) d fits q =
      let (d1, e1, q1) = rx_step-IsQuiet a d fits.0 q in
      let (d2, e2, q2) = rx_run-IsQuiet rest d1 fits.1 q1 in (d2, rw e1 e2, q2)
