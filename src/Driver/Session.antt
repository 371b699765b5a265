-- ===== src/Driver/Session.antt =====
-- `Connect`, `Disconnect` and `isConnected` of oradar_ros/sdk/src/ord_lidar_driver.cpp.
use cqut_lgv.Common.{
  ℕ, ◌≡◌, refl, inl, inr, sym, ◌∙◌, Bool, true, false, ◌&&◌, Option, >>=-some, some_subst,
  some-ne-none, none, some, ◌>>=◌, ◌==◌, if◌then◌else◌, Bool-cases,
}
use cqut_lgv.Floats.{Floats}
use cqut_lgv.Driver.{Driver, System}
use cqut_lgv.Driver.Device.{Arrival, ChannelDevice}
use cqut_lgv.Driver.Receive.{rx_step, delay}

-- `ORADAR_TYPE_SERIAL`
abbrev pub oradar_type_serial : ℕ
oradar_type_serial = 0

module _ {W F D : Type 0} ⦃fl : Floats F D⦄ (dev : ChannelDevice W) where
  -- The round that the thread was in when it was told to stop.
  unfoldable pub finish_round : Option Arrival → Driver F D → Option (Driver F D)
  unfolding rx_step
  finish_round none d = some d
  finish_round (some a) d = rx_step a d

  -- The pointer to the thread is cleared.
  abbrev pub joined : W → Driver F D → System W F D
  joined w d = record { driver = record d { has_rx_thread = false }; world = w }

  -- `rx_thread_->join()`, if there is a thread.
  unfoldable pub join_if : Bool → System W F D → Option (System W F D)
  unfolding finish_round
  join_if true s = finish_round (dev.last_arrival s.world).0 s.driver >>= λ d.
      some (joined (dev.last_arrival s.world).1 d)
  join_if false s = some s

  unfoldable pub join_thread : System W F D → Option (System W F D)
  unfolding join_if
  join_thread s = join_if s.driver.has_rx_thread s

  unfoldable pub close_serial : System W F D → System W F D
  close_serial s =
      if s.driver.has_serial && dev.is_open s.world
      then record s { world = dev.close_port s.world }
      else s

  -- `ResetFullScanReady`, `ResetOneScanReady`, and the connection is over.
  abbrev pub end_session : System W F D → System W F D
  end_session s =
      let r = record s.driver.reader { full_scan_ready = false; one_scan_ready = false } in
      record s { driver = record s.driver { reader = r; is_connected = false } }

  abbrev pub stop_thread : System W F D → System W F D
  stop_thread s = record s { driver = record s.driver { rx_thread_exit_flag = true } }

  unfoldable pub disconnect : System W F D → Option (System W F D)
  unfolding join_thread close_serial
  disconnect s = join_thread (close_serial (stop_thread s)) >>= λ t. some (end_session t)

  -- The destructor.
  unfoldable pub destroy : System W F D → Option (System W F D)
  unfolding disconnect
  destroy s = disconnect s

  -- A first connection creates the channel if its type is serial.
  unfoldable pub create_serial : System W F D → System W F D
  create_serial s =
      if s.driver.tranformer_type == oradar_type_serial
      then record s { driver = record s.driver { has_serial = true } }
      else s

  -- The thread is started, and it works for the 200 ms of the delay.
  unfoldable pub start_thread : System W F D → Option (System W F D)
  unfolding delay
  start_thread s = delay dev 200 (record s {
    driver = record s.driver {
      is_connected = true;
      rx_thread_exit_flag = false;
      has_rx_thread = true;
    };
  })

  -- What follows an attempt to open the port.
  unfoldable pub after_open : Bool → System W F D → Option (Bool × System W F D)
  unfolding start_thread
  after_open true s = start_thread s >>= λ t. some (t.driver.is_connected, t)
  after_open false s = some (s.driver.is_connected, s)

  -- Opening without a channel is a fault.
  unfoldable pub open_serial : System W F D → Option (Bool × System W F D)
  unfolding after_open
  open_serial s =
      if s.driver.has_serial
      then after_open (dev.open_port s.world).0 (record s { world = (dev.open_port s.world).1 })
      else none

  unfoldable pub connect : System W F D → Option (Bool × System W F D)
  unfolding disconnect create_serial open_serial
  connect s = (if s.driver.is_connected then disconnect s else some s) >>= λ s'.
      open_serial (create_serial s')

  join_if-has_rx_thread :
      (b : Bool) (s t : System W F D)
      → s.driver.has_rx_thread ≡ b
      → join_if b s ≡ some t
      → t.driver.has_rx_thread ≡ false
  unfolding join_if
  join_if-has_rx_thread false s t e h = some_subst (λ u. u.driver.has_rx_thread ≡ false) s t h e
  join_if-has_rx_thread true s t e h =
      let w = (dev.last_arrival s.world).1 in
      let (d, e', h1) =
        >>=-some (finish_round (dev.last_arrival s.world).0 s.driver) (λ d. some (joined w d)) t
          h in
      some_subst (λ u. u.driver.has_rx_thread ≡ false) (joined w d) t h1 refl

  -- Whatever the state is, if `Disconnect` ends, the driver is not connected, has no receive thread, and
  -- announces no scan.
  pub disconnect_lem :
      (s s' : System W F D)
      → disconnect s ≡ some s'
      → (s'.driver.is_connected ≡ false)
        × (s'.driver.has_rx_thread ≡ false)
        × (s'.driver.reader.full_scan_ready ≡ false)
        × (s'.driver.reader.one_scan_ready ≡ false)
  unfolding disconnect join_thread
  disconnect_lem s s' h =
      let s1 = close_serial (stop_thread s) in
      let (t, e, h1) = >>=-some (join_thread s1) (λ t. some (end_session t)) s' h in
      some_subst
        (λ u.
          (u.driver.is_connected ≡ false)
          × (u.driver.has_rx_thread ≡ false)
          × (u.driver.reader.full_scan_ready ≡ false)
          × (u.driver.reader.one_scan_ready ≡ false))
        (end_session t) s' h1
        (refl, join_if-has_rx_thread s1.driver.has_rx_thread s1 t refl e, refl, refl)

  after_open-is_connected :
      (opened : Bool) (s s' : System W F D) (b : Bool)
      → after_open opened s ≡ some (b, s')
      → b ≡ s'.driver.is_connected
  unfolding after_open
  after_open-is_connected false s s' b h =
      some_subst (λ w. w.0 ≡ w.1.driver.is_connected) (s.driver.is_connected, s) (b, s') h refl
  after_open-is_connected true s s' b h =
      let (t, e, h1) = >>=-some (start_thread s) (λ t. some (t.driver.is_connected, t)) (b, s') h in
      some_subst (λ w. w.0 ≡ w.1.driver.is_connected) (t.driver.is_connected, t) (b, s') h1 refl

  open_serial-is_connected :
      (s s' : System W F D) (b : Bool) → open_serial s ≡ some (b, s') → b ≡ s'.driver.is_connected
  unfolding open_serial
  open_serial-is_connected s s' b h = elim (Bool-cases s.driver.has_serial) [
    | inr missing ↦ absurd (some-ne-none (b, s') (sym h ∙ rw missing refl))
    | inl there ↦ after_open-is_connected (dev.open_port s.world).0 _ s' b (rw there at h)
  ]

  -- If `Connect` ends, it answers whether the driver is connected afterwards.
  pub connect-is_connected :
      (s s' : System W F D) (b : Bool) → connect s ≡ some (b, s') → b ≡ s'.driver.is_connected
  unfolding connect
  connect-is_connected s s' b h =
      let (u, e, h1) =
        >>=-some (if s.driver.is_connected then disconnect s else some s)
          (λ u. open_serial (create_serial u)) (b, s') h in
      open_serial-is_connected (create_serial u) s' b h1
