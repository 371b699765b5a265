-- ===== src/Driver/Answers/Connected.antt =====
-- `Connect` and `Disconnect` of oradar_ros/sdk/src/ord_lidar_driver.cpp come to an end.
use cqut_lgv.Common.{
  ◌≡◌, ◌⊎◌, refl, ap, ◌∙◌, inl, inr, Bool, true, false, Bool-cases, Option, none, some, ◌>>=◌, ◌&&◌,
  ◌==◌, if◌then◌else◌, arith,
}
use cqut_lgv.Floats.{Floats}
use cqut_lgv.Driver.{Driver, System}
use cqut_lgv.Driver.Device.{Arrival, ChannelDevice}
use cqut_lgv.Driver.Receive.{IsQuiet, rx_step-IsQuiet}
use cqut_lgv.Driver.Session.{
  finish_round, joined, join_if, join_thread, close_serial, stop_thread, end_session, disconnect,
  disconnect_lem, create_serial, start_thread, after_open, open_serial, connect,
  connect-is_connected,
}
use cqut_lgv.Driver.Answers.{
  FitsLast, FitsReads, IsServing, Answers, rx_step-KeepsSerial, delay-Ends,
}

module _ {W F D : Type 0} ⦃fl : Floats F D⦄ (dev : ChannelDevice W) (reads : FitsReads dev) where
  -- The thread finishes its round, and leaves the channel.
  finish_round_ends :
      (a : Option Arrival) (d : Driver F D)
      → FitsLast a
      → IsQuiet d
      → (d' : Driver F D) × (finish_round dev a d ≡ some d')
        × IsQuiet d'
        × (d'.has_serial ≡ d.has_serial)
  unfolding finish_round
  finish_round_ends none d fits q = (d, refl, q, refl)
  finish_round_ends (some a) d fits q =
      let (d', e, q') = rx_step-IsQuiet a d fits q in (d', e, q', rx_step-KeepsSerial a d d' e)

  join_if_ends :
      (b : Bool) (s : System W F D)
      → IsQuiet s.driver
      → (t : System W F D) × (join_if dev b s ≡ some t)
        × IsQuiet t.driver
        × (t.driver.has_serial ≡ s.driver.has_serial)
  unfolding join_if
  join_if_ends false s q = (s, refl, q, refl)
  join_if_ends true s q =
      let (d, e, q', kept) =
        finish_round_ends (dev.last_arrival s.world).0 s.driver (reads.fits_last s.world) q in
      (
        joined dev (dev.last_arrival s.world).1 d,
        ap (λ m. m >>= λ d'. some (joined dev (dev.last_arrival s.world).1 d')) e,
        record { valid = q'.valid; quiet = q'.quiet },
        kept,
      )

  close_serial-IsQuiet :
      (s : System W F D)
      → IsQuiet s.driver
      → IsQuiet (close_serial dev s).driver
        × ((close_serial dev s).driver.has_serial ≡ s.driver.has_serial)
  unfolding close_serial
  close_serial-IsQuiet s q = elim (Bool-cases (s.driver.has_serial && dev.is_open s.world)) [
    | inl there ↦ rw there (q, refl)
    | inr missing ↦ rw missing (q, refl)
  ]

  end_session-IsQuiet : (t : System W F D) → IsQuiet t.driver → IsQuiet (end_session dev t).driver
  end_session-IsQuiet t q = record {
    valid = record {
      synced = q.valid.synced;
      fits = record {
        temp_length = q.valid.fits.temp_length;
        temp_num = q.valid.fits.temp_num;
        full_length = q.valid.fits.full_length;
        full_num = q.valid.fits.full_num;
        one_length = q.valid.fits.one_length;
        one_num = q.valid.fits.one_num;
      };
    };
    quiet = q.quiet;
  }

  pub disconnect-IsQuiet :
      (s : System W F D)
      → IsQuiet s.driver
      → (t : System W F D) × (disconnect dev s ≡ some t)
        × IsQuiet t.driver
        × (t.driver.has_serial ≡ s.driver.has_serial)
  unfolding disconnect join_thread
  disconnect-IsQuiet s q =
      let s1 = close_serial dev (stop_thread dev s) in
      let (q1, kept1) =
        close_serial-IsQuiet (stop_thread dev s) (record { valid = q.valid; quiet = q.quiet }) in
      let (t, e, q2, kept2) = join_if_ends s1.driver.has_rx_thread s1 q1 in
      (
        end_session dev t,
        ap (λ m. m >>= λ u. some (end_session dev u)) e,
        end_session-IsQuiet t q2,
        kept2 ∙ kept1,
      )

  -- While the driver asks for no information and every read fits the buffer, `Disconnect` ends; afterwards
  -- the driver is not connected, has no receive thread, and announces no scan.
  pub disconnect_ends :
      (s : System W F D)
      → IsQuiet s.driver
      → (s' : System W F D) × (disconnect dev s ≡ some s')
        × (s'.driver.is_connected ≡ false)
        × (s'.driver.has_rx_thread ≡ false)
        × (s'.driver.reader.full_scan_ready ≡ false)
        × (s'.driver.reader.one_scan_ready ≡ false)
  disconnect_ends s q =
      let (t, e, q', kept) = disconnect-IsQuiet s q in
      let (apart, alone, full, one) = disconnect_lem dev s t e in (t, e, apart, alone, full, one)

  -- A driver that has a channel, or that makes one when it connects for the first time.
  abbrev pub HasChannel : System W F D → Type 0
  HasChannel s =
      (s.driver.has_serial ≡ true)
      ⊎ ((s.driver.tranformer_type ≡ 0) × (s.driver.is_connected ≡ false))

  after_open-Answers :
      (opened : Bool) (s : System W F D)
      → IsServing dev reads s
      → Answers dev reads (after_open dev opened s)
  unfolding after_open start_thread
  after_open-Answers true s v =
      let started = record s {
        driver = record s.driver {
          is_connected = true;
          rx_thread_exit_flag = false;
          has_rx_thread = true;
        };
      } in
      let (t, e, v') = delay-Ends dev reads 200 started (record {
        quiet = record { valid = v.quiet.valid; quiet = v.quiet.quiet };
        serial = v.serial;
      }) in
      (t.driver.is_connected, t, ap (λ m. m >>= λ u. some (u.driver.is_connected, u)) e, v')
  after_open-Answers false s v = (s.driver.is_connected, s, refl, v)

  open_serial-Answers :
      (s : System W F D) → IsServing dev reads s → Answers dev reads (open_serial dev s)
  unfolding open_serial
  open_serial-Answers s v =
      let opened = record s { world = (dev.open_port s.world).1 } in
      let (b, t, e, v') =
        after_open-Answers (dev.open_port s.world).0 opened
          (record { quiet = v.quiet; serial = v.serial }) in
      (
        b,
        t,
        ap (λ c. if c then after_open dev (dev.open_port s.world).0 opened else none) v.serial ∙ e,
        v',
      )

  create_serial-IsServing :
      (s : System W F D)
      → IsQuiet s.driver
      → (s.driver.has_serial ≡ true) ⊎ (s.driver.tranformer_type ≡ 0)
      → IsServing dev reads (create_serial dev s)
  unfolding create_serial
  create_serial-IsServing s q channel = elim (Bool-cases (s.driver.tranformer_type == 0)) [
    | inl kind ↦
        rw kind (record { quiet = record { valid = q.valid; quiet = q.quiet }; serial = refl })
    | inr other ↦ rw other (record {
      quiet = q;
      serial = elim channel [ inl there ↦ there | inr kind ↦ absurd (ground arith) ];
    })
  ]

  disconnect_if :
      (s : System W F D)
      → IsQuiet s.driver
      → HasChannel s
      → (t : System W F D) × ((if s.driver.is_connected then disconnect dev s else some s) ≡ some t)
        × IsQuiet t.driver
        × ((t.driver.has_serial ≡ true) ⊎ (t.driver.tranformer_type ≡ 0))
  disconnect_if s q channel = elim (Bool-cases s.driver.is_connected) [
    | inr apart ↦ (
      s,
      ap (λ c. if c then disconnect dev s else some s) apart,
      q,
      elim channel [ inl there ↦ inl there | inr (kind, e) ↦ inr kind ],
    )
    | inl connected ↦
        let (t, e, q', kept) = disconnect-IsQuiet s q in
        (
          t,
          ap (λ c. if c then disconnect dev s else some s) connected ∙ e,
          q',
          elim channel [
            | inl there ↦ inl (kept ∙ there)
            | inr (kind, apart) ↦ absurd (ground arith)
          ],
        )
  ]

  -- If every read fits the buffer, and the driver asks for no information and has a channel, or is not
  -- connected and of the serial type, then `Connect` ends. It answers whether the driver is
  -- connected afterwards, and the driver has a channel then, as the commands need it.
  pub connect_ends :
      (s : System W F D)
      → IsQuiet s.driver
      → HasChannel s
      → (b : Bool) × (t : System W F D) × (connect dev s ≡ some (b, t))
        × (b ≡ t.driver.is_connected)
        × IsServing dev reads t
  unfolding connect
  connect_ends s q channel =
      let (u, e, q', there) = disconnect_if s q channel in
      let (b, t, e', v) =
        open_serial-Answers (create_serial dev u) (create_serial-IsServing u q' there) in
      let whole : connect dev s ≡ some (b, t) =
        ap (λ m. m >>= λ u'. open_serial dev (create_serial dev u')) e ∙ e' in
      (b, t, whole, connect-is_connected dev s t b whole, v)
