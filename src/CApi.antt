-- ===== src/CApi.antt =====
-- The C interface, oradar_ros/sdk/src/ord_lidar_c_api_driver.cpp. A handle is a pointer to a structure that
-- holds a pointer to a driver; either may be null. The answer false is `none` where the caller gets a
-- value with the answer true; a fault of the driver is the outer `none`.
pub mod Calls
use cqut_lgv.Common.{
  ℕ, suc, ◌-◌, ◌%◌, ◌^◌, ◌≡◌, ◌≢◌, refl, ap, Bool, true, false, Option, none, some, List, [], ◌∷◌,
  ◌++◌, ◌>>=◌, ◌==◌, if◌then◌else◌, Bool-cases, inl, inr, All, arith,
}
use cqut_lgv.Common.Int.{ℤ, pos, negsuc}
use cqut_lgv.Floats.{Floats}
use cqut_lgv.Protocol.{ScanData}
use cqut_lgv.Driver.{Driver, System, new_driver, set_serial_port}
use cqut_lgv.Driver.Device.{ChannelDevice}
use cqut_lgv.Driver.Session.{connect, disconnect, destroy}
use cqut_lgv.Driver.Commands.{activate, deactive, set_rotation_speed}
use cqut_lgv.Driver.Grab.{
  grab_full_scan, grab_one_scan, grab_full_scan_blocking, grab_one_scan_blocking, get_timestamp,
  get_rotation_speed, get_firmware_version, get_device_sn,
}

-- `ORDLidar *`
pub data Handle (W F D : Type 0) : Type 0 where
  null : Handle W F D
  handle : Option (System W F D) → Handle W F D

-- The conversion of `int` to `uint32_t`.
abbrev pub to_u32 : ℤ → ℕ
to_u32 (pos n) = n % 2 ^ 32
to_u32 (negsuc n) = 2 ^ 32 - suc (n % 2 ^ 32)

-- What `strcpy` copies of `c_str()`: the bytes in front of the first zero.
unfoldable pub c_string : List ℕ → List ℕ
c_string [] = []
c_string (b ∷ bytes) = if b == 0 then [] else b ∷ c_string bytes

-- The two strings are copied to the caller.
abbrev pub copied : Option (List ℕ × List ℕ) → Option (List ℕ × List ℕ)
copied none = none
copied (some (top, bot)) = some (c_string top, c_string bot)

abbrev pub copied_sn : Option (List ℕ) → Option (List ℕ)
copied_sn none = none
copied_sn (some sn) = some (c_string sn)

module _ {W F D : Type 0} where
  -- `lidar == NULL || lidar->lidar == NULL`, negated.
  abbrev pub has_driver : Handle W F D → Bool
  has_driver null = false
  has_driver (handle none) = false
  has_driver (handle (some s)) = true

  -- The tests that every function starts with: without a driver it answers `failed`.
  unfoldable pub with_driver :
      {A : Type 0}
      → A
      → (System W F D → Option (A × System W F D))
      → Handle W F D
      → Option (A × Handle W F D)
  with_driver failed f null = some (failed, null)
  with_driver failed f (handle none) = some (failed, handle none)
  with_driver failed f (handle (some s)) = f s >>= λ (a, s'). some (a, handle (some s'))

  -- A call that only looks at the members, or changes them alone.
  abbrev pub on_members :
      {A : Type 0} → (Driver F D → A × Driver F D) → System W F D → Option (A × System W F D)
  on_members f s = some ((f s.driver).0, record s { driver = (f s.driver).1 })

  unfoldable pub oradar_lidar_create : ⦃fl : Floats F D⦄ → ℕ → ℕ → W → Handle W F D
  unfolding new_driver
  oradar_lidar_create device_type model w =
      handle (some (record { driver = new_driver device_type model; world = w }))

  unfoldable pub oradar_set_serial_port :
      Option (List ℕ) → ℤ → Handle W F D → Option (Bool × Handle W F D)
  unfolding with_driver set_serial_port
  oradar_set_serial_port none baudrate h = some (false, h)
  oradar_set_serial_port (some port) baudrate h =
      with_driver false (on_members (λ d. (true, set_serial_port port (to_u32 baudrate) d))) h

  unfoldable pub oradar_get_timestamp : Handle W F D → Option (Option ℕ × Handle W F D)
  unfolding with_driver get_timestamp
  oradar_get_timestamp = with_driver none (on_members (λ d. (some (get_timestamp d), d)))

  unfoldable pub oradar_get_rotation_speed : Handle W F D → Option (Option D × Handle W F D)
  unfolding with_driver get_rotation_speed
  oradar_get_rotation_speed = with_driver none (on_members (λ d. (some (get_rotation_speed d), d)))

  unfoldable pub oradar_get_firmware_version :
      Handle W F D → Option (Option (List ℕ × List ℕ) × Handle W F D)
  unfolding with_driver get_firmware_version c_string
  oradar_get_firmware_version =
      with_driver none
        (on_members (λ d. (copied (get_firmware_version d).0, (get_firmware_version d).1)))

  unfoldable pub oradar_get_device_sn : Handle W F D → Option (Option (List ℕ) × Handle W F D)
  unfolding with_driver get_device_sn c_string
  oradar_get_device_sn =
      with_driver none (on_members (λ d. (copied_sn (get_device_sn d).0, (get_device_sn d).1)))

  unfoldable pub oradar_get_grabonescan :
      Handle W F D → Option (Option (ScanData F D) × Handle W F D)
  unfolding with_driver grab_one_scan
  oradar_get_grabonescan = with_driver none (on_members grab_one_scan)

  unfoldable pub oradar_get_grabfullscan :
      Handle W F D → Option (Option (ScanData F D) × Handle W F D)
  unfolding with_driver grab_full_scan
  oradar_get_grabfullscan = with_driver none (on_members grab_full_scan)

module _ {W F D : Type 0} ⦃fl : Floats F D⦄ (dev : ChannelDevice W) where
  -- The driver's destructor disconnects; afterwards the handle is null.
  unfoldable pub oradar_lidar_destroy : Handle W F D → Option (Handle W F D × Option W)
  unfolding destroy
  oradar_lidar_destroy null = some (null, none)
  oradar_lidar_destroy (handle none) = some (null, none)
  oradar_lidar_destroy (handle (some s)) = destroy dev s >>= λ s'. some (null, some s'.world)

  unfoldable pub oradar_connect : Handle W F D → Option (Bool × Handle W F D)
  unfolding with_driver connect
  oradar_connect = with_driver false (connect dev)

  unfoldable pub oradar_disconnect : Handle W F D → Option (Bool × Handle W F D)
  unfolding with_driver disconnect
  oradar_disconnect = with_driver false (λ s. disconnect dev s >>= λ s'. some (true, s'))

  unfoldable pub oradar_set_rotation_speed : ℕ → Handle W F D → Option (Bool × Handle W F D)
  unfolding with_driver set_rotation_speed
  oradar_set_rotation_speed speed = with_driver false (set_rotation_speed dev (pos speed))

  unfoldable pub oradar_activate : Handle W F D → Option (Bool × Handle W F D)
  unfolding with_driver activate
  oradar_activate = with_driver false (activate dev)

  unfoldable pub oradar_deactive : Handle W F D → Option (Bool × Handle W F D)
  unfolding with_driver deactive
  oradar_deactive = with_driver false (deactive dev)

  unfoldable pub oradar_get_grabonescan_blocking :
      ℕ → Handle W F D → Option (Option (ScanData F D) × Handle W F D)
  unfolding with_driver grab_one_scan_blocking
  oradar_get_grabonescan_blocking timeout_ms =
      with_driver none (grab_one_scan_blocking dev timeout_ms)

  unfoldable pub oradar_get_grabfullscan_blocking :
      ℕ → Handle W F D → Option (Option (ScanData F D) × Handle W F D)
  unfolding with_driver grab_full_scan_blocking
  oradar_get_grabfullscan_blocking timeout_ms =
      with_driver none (grab_full_scan_blocking dev timeout_ms)

-- The string that a caller gets holds no zero byte, and what the lidar sent continues it, with a zero
-- byte first if anything was cut off.
pub c_string_lem :
    (bytes : List ℕ)
    → All (λ b. b ≢ 0) (c_string bytes) × (rest : List ℕ) × (bytes ≡ c_string bytes ++ rest)
unfolding c_string
c_string_lem [] = (tt, [], refl)
c_string_lem (b ∷ bytes) = elim (Bool-cases (b == 0)) [
  | inl z ↦ rw z (tt, b ∷ bytes, refl)
  | inr nz ↦
      let (clean, rest, e) = c_string_lem bytes in rw nz ((ground arith, clean), rest, ap (◌∷◌ b) e)
]
