-- ===== src/Driver/Device.antt =====
-- The channel to the lidar, oradar_ros/sdk/core/common/ChannelDevice.h: what the driver calls of it.
-- `W` is the world behind the interface, whose implementation is a library.
use cqut_lgv.Common.{ℕ, Bool, true, Option, List, []}
use cqut_lgv.Common.Int.{ℤ}

-- A round of the receive thread: nothing came within its 500 ms, or bytes were read.
pub data Arrival : Type 0 where
  silence : Arrival
  received : List ℕ → Arrival

-- `ChannelDevice`. What the receive thread gets is grouped by what the caller of the driver waits for:
-- the rounds of a number of milliseconds, those of a wait for an event, and the one round that may be
-- running when the thread is told to stop.
pub record ChannelDevice (W : Type 0) : Type 0 where
  pub open_port : W → Bool × W
  pub is_open : W → Bool
  pub close_port : W → W
  pub write_data : List ℕ → W → ℤ × W
  pub arrivals : ℕ → W → List Arrival × W
  pub awaited : ℕ → W → List Arrival × W
  pub last_arrival : W → Option Arrival × W

-- The bodies that the interface gives its other operations, for an implementation that has none.
unfoldable pub bindport : List ℕ → ℕ → Bool
bindport name rate = true

unfoldable pub set_dtr : Bool → Bool
set_dtr level = true

unfoldable pub get_byte_time : ℕ
get_byte_time = 0

unfoldable pub describe_error : List ℕ
describe_error = []
