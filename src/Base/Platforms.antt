-- ===== src/Base/Platforms.antt =====
-- `Locker::lock` and `Event::wait` of oradar_ros/sdk/core/base/locker.h as they are built for Windows, macOS and
-- Android, and the clocks of timer.cpp for Windows. The calls of the systems are parameters.
use cqut_lgv.Common.{
  ℕ, zero, suc, ◌+◌, ◌*◌, ◌/◌, ◌%◌, ◌^◌, ◌<◌, ◌≡◌, refl, Bool, not, ◌&&◌, Option, none, some, leb,
  ◌==◌, if◌then◌else◌, arith,
}
use cqut_lgv.Base.Timer.{Timespec, lock_deadline}
use cqut_lgv.Base.Locker.{LockStatus, lock_ok, lock_timeout, lock_failed, infinite, Mutex, status}
use cqut_lgv.Base.Event.{EventStatus, event_ok, event_timeout, event_failed}

-- The clocks of oradar_ros/sdk/core/base/timer.cpp for Windows. `HPtimer_reset` keeps the counts of a
-- millisecond, and a counter with fewer than a thousand counts in a second is a division by zero.
unfoldable pub hptimer_reset : ℕ → ℕ
hptimer_reset frequency = frequency / 1000

unfoldable pub win_get_hd_timer : ℕ → ℕ → Option ℕ
win_get_hd_timer current_freq counter =
    if current_freq == 0 then none else some ((counter / current_freq) % 2 ^ 32)

-- The two halves of a FILETIME, which counts tenths of a microsecond.
unfoldable pub win_get_current_time : ℕ → ℕ → ℕ
win_get_current_time high low = ((high * 2 ^ 32 + low) * 100) % 2 ^ 64

-- What `WaitForSingleObject` answers.
pub data Waited : Type 0 where
  wait_object_0 : Waited
  wait_abandoned : Waited
  wait_timeout : Waited
  wait_failed : Waited

-- The milliseconds that are handed to it; INFINITE is 0xFFFFFFFF. The source compares with
-- 0xFFFFFFF, which has seven digits.
unfoldable pub win_timeout : ℕ → ℕ
win_timeout timeout = if timeout == 0xFFFFFFF then infinite else timeout

module _ {M : Type 0} (wait_for_single_object : ℕ → M → Waited × M) where
  -- The switch of `Locker::lock`; other answers go on to `return LOCK_FAILED`.
  abbrev pub win_lock_status : Waited → LockStatus
  win_lock_status wait_object_0 = lock_ok
  win_lock_status wait_abandoned = lock_failed
  win_lock_status wait_timeout = lock_timeout
  win_lock_status wait_failed = lock_failed

  unfoldable pub win_lock : ℕ → M → LockStatus × M
  unfolding win_timeout
  win_lock timeout m =
      let (answer, m') = wait_for_single_object (win_timeout timeout) m in
      (win_lock_status answer, m')

  -- The switch of `Event::wait`; other answers go on to `return EVENT_OK`.
  abbrev pub win_event_status : Waited → EventStatus
  win_event_status wait_object_0 = event_ok
  win_event_status wait_abandoned = event_ok
  win_event_status wait_timeout = event_timeout
  win_event_status wait_failed = event_failed

  unfoldable pub win_wait : ℕ → M → EventStatus × M
  unfolding win_timeout
  win_wait timeout m =
      let (answer, m') = wait_for_single_object (win_timeout timeout) m in
      (win_event_status answer, m')

module _ {M : Type 0} (sys : Mutex M) where
  -- On macOS a timeout other than zero is not looked at.
  unfoldable pub mac_lock : ℕ → M → LockStatus × M
  mac_lock timeout m =
      if not (timeout == 0)
      then (let (code, m') = sys.mutex_lock m in (status code, m'))
      else (let (code, m') = sys.mutex_trylock m in (status code, m'))

-- `EBUSY`
abbrev pub ebusy : ℕ
ebusy = 16

-- The test of the polling loop for Android, on a clock with seconds and microseconds.
unfoldable pub is_expired : ℕ × ℕ → Timespec → Bool
is_expired (tv_sec, tv_usec) t = leb t.tv_sec tv_sec && leb t.tv_nsec (tv_usec * 1000)

module _ {M : Type 0} (sys : Mutex M) (nanosleep : ℕ → M → M) where
  -- The polling loop on fuel; `none` means that the fuel ran out. Every answer of
  -- `pthread_mutex_trylock` but EBUSY ends it with LOCK_OK.
  unfoldable pub poll_lock : ℕ → Timespec → M → Option (LockStatus × M)
  unfolding is_expired
  poll_lock zero t m = none
  poll_lock (suc fuel) t m =
      let (code, m1) = sys.mutex_trylock m in
      let (now, m2) = sys.gettimeofday m1 in
      let again = poll_lock fuel t (nanosleep 10000000 m2) in
      if not (code == ebusy)
      then some (lock_ok, m1)
      else if is_expired now t
      then some (lock_timeout, m2)
      else again

  unfoldable pub android_lock : ℕ → ℕ → M → Option (LockStatus × M)
  unfolding poll_lock
  android_lock fuel timeout m =
      if timeout == infinite
      then (let (code, m') = sys.mutex_lock m in some (status code, m'))
      else if timeout == 0
      then (let (code, m') = sys.mutex_trylock m in some (status code, m'))
      else (let ((tv_sec, tv_usec), m') = sys.gettimeofday m in
          poll_lock fuel (lock_deadline timeout tv_sec tv_usec) m')

  -- The state in front of the polls that are to come.
  unfoldable pub after_polls : ℕ → M → M
  after_polls zero m = m
  after_polls (suc n) m =
      after_polls n (nanosleep 10000000 (sys.gettimeofday (sys.mutex_trylock m).1).1)

  -- A poll that finds the mutex taken, at a time whose fraction of a second lies before that of the
  -- deadline.
  pub record IsMissed (t : Timespec) (m : M) : Type 0 where
    pub taken : (sys.mutex_trylock m).0 ≡ ebusy
    pub early : (sys.gettimeofday (sys.mutex_trylock m).1).0.1 * 1000 < t.tv_nsec

  -- On Android a lock with a deadline can wait for ever: as long as the mutex is taken and every poll
  -- is at a time whose fraction of a second lies before that of the deadline, the loop goes on,
  -- however many seconds have passed since the deadline.
  pub poll_lock-IsMissed :
      (fuel : ℕ) (t : Timespec) (m : M)
      → ((n : ℕ) → IsMissed t (after_polls n m))
      → poll_lock fuel t m ≡ none
  unfolding poll_lock after_polls
  poll_lock-IsMissed zero t m missed = refl
  poll_lock-IsMissed (suc fuel) t m missed =
      let first = missed 0 in
      let next = nanosleep 10000000 (sys.gettimeofday (sys.mutex_trylock m).1).1 in
      let rest = poll_lock-IsMissed fuel t next (λ n. missed (suc n)) in
      ground (arith, first.taken, first.early)
