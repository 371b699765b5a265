-- ===== src/Base/Event.antt =====
-- `Event` of oradar_ros/sdk/core/base/locker.h, as it is built on Linux: a condition variable with its
-- mutex and no memory of its own. The calls of pthread and of the clock are parameters.
use cqut_lgv.Common.{ℕ, ◌≡◌, ap, ◌∙◌, Bool, true, false, ◌==◌, if◌then◌else◌}
use cqut_lgv.Base.Timer.{Timespec, wait_deadline}
use cqut_lgv.Base.Locker.{etimedout, infinite}

pub data EventStatus : Type 0 where
  event_ok : EventStatus
  event_timeout : EventStatus
  event_failed : EventStatus

-- The mutex and the condition variable of an `Event`, and the monotonic clock. What `pthread_cond_wait`
-- answers is not looked at.
pub record Condition (M : Type 0) : Type 0 where
  pub mutex_lock : M → M
  pub mutex_unlock : M → M
  pub cond_signal : M → M
  pub cond_wait : M → M
  pub cond_timedwait : Timespec → M → ℕ × M
  pub clock_gettime : M → Timespec × M

-- The switch over what `pthread_cond_timedwait` answers.
abbrev pub event_status : ℕ → EventStatus
event_status code =
    if code == 0 then event_ok else if code == etimedout then event_timeout else event_failed

module _ {M : Type 0} (sys : Condition M) where
  unfoldable pub set : Bool → M → M
  set true m = sys.mutex_unlock (sys.cond_signal (sys.mutex_lock m))
  set false m = sys.mutex_unlock (sys.mutex_lock m)

  unfoldable pub wait : ℕ → M → EventStatus × M
  wait timeout m =
      let locked = sys.mutex_lock m in
      if timeout == infinite
      then (event_ok, sys.mutex_unlock (sys.cond_wait locked))
      else (let (now, m') = sys.clock_gettime locked in
          let (code, m'') = sys.cond_timedwait (wait_deadline timeout now) m' in
          (event_status code, sys.mutex_unlock m''))

  -- What POSIX says of the calls: a signal has no effect if no thread waits, taking the mutex lets no
  -- thread wait, and a free mutex that is taken and given back is as before.
  pub record Posix (NoWaiter Free : M → Type 0) : Type 0 where
    pub signals : (m : M) → NoWaiter m → sys.cond_signal m ≡ m
    pub takes : (m : M) → NoWaiter m → NoWaiter (sys.mutex_lock m)
    pub gives_back : (m : M) → Free m → sys.mutex_unlock (sys.mutex_lock m) ≡ m

  -- A `set` for which no thread waits is lost, whether it signals or not: it leaves a
  -- later `wait` as it would have been.
  pub wait-set :
      (NoWaiter Free : M → Type 0) (signal : Bool) (timeout : ℕ) (m : M)
      → Posix NoWaiter Free
      → NoWaiter m
      → Free m
      → wait timeout (set signal m) ≡ wait timeout m
  unfolding set
  wait-set NoWaiter Free true timeout m posix none_waits free = ap (wait timeout) (
      ap sys.mutex_unlock (posix.signals (sys.mutex_lock m) (posix.takes m none_waits))
      ∙ posix.gives_back m free)
  wait-set NoWaiter Free false timeout m posix none_waits free =
      ap (wait timeout) (posix.gives_back m free)
