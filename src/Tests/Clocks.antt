-- ===== src/Tests/Clocks.antt =====
-- The clock and the mutex on a world that one thread has for itself: oradar_ros/sdk/core/base.
use cqut_lgv.Common.{ℕ, ◌+◌, ◌*◌, ◌/◌, ◌%◌, ◌≡◌, refl, Bool, true, false, arith}
use cqut_lgv.Base.Timer.{
  get_hd_timer, Timespec, IsNormal, nanoseconds, wait_deadline, lock_deadline, deadline_lem,
}
use cqut_lgv.Base.Locker
use cqut_lgv.Base.Locker.{LockStatus, lock_timeout, lock_failed, Mutex, lock, etimedout, lock-Waits}

-- Another thread keeps the mutex for ten seconds more: only who waits without a limit gets it. The world is
-- the time, and whether the caller has the mutex.
abbrev kept : Mutex (ℕ × Bool)
kept = record {
  mutex_lock = λ w. (0, (w.0 + 10000000000, true));
  mutex_trylock = λ w. (16, w);
  mutex_timedlock = λ t w. (etimedout, (nanoseconds t + w.0, w.1));
  mutex_unlock = λ w. (w.0, false);
  gettimeofday = λ w. ((w.0 / 1000000000, w.0 % 1000000000 / 1000), w);
}

abbrev IsHeld : ℕ × Bool → Type 0
IsHeld w = w.1 ≡ true

abbrev time : ℕ × Bool → ℕ
time w = w.0

kept-Posix : Locker.Posix kept IsHeld time
kept-Posix = record {
  locks = λ m free. (refl, refl);
  trylocks = λ m free. (λ e. absurd (omega arith), λ h. absurd (free h));
  returns = λ m. refl;
  timedlocks = λ t m free. (λ e. absurd (omega arith), λ h. absurd (free h));
  expires = λ t m normal e. omega arith;
  reads_clock = λ m free. free;
  clock_sec = λ m early. omega arith;
  clock_usec = λ m. omega arith;
  clock_now = λ m. omega arith;
}

abbrev patience : ℕ
patience = 300

lock_times_out :
    lock kept patience (5900000000, false) ≡ (lock_timeout, (6200000000 + 5900000000, false))
unfolding lock lock_deadline
lock_times_out = refl

lock_at_once : lock kept 0 (5900000000, false) ≡ (lock_failed, (5900000000, false))
unfolding lock
lock_at_once = refl

lock-Waits_example :
    Locker.Waits kept IsHeld time patience
      (5900000000, false)
      (lock kept patience (5900000000, false))
lock-Waits_example =
    lock-Waits kept IsHeld time patience (5900000000, false) kept-Posix (omega arith) (omega arith)
      (λ h. ground arith)

abbrev early : Timespec
early = record { tv_sec = 5; tv_nsec = 900000000 }

deadline_lem_example :
    IsNormal (wait_deadline 300 early)
    × (nanoseconds (wait_deadline 300 early) ≡ nanoseconds early + 300 * 1000000)
    × IsNormal (lock_deadline 300 5 900000)
    × (nanoseconds (lock_deadline 300 5 900000) ≡ 5 * 1000000000 + 900000 * 1000 + 300 * 1000000)
deadline_lem_example = deadline_lem 300 900000 early (omega arith) (omega arith) (omega arith)

-- Ten seconds during which the counter wraps around.
abbrev before_wrap : Timespec
before_wrap = record { tv_sec = 4294960; tv_nsec = 0 }

abbrev after_wrap : Timespec
after_wrap = record { tv_sec = 4294970; tv_nsec = 0 }

wraps : get_hd_timer after_wrap ≡ 2704
unfolding get_hd_timer
wraps = refl
