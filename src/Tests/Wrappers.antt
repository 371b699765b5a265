-- ===== src/Tests/Wrappers.antt =====
-- Threads that return, and a lock that is polled for: oradar_ros/sdk/core/base.
use cqut_lgv.Common.{ℕ, suc, ◌≡◌, refl, some, Bool, true, false, none, arith}
use cqut_lgv.Common.Int.{pos}
use cqut_lgv.Base.Timer.{Timespec}
use cqut_lgv.Base.Locker.{Mutex}
use cqut_lgv.Base.Platforms.{ebusy, poll_lock, after_polls, IsMissed, poll_lock-IsMissed}
use cqut_lgv.Base.Thread
use cqut_lgv.Base.Thread.{Pthread, returned, join}

-- A thread that has returned when it is joined.
abbrev finishing : Pthread Bool
finishing = record {
  pthread_create = λ proc param old gone. ((0, 1), false);
  pthread_cancel = λ h gone. (0, gone);
  pthread_join = λ h gone. (returned, true);
}

abbrev worker : Thread.Thread
worker = record { param = 0; func = 0; handle = 1 }

join_keeps_handle : join finishing 1000 worker false ≡ some (pos 0, worker, true)
unfolding join
join_keeps_handle = refl

-- Another thread keeps the mutex, and each poll comes at the start of a second.
abbrev crowded : Mutex ℕ
crowded = record {
  mutex_lock = λ w. (0, w);
  mutex_trylock = λ w. (ebusy, w);
  mutex_timedlock = λ t w. (0, w);
  mutex_unlock = λ w. w;
  gettimeofday = λ w. ((w, 0), suc w);
}

abbrev half_past : Timespec
half_past = record { tv_sec = 2; tv_nsec = 500000000 }

crowded-IsMissed : (w : ℕ) → IsMissed crowded (λ ns w. w) half_past w
crowded-IsMissed w = record { taken = refl; early = omega arith }

poll_lock-IsMissed_example : poll_lock crowded (λ ns w. w) 20 half_past 0 ≡ none
poll_lock-IsMissed_example =
    poll_lock-IsMissed crowded (λ ns w. w) 20 half_past 0
      (λ n. crowded-IsMissed (after_polls crowded (λ ns w. w) n 0))
