-- ===== src/Base/Thread.antt =====
-- `Thread` of oradar_ros/sdk/core/base/thread.h. The calls of the systems are parameters; a handle of zero
-- says that there is no thread. Looking at a result that was not written is a fault, `none`.
use cqut_lgv.Common.{
  ℕ, ◌≡◌, ◌≢◌, refl, ap, ◌∙◌, Bool, Option, none, some, ◌==◌, if◌then◌else◌, if_either, arith,
}
use cqut_lgv.Common.Int.{ℤ, pos, negsuc}
use cqut_lgv.Base.Platforms.{Waited, wait_object_0, wait_abandoned, wait_timeout, wait_failed}

-- The members.
pub record Thread : Type 0 where
  pub param : ℕ
  pub func : ℕ
  pub handle : ℕ

-- What `pthread_join` does to the result: it is PTHREAD_CANCELED or another value, or the call fails
-- and writes none.
pub data Joined : Type 0 where
  canceled : Joined
  returned : Joined
  not_joined : Joined

-- The calls of pthread: `pthread_create` has the handle as it was, and gives the one it leaves.
pub record Pthread (M : Type 0) : Type 0 where
  pub pthread_create : ℕ → ℕ → ℕ → M → (ℕ × ℕ) × M
  pub pthread_cancel : ℕ → M → ℕ × M
  pub pthread_join : ℕ → M → Joined × M

-- `Thread::Thread()` and `Thread::Thread(proc, param)`
unfoldable pub no_thread : Thread
no_thread = record { param = 0; func = 0; handle = 0 }

unfoldable pub new_thread : ℕ → ℕ → Thread
new_thread proc param = record { param = param; func = proc; handle = 0 }

-- `operator==`
unfoldable pub same_thread : Thread → Thread → Bool
same_thread a b = a.handle == b.handle

module _ {M : Type 0} (sys : Pthread M) where
  -- What `pthread_create` answers is not looked at.
  unfoldable pub create_thread : ℕ → ℕ → M → Thread × M
  unfolding new_thread
  create_thread proc param m =
      let ((code, handle), m') = sys.pthread_create proc param 0 m in
      (record (new_thread proc param) { handle = handle }, m')

  unfoldable pub terminate : Thread → M → ℕ × M
  terminate t m = if t.handle == 0 then (0, m) else sys.pthread_cancel t.handle m

  -- The handle is cleared only if the thread was cancelled.
  unfoldable pub after_join : Joined → Thread → M → Option (ℤ × Thread × M)
  after_join canceled t m = some (pos 0, record t { handle = 0 }, m)
  after_join returned t m = some (pos 0, t, m)
  after_join not_joined t m = none

  -- `join` cancels the thread that it then waits for; the timeout is not looked at.
  unfoldable pub join : ℕ → Thread → M → Option (ℤ × Thread × M)
  unfolding after_join
  join timeout t m =
      if t.handle == 0
      then some (pos 0, t, m)
      else (let (code, m1) = sys.pthread_cancel t.handle m in
          let (result, m2) = sys.pthread_join t.handle m1 in after_join result t m2)

  -- What is joined.
  abbrev joined : Thread → M → Joined × M
  joined t m = sys.pthread_join t.handle (sys.pthread_cancel t.handle m).1

  join_real :
      (timeout : ℕ) (t : Thread) (m : M)
      → t.handle ≢ 0
      → join timeout t m ≡ after_join (joined t m).0 t (joined t m).1
  unfolding join
  join_real timeout t m real =
      let out = after_join (joined t m).0 t (joined t m).1 in
      if_either (λ r. r ≡ out) (t.handle == 0) (some (pos 0, t, m)) out (λ z. absurd (ground arith))
        (λ nz. refl)

  -- After `join` of a thread that was cancelled by it, a second `join` does nothing.
  join_canceled :
      (timeout : ℕ) (t : Thread) (m : M)
      → t.handle ≢ 0
      → (joined t m).0 ≡ canceled
      → (t' : Thread) × (join timeout t m ≡ some (pos 0, t', (joined t m).1))
        × (join timeout t' (joined t m).1 ≡ some (pos 0, t', (joined t m).1))
  unfolding join after_join
  join_canceled timeout t m real gone = (
    record t { handle = 0 },
    join_real timeout t m real ∙ ap (λ r. after_join r t (joined t m).1) gone,
    refl,
  )

  -- After `join` of a thread that had returned, the handle is still there: a second `join` cancels and joins
  -- the same handle again, what POSIX leaves undefined.
  join_returned :
      (timeout : ℕ) (t : Thread) (m : M)
      → t.handle ≢ 0
      → (joined t m).0 ≡ returned
      → let m2 = (joined t m).1 in
        (join timeout t m ≡ some (pos 0, t, m2))
        × (join timeout t m2 ≡ after_join (joined t m2).0 t (joined t m2).1)
  unfolding after_join
  join_returned timeout t m real done = (
    join_real timeout t m real ∙ ap (λ r. after_join r t (joined t m).1) done,
    join_real timeout t (joined t m).1 real,
  )

-- The calls for Windows: `TerminateThread` and `WaitForSingleObject`.
pub record Win32 (M : Type 0) : Type 0 where
  pub begin_thread : ℕ → ℕ → M → ℕ × M
  pub terminate_thread : ℕ → M → Bool × M
  pub wait_for_single_object : ℕ → ℕ → M → Waited × M
  pub close_handle : ℕ → M → M

module _ {M : Type 0} (win : Win32 M) where
  unfoldable pub win_create_thread : ℕ → ℕ → M → Thread × M
  unfolding new_thread
  win_create_thread proc param m =
      let (handle, m') = win.begin_thread proc param m in
      (record (new_thread proc param) { handle = handle }, m')

  unfoldable pub win_terminate : Thread → M → ℤ × Thread × M
  win_terminate t m =
      if t.handle == 0
      then (pos 0, t, m)
      else (let (done, m') = win.terminate_thread t.handle m in
          if done
          then (pos 0, record t { handle = 0 }, win.close_handle t.handle m')
          else (negsuc 1, t, m'))

  -- The switch of `join`; an answer without a case goes on to `return 0`.
  unfoldable pub win_after_wait : Waited → Thread → M → ℤ × Thread × M
  win_after_wait wait_object_0 t m = (pos 0, record t { handle = 0 }, win.close_handle t.handle m)
  win_after_wait wait_abandoned t m = (negsuc 1, t, m)
  win_after_wait wait_timeout t m = (negsuc 0, t, m)
  win_after_wait wait_failed t m = (pos 0, t, m)

  unfoldable pub win_join : ℕ → Thread → M → ℤ × Thread × M
  unfolding win_after_wait
  win_join timeout t m =
      if t.handle == 0
      then (pos 0, t, m)
      else (let (answer, m') = win.wait_for_single_object t.handle timeout m in
          win_after_wait answer t m')
