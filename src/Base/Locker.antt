-- ===== src/Base/Locker.antt =====
-- `Locker` of oradar_ros/sdk/core/base/locker.h, as it is built on Linux: a mutex with a timeout. The calls
-- of pthread and of the clock are parameters.
use cqut_lgv.Common.{
  ℕ, ◌+◌, ◌*◌, ◌^◌, ◌≤◌, ◌<◌, ◌≡◌, ◌≢◌, ◌↔◌, ◌⊎◌, inl, inr, Bool-cases, ◌==◌, if◌then◌else◌, arith,
}
use cqut_lgv.Base.Timer.{Timespec, IsNormal, nanoseconds, lock_deadline, deadline_lem}

pub data LockStatus : Type 0 where
  lock_ok : LockStatus
  lock_timeout : LockStatus
  lock_failed : LockStatus

-- `ETIMEDOUT`
abbrev pub etimedout : ℕ
etimedout = 110

-- The default of the timeouts, 0xFFFFFFFF.
abbrev pub infinite : ℕ
infinite = 0xFFFFFFFF

-- The mutex of a `Locker`, and the clock: what the calls answer and do to the world `M`.
pub record Mutex (M : Type 0) : Type 0 where
  pub mutex_lock : M → ℕ × M
  pub mutex_trylock : M → ℕ × M
  pub mutex_timedlock : Timespec → M → ℕ × M
  pub mutex_unlock : M → M
  -- Seconds and microseconds.
  pub gettimeofday : M → (ℕ × ℕ) × M

-- After `pthread_mutex_lock` and `pthread_mutex_trylock`.
abbrev pub status : ℕ → LockStatus
status code = if code == 0 then lock_ok else lock_failed

-- The switch over what `pthread_mutex_timedlock` answers.
abbrev pub timed_status : ℕ → LockStatus
timed_status code =
    if code == 0 then lock_ok else if code == etimedout then lock_timeout else lock_failed

status_lem : (code : ℕ) → (status code ≡ lock_ok) ↔ (code ≡ 0)
status_lem code = ground arith

status_ne : (code : ℕ) → status code ≢ lock_timeout
status_ne code = ground arith

timed_status_lem : (code : ℕ) → (timed_status code ≡ lock_ok) ↔ (code ≡ 0)
timed_status_lem code = ground arith

timed_status_ne : (code : ℕ) → code ≢ etimedout → timed_status code ≢ lock_timeout
timed_status_ne code other = ground arith

both {ℓ κ μ} : {A : Type ℓ} {B : Type κ} {C : Type μ} → A ↔ B → B ↔ C → A ↔ C
both (f, g) (h, k) = (λ a. h (f a), λ c. g (k c))

module _ {M : Type 0} (sys : Mutex M) where
  unfoldable pub lock : ℕ → M → LockStatus × M
  lock timeout m =
      if timeout == infinite
      then (let (code, m') = sys.mutex_lock m in (status code, m'))
      else if timeout == 0
      then (let (code, m') = sys.mutex_trylock m in (status code, m'))
      else (let ((tv_sec, tv_usec), m') = sys.gettimeofday m in
          let (code, m'') = sys.mutex_timedlock (lock_deadline timeout tv_sec tv_usec) m' in
          (timed_status code, m''))

  unfoldable pub unlock : M → M
  unlock m = sys.mutex_unlock m

  -- What POSIX says of the calls for a mutex of the default type that the caller does not hold: `Holds`
  -- says that the caller has the mutex, and `now` is the time in nanoseconds. `pthread_mutex_lock`
  -- waits for the mutex; `pthread_mutex_trylock` does not wait; `pthread_mutex_timedlock` answers
  -- ETIMEDOUT only when its deadline has passed; the clock is cut off to microseconds.
  pub record Posix (Holds : M → Type 0) (now : M → ℕ) : Type 0 where
    pub locks : (m : M) → ¬ Holds m → ((sys.mutex_lock m).0 ≡ 0) × Holds (sys.mutex_lock m).1
    pub trylocks :
        (m : M) → ¬ Holds m → ((sys.mutex_trylock m).0 ≡ 0) ↔ Holds (sys.mutex_trylock m).1
    pub returns : (m : M) → now (sys.mutex_trylock m).1 ≡ now m
    pub timedlocks :
        (t : Timespec) (m : M)
        → ¬ Holds m
        → ((sys.mutex_timedlock t m).0 ≡ 0) ↔ Holds (sys.mutex_timedlock t m).1
    pub expires :
        (t : Timespec) (m : M)
        → IsNormal t
        → (sys.mutex_timedlock t m).0 ≡ etimedout
        → nanoseconds t ≤ now (sys.mutex_timedlock t m).1
    pub reads_clock : (m : M) → ¬ Holds m → ¬ Holds (sys.gettimeofday m).1
    pub clock_sec : (m : M) → now m < 2 ^ 63 * 1000000000 → (sys.gettimeofday m).0.0 < 2 ^ 63
    pub clock_usec : (m : M) → (sys.gettimeofday m).0.1 < 1000000
    pub clock_now :
        (m : M)
        → now m < (sys.gettimeofday m).0.0 * 1000000000 + (sys.gettimeofday m).0.1 * 1000 + 1000

  -- What `lock` gives for a timeout in milliseconds.
  abbrev pub Waits : (M → Type 0) → (M → ℕ) → ℕ → M → LockStatus × M → Type 0
  Waits Holds now timeout m got =
      ((timeout ≡ infinite) × (got.0 ≡ lock_ok) × Holds got.1)
      ⊎ (((timeout ≡ 0)
            × ((got.0 ≡ lock_ok) ↔ Holds got.1)
            × (got.0 ≢ lock_timeout)
            × (now got.1 ≡ now m))
          ⊎ ((timeout ≢ infinite)
              × (timeout ≢ 0)
              × ((got.0 ≡ lock_ok) ↔ Holds got.1)
              × ((got.0 ≢ lock_timeout) ⊎ (now m + timeout * 1000000 < now got.1 + 1000))))

  lock_deadline_late :
      (Holds : M → Type 0) (now : M → ℕ) (timeout : ℕ) (m : M)
      → Posix Holds now
      → timeout < 2 ^ 64
      → now m < 2 ^ 63 * 1000000000
      → let t = lock_deadline timeout (sys.gettimeofday m).0.0 (sys.gettimeofday m).0.1 in
        IsNormal t × (now m + timeout * 1000000 < nanoseconds t + 1000)
  lock_deadline_late Holds now timeout m posix fits early =
      let sec = posix.clock_sec m early in
      let usec = posix.clock_usec m in
      let read = posix.clock_now m in
      let clock : Timespec = record { tv_sec = (sys.gettimeofday m).0.0; tv_nsec = 0 } in
      let (_, _, normal, late) =
        deadline_lem timeout (sys.gettimeofday m).0.1 clock (omega arith) usec (omega arith) in
      (normal, omega arith)

  timed-Waits :
      (Holds : M → Type 0) (now : M → ℕ) (timeout : ℕ) (m : M)
      → Posix Holds now
      → timeout < 2 ^ 64
      → now m < 2 ^ 63 * 1000000000
      → let (code, m') =
          sys.mutex_timedlock
            (lock_deadline timeout (sys.gettimeofday m).0.0 (sys.gettimeofday m).0.1)
            (sys.gettimeofday m).1 in
        (timed_status code ≢ lock_timeout) ⊎ (now m + timeout * 1000000 < now m' + 1000)
  timed-Waits Holds now timeout m posix fits early =
      let t = lock_deadline timeout (sys.gettimeofday m).0.0 (sys.gettimeofday m).0.1 in
      let m1 = (sys.gettimeofday m).1 in
      let (normal, late) = lock_deadline_late Holds now timeout m posix fits early in
      elim (Bool-cases ((sys.mutex_timedlock t m1).0 == etimedout)) [
        | inr other ↦ inl (timed_status_ne (sys.mutex_timedlock t m1).0 (ground arith))
        | inl expired ↦ let passed = posix.expires t m1 normal (ground arith) in inr (omega arith)
      ]

  -- If the calls of pthread do what POSIX says for a mutex of the default type, the caller does not hold
  -- the mutex, the timeout has 64 bits, and the clock has not reached 2^63 seconds: without a limit, `lock` answers LOCK_OK and the caller holds the mutex. With a timeout of
  -- zero it takes no time, never answers LOCK_TIMEOUT, and answers LOCK_OK exactly when the caller holds
  -- the mutex. With any other timeout it answers LOCK_OK exactly when the caller holds the mutex, and
  -- LOCK_TIMEOUT no sooner than so many milliseconds after the call, to the microsecond.
  pub lock-Waits :
      (Holds : M → Type 0) (now : M → ℕ) (timeout : ℕ) (m : M)
      → Posix Holds now
      → timeout < 2 ^ 64
      → now m < 2 ^ 63 * 1000000000
      → ¬ Holds m
      → Waits Holds now timeout m (lock timeout m)
  unfolding lock
  lock-Waits Holds now timeout m posix fits early free = elim (Bool-cases (timeout == infinite)) [
    | inl forever ↦
        let (ok, held) = posix.locks m free in
        rw forever (inl (ground arith, (status_lem (sys.mutex_lock m).0).1 ok, held))
    | inr finite ↦ elim (Bool-cases (timeout == 0)) [
      | inl at_once ↦
          rw (finite, at_once)
            (inr (
              inl (
                ground arith,
                both (status_lem (sys.mutex_trylock m).0) (posix.trylocks m free),
                status_ne (sys.mutex_trylock m).0,
                posix.returns m,
              )))
      | inr later ↦
          let m' = (sys.gettimeofday m).1 in
          let t = lock_deadline timeout (sys.gettimeofday m).0.0 (sys.gettimeofday m).0.1 in
          rw (finite, later)
            (inr (
              inr (
                ground arith,
                ground arith,
                both (timed_status_lem (sys.mutex_timedlock t m').0)
                    (posix.timedlocks t m' (posix.reads_clock m free)),
                timed-Waits Holds now timeout m posix fits early,
              )))
    ]
  ]
