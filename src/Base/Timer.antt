-- ===== src/Base/Timer.antt =====
-- The clocks and the delay of oradar_ros/sdk/core/base/timer.h and timer.cpp, and the deadlines that
-- oradar_ros/sdk/core/base/locker.h makes of a clock.
use cqut_lgv.Common.{
  ℕ, zero, suc, ◌+◌, ◌-◌, ◌*◌, ◌/◌, ◌%◌, ◌^◌, ◌≤◌, ◌<◌, ◌≡◌, refl, ◌∙◌, inl, inr, Bool-cases,
  Option, none, some, List, [], ◌∷◌, ◌>>=◌, leb, ◌==◌, if◌then◌else◌, All, arith,
}

-- `struct timespec` after the epoch.
pub record Timespec : Type 0 where
  pub tv_sec : ℕ
  pub tv_nsec : ℕ

-- What a clock gives: less than a second of nanoseconds.
abbrev pub IsNormal : Timespec → Type 0
IsNormal t = t.tv_nsec < 1000000000

abbrev pub nanoseconds : Timespec → ℕ
nanoseconds t = t.tv_sec * 1000000000 + t.tv_nsec

abbrev pub milliseconds : Timespec → ℕ
milliseconds t = nanoseconds t / 1000000

-- `impl::getHDTimer`, given what the clock shows: a `uint32_t`.
unfoldable pub get_hd_timer : Timespec → ℕ
get_hd_timer t = (t.tv_sec * 1000 + t.tv_nsec / 1000000) % 2 ^ 32

-- `impl::getCurrentTime`, in nanoseconds, a `uint64_t`: from `clock_gettime`, and from `gettimeofday` where
-- there is no such clock.
unfoldable pub get_current_time : Timespec → ℕ
get_current_time t = (t.tv_sec * 1000000000 + t.tv_nsec) % 2 ^ 64

unfoldable pub get_time_of_day : ℕ × ℕ → ℕ
get_time_of_day (tv_sec, tv_usec) = (tv_sec * 1000000000 + tv_usec * 1000) % 2 ^ 64

-- The arguments of `usleep` in `delay`, on fuel; `none` means that the fuel ran out.
unfoldable pub delay_loop : ℕ → ℕ → Option (List ℕ)
delay_loop zero ms = none
delay_loop (suc fuel) ms =
    let rest = delay_loop fuel (ms - 1000) in
    if leb 1000 ms
    then (rest >>= λ sleeps. some (1000 * 1000 ∷ sleeps))
    else if ms == 0
    then some []
    else some ((ms * 1000) % 2 ^ 32 ∷ [])

unfoldable pub delay_sleeps : ℕ → Option (List ℕ)
unfolding delay_loop
delay_sleeps ms = delay_loop (suc ms) ms

abbrev pub sum : List ℕ → ℕ
sum [] = 0
sum (x ∷ xs) = x + sum xs

delay_loop_lem :
    (fuel ms : ℕ)
    → ms < fuel
    → (sleeps : List ℕ) × (delay_loop fuel ms ≡ some sleeps)
      × (sum sleeps ≡ ms * 1000)
      × All (λ us. us ≤ 1000000) sleeps
unfolding delay_loop
delay_loop_lem zero ms enough = absurd (omega arith)
delay_loop_lem (suc fuel) ms enough = elim (Bool-cases (leb 1000 ms)) [
  | inl long ↦
      let (sleeps, e, total, each) = delay_loop_lem fuel (ms - 1000) (ground arith) in
      (1000 * 1000 ∷ sleeps, rw (long, e) refl, ground arith, (omega arith, each))
  | inr short ↦ elim (Bool-cases (ms == 0)) [
    | inl still ↦ ([], rw (short, still) refl, ground arith, tt)
    | inr some_ms ↦
        ((ms * 1000) % 2 ^ 32 ∷ [], rw (short, some_ms) refl, ground arith, (ground arith, tt))
  ]
]

-- `delay` ends, for every number of milliseconds; it sleeps for exactly so long, and no single sleep
-- is longer than a second.
pub delay_sleeps_lem :
    (ms : ℕ)
    → (sleeps : List ℕ) × (delay_sleeps ms ≡ some sleeps)
      × (sum sleeps ≡ ms * 1000)
      × All (λ us. us ≤ 1000000) sleeps
unfolding delay_sleeps
delay_sleeps_lem ms = delay_loop_lem (suc ms) ms (omega arith)

-- A second is carried.
abbrev pub carried : Timespec → Timespec
carried t =
    if leb 1000000000 t.tv_nsec
    then record { tv_sec = suc t.tv_sec; tv_nsec = t.tv_nsec - 1000000000 }
    else t

carried_lem :
    (t : Timespec)
    → t.tv_nsec < 2000000000
    → IsNormal (carried t) × (nanoseconds (carried t) ≡ nanoseconds t)
carried_lem t small = elim (Bool-cases (leb 1000000000 t.tv_nsec)) [
  | inl more ↦ rw more (ground arith)
  | inr less ↦ rw less (ground arith)
]

-- The deadline of `Locker::lock`: `gettimeofday` gives microseconds.
unfoldable pub lock_deadline : ℕ → ℕ → ℕ → Timespec
lock_deadline timeout tv_sec tv_usec = carried (record {
  tv_sec = (timeout / 1000 + tv_sec) % 2 ^ 64;
  tv_nsec = (timeout % 1000) * 1000000 + tv_usec * 1000;
})

-- The deadline of `Event::wait`.
unfoldable pub wait_deadline : ℕ → Timespec → Timespec
wait_deadline timeout now = carried (record {
  tv_sec = (now.tv_sec + timeout / 1000) % 2 ^ 64;
  tv_nsec = now.tv_nsec + (timeout % 1000) * 1000000;
})

-- Both deadlines are the time of the clock and the milliseconds of the timeout later, to the nanosecond,
-- with less than a second of nanoseconds, as the system calls want them, if the clock's values are in
-- range and the seconds do not wrap.
pub deadline_lem :
    (timeout tv_usec : ℕ) (now : Timespec)
    → IsNormal now
    → tv_usec < 1000000
    → now.tv_sec + timeout / 1000 < 2 ^ 64
    → IsNormal (wait_deadline timeout now)
      × (nanoseconds (wait_deadline timeout now) ≡ nanoseconds now + timeout * 1000000)
      × IsNormal (lock_deadline timeout now.tv_sec tv_usec)
      × (nanoseconds (lock_deadline timeout now.tv_sec tv_usec)
          ≡ now.tv_sec * 1000000000 + tv_usec * 1000 + timeout * 1000000)
unfolding wait_deadline lock_deadline
deadline_lem timeout tv_usec now normal usec small =
    let (w, we) =
      carried_lem
        (record {
          tv_sec = (now.tv_sec + timeout / 1000) % 2 ^ 64;
          tv_nsec = now.tv_nsec + (timeout % 1000) * 1000000;
        })
        (omega arith) in
    let (l, le) =
      carried_lem
        (record {
          tv_sec = (timeout / 1000 + now.tv_sec) % 2 ^ 64;
          tv_nsec = (timeout % 1000) * 1000000 + tv_usec * 1000;
        })
        (omega arith) in
    (w, we ∙ omega arith, l, le ∙ omega arith)
