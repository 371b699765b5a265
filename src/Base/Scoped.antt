-- ===== src/Base/Scoped.antt =====
-- How a `Locker`, an `Event` and a `ScopedLocker` of oradar_ros/sdk/core/base/locker.h are made and destroyed
-- on Linux. The calls of pthread are parameters.
use cqut_lgv.Common.{ℕ, Bool}
use cqut_lgv.Base.Locker.{infinite, Mutex, lock, unlock}

-- The calls that make and destroy a mutex and a condition variable, and its attributes.
pub record Lifetime (M : Type 0) : Type 0 where
  pub mutex_init : M → M
  pub mutex_destroy : M → M
  pub condattr_init : M → ℕ × M
  pub condattr_setclock : M → ℕ × M
  pub condattr_destroy : M → M
  pub cond_init : M → ℕ × M
  pub cond_destroy : M → M

module _ {M : Type 0} (life : Lifetime M) where
  -- `Event::Event`, which looks at neither of its arguments; a failed `pthread_condattr_init` is printed.
  unfoldable pub new_event : Bool → Bool → M → M
  new_event auto_reset signal m =
      (life.cond_init (life.mutex_init (life.condattr_setclock (life.condattr_init m).1).1)).1

  -- `Event::release`
  unfoldable pub release_event : M → M
  release_event m = life.cond_destroy (life.mutex_destroy (life.condattr_destroy m))

module _ {M : Type 0} (sys : Mutex M) (life : Lifetime M) where
  -- `Locker::Locker` and `Locker::init`
  unfoldable pub init : M → M
  init m = life.mutex_init m

  -- `Locker::~Locker` and `Locker::release`, which unlocks first.
  unfoldable pub release : M → M
  unfolding unlock
  release m = life.mutex_destroy (unlock sys m)

module _ {M : Type 0} (sys : Mutex M) where
  -- A block with a `ScopedLocker`: the constructor does not look at what `lock` answers.
  unfoldable pub scoped : {A : Type 0} → (M → A × M) → M → A × M
  unfolding lock unlock
  scoped body m = let (answer, m') = body (lock sys infinite m).1 in (answer, unlock sys m')

  -- `ScopedLocker::forceUnlock`
  unfoldable pub force_unlock : M → M
  unfolding unlock
  force_unlock m = unlock sys m
