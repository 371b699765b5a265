-- ===== src/Base.antt =====
-- The wrappers of the system's clocks, mutexes and condition variables: oradar_ros/sdk/core/base.
pub mod Timer
pub mod Locker
pub mod Event
pub mod Platforms
pub mod Scoped
pub mod Thread
