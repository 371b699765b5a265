-- ===== src/Tests.antt =====
-- The code run on small inputs, and the theorems applied to them: oradar_ros/sdk/src. The numbers of
-- these runs are thousandths.
pub mod Samples
pub mod Wire
pub mod Scans
pub mod Filters
pub mod Sessions
pub mod Streams
pub mod Recovery
mod Noise
mod Vehicle
mod Clocks
mod Wrappers
pub mod Threads
pub mod Races
mod Programs
mod Messages
mod Info
