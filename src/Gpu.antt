-- ===== src/Gpu.antt =====
-- internal/cedana/gpu: the controllers of GPUs, the pool that they stand in, and the managers that
-- attach them to processes and keep a number of them ready.
pub mod Controller
pub mod Pool
pub mod Manager
pub mod Listing
pub mod Booking
pub mod Upkeep
pub mod Profile
pub mod Coverage
pub mod Uncovered
pub mod Stats
pub mod Inherit
pub mod Inherited
pub mod Reopened
pub mod Passed
pub mod Lost
pub mod Mounts
