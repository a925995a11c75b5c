-- ===== src/Tests.antt =====
-- Runs at concrete inputs, and the theorems of the other modules applied to them.
pub mod Jobs
pub mod Gpus
pub mod Crius
pub mod Runs
pub mod Streams
pub mod Stores
pub mod Plugs
pub mod Dumps
pub mod Procs
pub mod Restores
pub mod Timings
pub mod Inherits
