-- ===== src/Manager.antt =====
-- internal/cedana/job/manager_lazy.go: the job manager that keeps its state in memory and leaves
-- the database to a background routine. A method that mutates the manager returns the new one. A
-- send on `pending` appends to a list, so these are the methods as they return; how a full channel
-- blocks is the subject of Manager/Channel.antt.
pub mod State
pub mod Jobs
pub mod Checkpoints
pub mod Sync
pub mod Tracked
pub mod Worker
pub mod Drain
pub mod Pids
pub mod PidHistory
pub mod Races
pub mod Latest
pub mod Channel
pub mod Adapters
pub mod Managed
