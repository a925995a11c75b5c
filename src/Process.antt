-- ===== src/Process.antt =====
-- pkg/utils/process.go: the state of a process with those of its descendants, which a dump records.
-- `Node` fills in the state of one process, `Walk` visits the descendants; `Forest`, `Filled` and
-- `Once` are for proofs.
pub mod Node
pub mod Walk
pub mod Table
pub mod Rows
pub mod Forest
pub mod Filled
pub mod Once
pub mod Descendants
pub mod Trees
pub mod Query
pub mod Inherit
pub mod Placed
pub mod Handing
pub mod Unopened
