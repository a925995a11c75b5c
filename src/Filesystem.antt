-- ===== src/Filesystem.antt =====
-- internal/cedana/filesystem: the directory and the tarball of a dump, and the directory that a restore
-- reads from.
pub mod Dump
pub mod Restore
pub mod Outcome
pub mod Lost
