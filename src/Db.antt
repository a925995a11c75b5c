-- ===== src/Db.antt =====
-- internal/db: the database over SQLite. The tables and queries, the texts that lists of numbers are
-- stored as, the values of the daemon, and the methods.
pub mod Tables
pub mod Rows
pub mod Ids
pub mod Values
pub mod Sqlite
mod Keys
pub mod Invariant
pub mod RoundTrip
pub mod Errors
pub mod Refines
