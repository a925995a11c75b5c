-- ===== src/Streamer.antt =====
-- internal/cedana/streamer: the file system that streams a dump through the image streamer, its
-- files, and the shards that the stream is stored in.
pub mod Frame
pub mod Fs
pub mod File
pub mod Images
mod Paths
mod Shuffled
pub mod Shards
pub mod Fds
pub mod Listing
