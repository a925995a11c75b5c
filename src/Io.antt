-- ===== src/Io.antt =====
-- pkg/io: the compression formats of dumps.
pub mod Compression
pub mod RoundTrip
