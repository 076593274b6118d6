-- ===== src/Tar.antt =====
-- packages/shared/src/tar.ts: the canonical ustar archive.
pub mod Paths
pub mod Entries
pub mod Write
pub mod Read
pub mod RoundTrip
pub mod Examples
