-- ===== src/Snapshot.antt =====
-- pkg/snapshot: a signed snapshot of the database of an indexer, verified and imported.
pub mod Merkle
pub mod Import
pub mod Bootstrap
pub mod Seeding
mod Samples
mod Tests
mod Seeds
