-- ===== src/Attestation.antt =====
-- pkg/attestation: records of who attested which documents, and the signatures of blocks.
pub mod Record
pub mod Blocks
pub mod Post
pub mod Attested
pub mod Documents
mod Tests
