-- ===== src/Host.antt =====
-- pkg/host: what the host takes from its peers.
pub mod Filter
pub mod Attesters
pub mod Metrics
pub mod Extract
pub mod Signature
pub mod Events
pub mod Pipeline
pub mod Provenance
pub mod Discovery
pub mod Registrations
mod Tests
mod Runs
mod Streams
