-- ===== src/Acp.antt =====
-- pkg/acp: the billing gate in front of the GraphQL endpoint.
pub mod Query
pub mod Registry
pub mod Epoch
pub mod Balance
pub mod Request
pub mod Gate
pub mod Recording
mod Tests
