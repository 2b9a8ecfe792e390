-- ===== src/Pruner.antt =====
-- pkg/pruner: the queue of replicated documents and the pruning of old ones.
pub mod DocId
pub mod Config
pub mod Queue
pub mod Documents
pub mod Persist
pub mod Lifecycle
pub mod Purge
mod Tests
