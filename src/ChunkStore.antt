-- ===== src/ChunkStore.antt =====
-- internal/stream/store.go: the two-level chunk cache of the stream engine.
pub mod Types
pub mod Names
pub mod Memory
pub mod Disk
pub mod Store
