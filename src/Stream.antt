-- ===== src/Stream.antt =====
-- internal/stream/manager.go: the stream engine.
pub mod Types
pub mod Config
pub mod Access
pub mod Assembly
pub mod Board
pub mod Timing
pub mod Session
pub mod Buffer
