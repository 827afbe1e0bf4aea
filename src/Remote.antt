-- ===== src/Remote.antt =====
-- internal/remote/remote.go: the reader of remote files.
pub mod Errors
pub mod Windows
pub mod Reader
pub mod Concurrent
