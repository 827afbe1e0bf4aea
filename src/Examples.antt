-- ===== src/Examples.antt =====
-- The theorems applied to small inputs, by component.
mod ChunkStore
mod Stream
mod Remote
mod Baidu
mod Store
mod Playback
