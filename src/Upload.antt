-- ===== src/Upload.antt =====
-- src/groups/image/: sending an image in chunks.
pub mod State
pub mod ChunkSize
pub mod Session
pub mod Driver
