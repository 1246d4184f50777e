-- ===== src/Image.antt =====
-- src/image/: what is read of a firmware image before it is sent.
pub mod Source
pub mod Values
pub mod Header
pub mod Tlv
mod Tests
