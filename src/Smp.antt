-- ===== src/Smp.antt =====
-- The SMP layer: the header codec and the reassembler of a byte stream.
pub mod Header
pub mod Assembler
pub mod Client
