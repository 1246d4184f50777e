-- ===== src/Serial.antt =====
-- src/transports/serial/: the framing of SMP packets on a serial console.
pub mod Base64
pub mod Crc16
pub mod Splitter
pub mod Deframer
pub mod Framer
pub mod Link
mod Tests
