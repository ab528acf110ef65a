-- ===== src/Sbf.antt =====
-- src/sbf: the checksum, the frame format and the frame synchronizer.
mod Tests
pub mod Crc
pub mod Wire
pub mod Decoder
pub mod FrameSync
