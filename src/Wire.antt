-- ===== src/Wire.antt =====
-- What the three frame formats share: little-endian words and the CRC-32 checksum.
pub mod Bytes
pub mod Checksum
