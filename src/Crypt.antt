-- ===== src/Crypt.antt =====
-- src/rosecommon: crosecrypt.h, crosecrypt.cpp.
pub mod Head
pub mod Crc
pub mod Codec
pub mod Rng
