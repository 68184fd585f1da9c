-- ===== src/Abi.antt =====
-- Numbers as bytes, 32-byte words, and the encodings that the contracts hash.
pub mod Bytes
pub mod Words
pub mod Batch
mod Tests
