-- ===== src/TensorDecode.antt =====
-- Tensor decoding: src/tensorDecode.ts.
pub mod Shape
pub mod Elements
pub mod Summary
pub mod Guess
pub mod Format
mod Tests
