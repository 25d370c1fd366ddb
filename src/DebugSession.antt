-- ===== src/DebugSession.antt =====
-- The DAP requests of src/ascendDebugSession.ts, as far as they are modelled.
pub mod Helpers
pub mod Memory
pub mod Disassembly
mod Tests
