-- ===== src/Mi.antt =====
-- The GDB/MI layer: src/mi/miParser.ts and src/mi/miConnection.ts.
pub mod Value
pub mod Result
pub mod CString
pub mod Parser
pub mod Line
pub mod Number
pub mod Connection
mod Tests
