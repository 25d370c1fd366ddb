-- ===== src/TypeFormatters.antt =====
-- Synthetic children: src/typeFormatters.ts.
pub mod Types
pub mod Display
pub mod Registry
pub mod Vector
pub mod StdString
mod Tests
