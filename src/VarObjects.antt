-- ===== src/VarObjects.antt =====
-- GDB variable objects: `VarObjectManager` of src/varObjects.ts. What the debugger answers is a
-- parameter of the model.
pub mod Manager
pub mod Outcomes
pub mod Types
pub mod Memory
mod Tests
