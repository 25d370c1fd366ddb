-- ===== src/Registers/Values.antt =====
-- Rendering of src/registers.ts: the two numbers of `formatRegisterValue`.
