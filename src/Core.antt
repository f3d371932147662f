-- ===== src/Core.antt =====
-- The combinational parts of the processor: functions of their inputs, with no state.
pub mod Alu
pub mod AluControl
pub mod Immediate
pub mod MemControl
