-- ===== src/State.antt =====
-- The processor's stateful parts other than memory.
pub mod RegisterFile
pub mod Csr
pub mod NextPc
pub mod Trap
pub mod Words
