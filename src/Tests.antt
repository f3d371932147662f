-- ===== src/Tests.antt =====
-- Runs of the model on concrete inputs.
mod Core
mod Devices
mod Machine
mod Debugger
mod Dwarf
mod CallFrame
mod Program
mod Isa
mod Info
mod Elf
