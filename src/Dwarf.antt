-- ===== src/Dwarf.antt =====
-- t89emu/src/Dwarf: the parts of the DWARF parser that decode bytes, the line number program, the frame
-- rules and the debugging information entries.
pub mod DataStream
pub mod LineNumber
pub mod CallFrame
pub mod Encoding
pub mod StringTable
pub mod Info
pub mod Expr
pub mod Variable
pub mod Scope
pub mod DataType
pub mod Parser
