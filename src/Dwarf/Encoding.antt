-- ===== src/Dwarf/Encoding.antt =====
-- t89emu/include/Dwarf/DwarfEncodings.h: the numbers of the debugging information entries.
pub mod Form
pub mod Tag
pub mod Attribute
pub mod Operation
