-- ===== src/Dwarf.antt =====
-- src/dwarf_parser.cc: how the DWARF data of a binary is read.
pub mod Types
pub mod Expr
pub mod Abi
pub mod Members
pub mod Fields
pub mod Cache
pub mod Json
pub mod Functions
