-- ===== src/Dwarf/Types.antt =====
-- libdw, as src/dwarf_parser.cc uses it. The library is a parameter: it gives the tree of debugging
-- entries, their attributes, and the location expressions. A null pointer is `none`.
use cephtrace.Base.{ℕ, ◌%◌, Bool, false, List, Option, u32_mod}
use cephtrace.Bpf.Types.{VarLocation}

-- The tags that the parser tells apart.
pub data Tag : Type 0 where
  typedef : Tag
  const_type : Tag
  volatile_type : Tag
  restrict_type : Tag
  pointer_type : Tag
  reference_type : Tag
  rvalue_reference_type : Tag
  array_type : Tag
  structure_type : Tag
  class_type : Tag
  union_type : Tag
  enumeration_type : Tag
  base_type : Tag
  inheritance : Tag
  member : Tag
  formal_parameter : Tag
  variable : Tag
  compile_unit : Tag
  type_unit : Tag
  partial_unit : Tag
  other : Tag

-- The attributes that it asks for.
pub data At : Type 0 where
  type : At
  location : At
  encoding : At
  frame_base : At
  signature : At
  declaration : At
  data_member_location : At
  data_bit_offset : At
  abstract_origin : At
  specification : At

-- `Dwarf_Op`: an operation of an expression with its operands.
pub record DwarfOp : Type 0 where
  pub atom : ℕ
  pub number : ℕ
  pub number2 : ℕ

pub record Libdw : Type 1 where
  pub Die : Type 0
  pub Attr : Type 0
  pub Frame : Type 0
  pub tag : Die → Tag
  -- `dwarf_child`, then `dwarf_siblingof` until it fails.
  pub children : Die → List Die
  pub diename : Die → Option (List ℕ)
  pub dieoffset : Die → ℕ
  pub attr : Die → At → Option Attr
  pub attr_integrate : Die → At → Option Attr
  pub hasattr : Die → At → Bool
  pub hasattr_integrate : Die → At → Bool
  pub formref_die : Attr → Option Die
  pub formudata : Attr → Option ℕ
  -- Whether the form of an attribute is DW_FORM_sec_offset.
  pub is_sec_offset : Attr → Bool
  pub aggregate_size : Die → Option ℕ
  -- `dwarf_getlocation_addr` with room for one expression: `none` if it returns no expression.
  pub getlocation_addr : Attr → ℕ → Option (List DwarfOp)
  -- `dwarf_getscopevar`: none if its result is negative.
  pub getscopevar : Die → List ℕ → Option Die
  -- The frame that .debug_frame and .eh_frame give for an address, where they are there, and the
  -- first operation of the frame's canonical address.
  pub cfi_debug : ℕ → Option Frame
  pub cfi_eh : ℕ → Option Frame
  pub frame_cfa : Frame → Option DwarfOp

-- A 64-bit `Dwarf_Word` stored in an `int`.
abbrev pub to_int : ℕ → ℕ
to_int w = w % u32_mod

-- The constructor of `VarLocation`.
abbrev pub no_location : VarLocation
no_location = record { reg = 0; offset = 0; stack = false }
