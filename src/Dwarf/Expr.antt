-- ===== src/Dwarf/Expr.antt =====
-- src/dwarf_parser.cc: `translate_expr`, which turns a location expression into a register and an
-- offset, and what finds the expression of a parameter. Only the first operation of an expression
-- is read.
pub mod Address
use cephtrace.Base.{
  ℕ, zero, suc, ◌+◌, ◌-◌, ◌%◌, Bool, true, false, List, [], ◌∷◌, Option, none, some, ltb, leb, ◌&&◌,
  ◌==◌, if◌then◌else◌, u32_mod,
}
use cephtrace.Bpf.Types.{VarLocation}
use cephtrace.Dwarf.Types.{At, Libdw, DwarfOp, to_int}

abbrev pub dw_op_plus_uconst : ℕ
dw_op_plus_uconst = 0x23

abbrev pub dw_op_reg0 : ℕ
dw_op_reg0 = 0x50

abbrev pub dw_op_breg0 : ℕ
dw_op_breg0 = 0x70

abbrev pub dw_op_fbreg : ℕ
dw_op_fbreg = 0x91

abbrev pub dw_op_bregx : ℕ
dw_op_bregx = 0x92

abbrev pub dw_op_call_frame_cfa : ℕ
dw_op_call_frame_cfa = 0x9c

-- What became of an expression: the recursion ran out of fuel, there is no location, or the location.
pub data Translated : Type 0 where
  out_of_fuel : Translated
  failed : Translated
  located : VarLocation → Translated

-- The labels of the switch over `atom`.
pub data AtomKind : Type 0 where
  bregx : AtomKind
  breg : ℕ → AtomKind
  fbreg : AtomKind
  call_frame_cfa : AtomKind
  reg : ℕ → AtomKind
  plus_uconst : AtomKind
  ignored : AtomKind

unfoldable pub kind_of : ℕ → AtomKind
kind_of atom =
    if atom == dw_op_bregx
    then bregx
    else if leb dw_op_breg0 atom && ltb atom (dw_op_breg0 + 32)
    then breg (atom - dw_op_breg0)
    else if atom == dw_op_fbreg
    then fbreg
    else if atom == dw_op_call_frame_cfa
    then call_frame_cfa
    else if leb dw_op_reg0 atom && ltb atom (dw_op_reg0 + 32)
    then reg (atom - dw_op_reg0)
    else if atom == dw_op_plus_uconst
    then plus_uconst
    else ignored

-- `varloc.offset += n; varloc.stack = true`.
abbrev pub on_stack : ℕ → Translated → Translated
on_stack n out_of_fuel = out_of_fuel
on_stack n failed = failed
on_stack n (located l) = located (record l { offset = to_int (l.offset + n); stack = true })

-- `if (p == NULL) return false`.
abbrev pub or_fail {ℓ} : {A : Type ℓ} → Option A → (A → Translated) → Translated
or_fail none f = failed
or_fail (some a) f = f a

abbrev pub or_else : {A : Type 0} → Option A → Option A → Option A
or_else none b = b
or_else (some a) b = some a

module _ (dw : Libdw) where
  -- The operation of the canonical frame address: that of .debug_frame, or else that of .eh_frame.
  abbrev cfa_of : Option dw.Frame → Option DwarfOp
  cfa_of none = none
  cfa_of (some frame) = dw.frame_cfa frame

  unfoldable pub cfa_op : ℕ → Option DwarfOp
  cfa_op pc = or_else (cfa_of (dw.cfi_debug pc)) (cfa_of (dw.cfi_eh pc))

  -- The expression at an address; `none` also if it is empty.
  abbrev pub first_op : Option (List DwarfOp) → Option DwarfOp
  first_op none = none
  first_op (some []) = none
  first_op (some (op ∷ ops)) = some op

  unfoldable pub expr_at : dw.Attr → ℕ → Option DwarfOp
  expr_at a pc = first_op (dw.getlocation_addr a pc)

  abbrev pub frame_op : Option dw.Attr → ℕ → Option DwarfOp
  frame_op none pc = none
  frame_op (some a) pc = expr_at a pc

  -- The switch; `again` is the recursive call.
  unfoldable pub translate_kind :
      (DwarfOp → Translated) → Option dw.Attr → ℕ → DwarfOp → VarLocation → AtomKind → Translated
  translate_kind again fb pc op l bregx =
      located (record l { reg = to_int op.number; offset = to_int op.number2 })
  translate_kind again fb pc op l (breg r) =
      located (record l { reg = r; offset = to_int op.number })
  translate_kind again fb pc op l fbreg =
      or_fail (frame_op fb pc) (λ base. on_stack op.number (again base))
  translate_kind again fb pc op l call_frame_cfa = or_fail (cfa_op pc) again
  translate_kind again fb pc op l (reg r) = located (record l { reg = r })
  translate_kind again fb pc op l plus_uconst = located (record l { offset = to_int op.number })
  translate_kind again fb pc op l ignored = located l

  unfoldable pub translate_expr : ℕ → Option dw.Attr → ℕ → DwarfOp → VarLocation → Translated
  translate_expr zero fb pc op l = out_of_fuel
  translate_expr (suc fuel) fb pc op l =
      translate_kind (λ o. translate_expr fuel fb pc o l) fb pc op l (kind_of op.atom)

  -- `find_func_frame_base`.
  unfoldable pub find_func_frame_base : dw.Die → Option dw.Attr
  find_func_frame_base func = dw.attr_integrate func At.frame_base

  -- `abi_stack_location`: an offset from the canonical frame address.
  unfoldable pub abi_stack_location : ℕ → dw.Die → ℕ → ℕ → VarLocation → Translated
  unfolding find_func_frame_base
  abi_stack_location fuel func pc cfa_off l =
      or_fail (find_func_frame_base func)
        λ fb. or_fail (expr_at fb pc) λ op. on_stack cfa_off (translate_expr fuel (some fb) pc op l)
