-- ===== src/Dwarf/Abi.antt =====
-- src/dwarf_parser.cc: where a parameter without a location arrives under the calling convention of
-- System V for x86-64 (`classify_param`, `abi_param_location`, of a build for that machine), and
-- `translate_param_location`, which falls back on it.
pub mod Exact
pub mod Apart
use cephtrace.Base.{
  ℕ, zero, suc, ◌+◌, ◌*◌, ◌/◌, ◌%◌, Bool, true, false, List, [], ◌∷◌, Option, none, some, ltb, ◌==◌,
  if◌then◌else◌, get_or, ◌||◌, map, filter, add64, u64_mod,
}
use cephtrace.Bpf.Types.{VarLocation}
use cephtrace.Dwarf.Types.{
  Tag, At, Libdw, DwarfOp, to_int, no_location, typedef, const_type, volatile_type, restrict_type,
  pointer_type, reference_type, rvalue_reference_type, array_type, structure_type, class_type,
  union_type, enumeration_type, base_type, formal_parameter,
}
use cephtrace.Dwarf.Expr.{
  Translated, failed, located, or_fail, abi_stack_location, find_func_frame_base, expr_at,
  translate_expr,
}

-- `AbiClass` with the size of the parameter.
pub data AbiClass : Type 0 where
  integer : AbiClass
  memory : ℕ → AbiClass
  unhandled : AbiClass

-- typedef, const, volatile or restrict.
unfoldable pub is_wrapper : Tag → Bool
is_wrapper typedef = true
is_wrapper const_type = true
is_wrapper volatile_type = true
is_wrapper restrict_type = true
is_wrapper _ = false

unfoldable pub is_formal : Tag → Bool
is_formal formal_parameter = true
is_formal _ = false

abbrev pub dw_ate_complex_float : ℕ
dw_ate_complex_float = 3

abbrev pub dw_ate_float : ℕ
dw_ate_float = 4

-- `(size + 7) & ~7` of a `Dwarf_Word`, which has 64 bits.
unfoldable pub round_up8 : ℕ → ℕ
round_up8 size = (size + 7) % u64_mod / 8 * 8

-- RDI, RSI, RDX, RCX, R8 and R9, as DWARF numbers them.
abbrev pub int_arg_regs : List ℕ
int_arg_regs = 5 ∷ 4 ∷ 1 ∷ 2 ∷ 8 ∷ 9 ∷ []

abbrev or_unhandled {ℓ} : {A : Type ℓ} → Option A → (A → AbiClass) → AbiClass
or_unhandled none f = unhandled
or_unhandled (some a) f = f a

abbrev value_or : ℕ → Option ℕ → ℕ
value_or d none = d
value_or d (some n) = n

-- Of a base type: floats and types of more than eight bytes are not handled.
unfoldable pub base_class : ℕ → Option ℕ → AbiClass
base_class enc none = unhandled
base_class enc (some size) =
    if enc == dw_ate_float || enc == dw_ate_complex_float
    then unhandled
    else if ltb 8 size
    then unhandled
    else integer

-- Of a structure, class, union or array: only the larger ones are known to be passed in memory.
unfoldable pub aggregate_class : Option ℕ → AbiClass
aggregate_class none = unhandled
aggregate_class (some size) = if ltb 16 size then memory size else unhandled

module _ (dw : Libdw) where
  abbrev pub ref_of : Option dw.Attr → Option dw.Die
  ref_of none = none
  ref_of (some a) = dw.formref_die a

  -- The type that an entry names, without following signatures.
  unfoldable pub type_ref : dw.Die → Option dw.Die
  type_ref d = ref_of (dw.attr_integrate d At.type)

  -- `peel_type`, with fuel for the number of wrappers.
  unfoldable pub peel_type : ℕ → dw.Die → Option dw.Die
  peel_type zero t = if is_wrapper (dw.tag t) then none else some t
  peel_type (suc n) t =
      let rest : Option dw.Die = elim (type_ref t) [ none ↦ none | some u ↦ peel_type n u ] in
      if is_wrapper (dw.tag t) then rest else some t

  abbrev number_of : Option dw.Attr → Option ℕ
  number_of none = none
  number_of (some a) = dw.formudata a

  unfoldable pub encoding_of : dw.Die → ℕ
  encoding_of t = value_or 0 (number_of (dw.attr_integrate t At.encoding))

  unfoldable pub class_of : dw.Die → Tag → AbiClass
  class_of t pointer_type = integer
  class_of t reference_type = integer
  class_of t rvalue_reference_type = integer
  class_of t enumeration_type = integer
  class_of t base_type = base_class (encoding_of t) (dw.aggregate_size t)
  class_of t structure_type = aggregate_class (dw.aggregate_size t)
  class_of t class_type = aggregate_class (dw.aggregate_size t)
  class_of t union_type = aggregate_class (dw.aggregate_size t)
  class_of t array_type = aggregate_class (dw.aggregate_size t)
  class_of t _ = unhandled

  unfoldable pub classify_param : ℕ → dw.Die → AbiClass
  classify_param fuel param =
      or_unhandled (type_ref param) λ t. or_unhandled (peel_type fuel t) λ u. class_of u (dw.tag u)

-- Where a parameter arrives: in a register, or at an offset from the canonical frame address.
pub data Slot : Type 0 where
  in_register : ℕ → Slot
  at_offset : ℕ → Slot

-- The body of the loop for a parameter of a known class. The next parameter gets the counters; the
-- target gets its slot.
unfoldable pub slot_of : AbiClass → ℕ → ℕ → Option Slot
slot_of unhandled int_regs_used stack_off = none
slot_of integer int_regs_used stack_off =
    if ltb int_regs_used 6
    then some (in_register (get_or int_arg_regs int_regs_used 0))
    else some (at_offset stack_off)
slot_of (memory size) int_regs_used stack_off = some (at_offset stack_off)

abbrev pub regs_after : AbiClass → ℕ → ℕ
regs_after integer int_regs_used = if ltb int_regs_used 6 then suc int_regs_used else int_regs_used
regs_after (memory size) int_regs_used = int_regs_used
regs_after unhandled int_regs_used = int_regs_used

-- `stack_off` is a `long`, here its bit pattern.
abbrev pub stack_after : AbiClass → ℕ → ℕ → ℕ
stack_after integer int_regs_used stack_off =
    if ltb int_regs_used 6 then stack_off else add64 stack_off 8
stack_after (memory size) int_regs_used stack_off = add64 stack_off (round_up8 size)
stack_after unhandled int_regs_used stack_off = stack_off

-- The class of a formal parameter, with the test whether it is the target.
pub record Formal : Type 0 where
  pub class : AbiClass
  pub is_target : Bool

abbrev is_unhandled : AbiClass → Bool
is_unhandled unhandled = true
is_unhandled _ = false

-- The loop over the formal parameters: `none` if one up to the target cannot be classified, or if
-- the target is not among them.
unfoldable pub param_slot : List Formal → ℕ → ℕ → Option Slot
param_slot [] int_regs_used stack_off = none
param_slot (p ∷ ps) int_regs_used stack_off =
    let rest =
      param_slot ps (regs_after p.class int_regs_used)
        (stack_after p.class int_regs_used stack_off) in
    if is_unhandled p.class
    then none
    else if p.is_target
    then slot_of p.class int_regs_used stack_off
    else rest

module _ (dw : Libdw) (fuel : ℕ) where
  abbrev pub formal_of : ℕ → dw.Die → Formal
  formal_of target_off child = record {
    class = classify_param dw fuel child;
    is_target = dw.dieoffset child == target_off;
  }

  abbrev pub formals : ℕ → List dw.Die → List Formal
  formals target_off children =
      map (formal_of target_off) (filter (λ child. is_formal (dw.tag child)) children)

  abbrev place : dw.Die → ℕ → VarLocation → Option Slot → Translated
  place func pc l none = failed
  place func pc l (some (in_register r)) = located (record { reg = r; offset = 0; stack = false })
  place func pc l (some (at_offset off)) = abi_stack_location dw fuel func pc off l

  unfoldable pub abi_param_location : dw.Die → dw.Die → ℕ → VarLocation → Translated
  abi_param_location func target pc l =
      place func pc l (param_slot (formals (dw.dieoffset target) (dw.children func)) 0 0)

  -- `find_param` and `translate_param_location`.
  unfoldable pub translate_param_location : dw.Die → List ℕ → ℕ → VarLocation → Translated
  translate_param_location func symbol pc l = or_fail (dw.getscopevar func symbol) λ vardie.
      elim (dw.attr_integrate vardie At.location) [
        | none ↦ abi_param_location func vardie pc l
        | some loc_attr ↦
            or_fail (expr_at dw loc_attr pc)
              λ op. translate_expr dw fuel (find_func_frame_base dw func) pc op l
      ]
