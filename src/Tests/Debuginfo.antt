-- ===== src/Tests/Debuginfo.antt =====
-- The DWARF parser on a small tree of entries: a type of an op with a base class and a union without
-- a name, and a function with parameters in memory and in registers.
use cephtrace.Base.{
  ℕ, ◌<◌, ◌≡◌, refl, arith, Bool, true, false, List, [], ◌∷◌, Option, none, some, ◌==◌,
  if◌then◌else◌, codes,
}
use cephtrace.Select.Embedded.{Named}
use cephtrace.Dwarf.Types.{
  Tag, At, Libdw, DwarfOp, structure_type, union_type, pointer_type, const_type, inheritance,
  member, formal_parameter, type, data_member_location, frame_base, location, no_location,
}
use cephtrace.Dwarf.Expr.{
  located, translate_expr, cfa_op, expr_at, find_func_frame_base, translate_kind, kind_of,
}
use cephtrace.Dwarf.Expr.Address.{
  of_register, of_frame, of_cfa, location_of, translate_expr-Address,
}
use cephtrace.Dwarf.Abi.{
  translate_param_location, is_formal, classify_param, type_ref, peel_type, is_wrapper, class_of,
  aggregate_class, slot_of, round_up8, at_offset, param_slot, formals,
}
use cephtrace.Dwarf.Abi.Apart.{AreApart, target_class, slots-AreApart}
use cephtrace.Dwarf.Members.{is_inheritance, is_member, is_type_unit, attr_die}
use cephtrace.Dwarf.Members.Search.{weigh, parts_of}
use cephtrace.Dwarf.Fields.{
  missing, no_fuel, is_class_member, base_classes, find_class_member, translate_tokens,
  translate_fields,
}
use cephtrace.Dwarf.Fields.Lowered.{find_class_member-stops, translate_fields-diverges}
use cephtrace.Dwarf.Fields.{first_field}
use cephtrace.Dwarf.Functions.{
  LibdwFunctions, Probes, Parsed, parsed, handle_module, handle_units, handle_unit, is_looked_at,
  filter_cu, handle_functions, handle_function, filter_func, behind_colon, full_name, is_class,
  find_prologue, func_entrypc, die_has_loclist, is_located, translate_vars, translate_var,
  special_inlined_function_scope,
}
use cephtrace.Dwarf.Functions.Consistent.{
  IsConsistent, ParsedConsistent, handle_module-IsConsistent,
}
use cephtrace.Select.Embedded.Import.{DwarfMaps, cleared, lookup_name, put_in, put_name}
use cephtrace.Select.Process.{get_basename}

-- The value of an attribute.
data Value : Type 0 where
  ref : ℕ → Value
  number : ℕ → Value
  expr : List DwarfOp → Value

abbrev op : ℕ → ℕ → DwarfOp
op atom n = record { atom = atom; number = n; number2 = 0 }

-- 1 is the type, 10 its base class, 11 the union; 20 is the function, 40 a `const void`.
abbrev sample_tag : ℕ → Tag
sample_tag d =
    if d == 2
    then inheritance
    else if d == 3
    then member
    else if d == 4
    then member
    else if d == 5
    then member
    else if d == 21
    then formal_parameter
    else if d == 22
    then formal_parameter
    else if d == 11
    then union_type
    else if d == 30
    then pointer_type
    else if d == 40
    then const_type
    else structure_type

abbrev sample_children : ℕ → List ℕ
sample_children d =
    if d == 1
    then 2 ∷ 3 ∷ []
    else if d == 10
    then 4 ∷ []
    else if d == 11
    then 5 ∷ []
    else if d == 20
    then 21 ∷ 22 ∷ []
    else []

abbrev sample_name : ℕ → Option (List ℕ)
sample_name d =
    if d == 4 then some (codes "ops") else if d == 5 then some (codes "extent") else none

abbrev sample_type : ℕ → Option Value
sample_type d =
    if d == 2
    then some (ref 10)
    else if d == 3
    then some (ref 11)
    else if d == 4
    then some (ref 30)
    else if d == 5
    then some (ref 30)
    else if d == 21
    then some (ref 1)
    else if d == 22
    then some (ref 1)
    else none

abbrev sample_offset : ℕ → Option Value
sample_offset d =
    if d == 2
    then some (number 16)
    else if d == 3
    then some (number 24)
    else if d == 4
    then some (number 8)
    else none

abbrev sample_attr : ℕ → At → Option Value
sample_attr d type = sample_type d
sample_attr d data_member_location = sample_offset d
sample_attr d frame_base = some (expr (op 0x9c 0 ∷ []))
sample_attr d _ = none

abbrev is_there : Option Value → Bool
is_there none = false
is_there (some v) = true

abbrev ref_in : Value → Option ℕ
ref_in (ref d) = some d
ref_in _ = none

abbrev number_in : Value → Option ℕ
number_in (number n) = some n
number_in _ = none

abbrev expr_in : Value → ℕ → Option (List DwarfOp)
expr_in (expr ops) pc = some ops
expr_in _ pc = none

abbrev sample : Libdw
sample = record {
  Die = ℕ;
  Attr = Value;
  Frame = DwarfOp;
  tag = sample_tag;
  children = sample_children;
  diename = sample_name;
  dieoffset = λ d. d;
  attr = λ d a. none;
  attr_integrate = sample_attr;
  hasattr = λ d a. false;
  hasattr_integrate = λ d a. is_there (sample_attr d a);
  formref_die = ref_in;
  formudata = number_in;
  is_sec_offset = λ a. false;
  aggregate_size = λ d. some 24;
  getlocation_addr = expr_in;
  getscopevar = λ d s. none;
  cfi_debug = λ pc. some (op 0x77 8);
  cfi_eh = λ pc. none;
  frame_cfa = λ f. some f;
}

translate_expr-Address_example :
    translate_expr sample 3 (some (expr (op 0x9c 0 ∷ []))) 4096 (op 0x91 16) no_location
    ≡ located (location_of sample (some (expr (op 0x9c 0 ∷ []))) 4096 7 24 true)
unfolding cfa_op
translate_expr-Address_example =
    translate_expr-Address sample (some (expr (op 0x9c 0 ∷ []))) 4096 3 3 (op 0x91 16) 7 24 true
      (of_frame (op 0x91 16) (op 0x9c 0) (expr (op 0x9c 0 ∷ [])) 2 7 8 false refl refl refl (
        of_cfa (op 0x9c 0) (op 0x77 8) 1 7 8 false refl refl
          (of_register (op 0x77 8) 7 (omega arith) refl)))
      (omega arith)

slots-AreApart_example :
    AreApart
      (target_class (formals sample 0 21 (sample_children 20)))
      (at_offset 0)
      (target_class (formals sample 0 22 (sample_children 20)))
      (at_offset 24)
unfolding param_slot is_formal classify_param type_ref peel_type is_wrapper class_of aggregate_class
    slot_of round_up8
slots-AreApart_example =
    slots-AreApart sample 0 21 22 (λ e. absurd (omega arith)) (sample_children 20) (at_offset 0)
      (at_offset 24) (omega arith) refl refl

abbrev sample_weight : ℕ → ℕ
sample_weight d = if d == 1 then 3 else 1

abbrev Falls : ℕ → ℕ → Type 0
Falls base d = weigh sample_weight (parts_of sample 1 (sample_children d) base) < sample_weight d

abbrev sample_types : List (List (Named ℕ))
sample_types = (record { name = codes "struct OSDOp"; value = 1 } ∷ []) ∷ []

-- The base class of a type with two, an empty one and one that has the member.
abbrev derived_children : ℕ → List ℕ
derived_children d = if d == 1 then 6 ∷ 2 ∷ [] else if d == 10 then 4 ∷ [] else []

abbrev derived_tag : ℕ → Tag
derived_tag d = if d == 6 then inheritance else sample_tag d

abbrev derived_attr : ℕ → At → Option Value
derived_attr d a = if d == 6 then some (ref 13) else sample_attr d a

abbrev derived : Libdw
derived = record sample {
  tag = derived_tag;
  children = derived_children;
  attr_integrate = derived_attr;
}

find_class_member-stops_example : find_class_member derived 5 1 (codes "ops") ≡ missing
unfolding is_class_member base_classes is_inheritance is_member is_type_unit attr_die type_ref
find_class_member-stops_example =
    find_class_member-stops derived 3 1 13 (10 ∷ []) (codes "ops") refl (refl, (refl, tt)) refl refl

translate_fields-diverges_example :
    translate_fields sample 5 5 4096 [] 1000 40 (codes "p" ∷ codes "x" ∷ []) ≡ no_fuel
unfolding is_wrapper type_ref
translate_fields-diverges_example =
    translate_fields-diverges sample 5 5 4096 [] 1000 40 (codes "p") (codes "x") [] refl refl

-- A unit with one function of a class, whose parameter is in a register.
abbrev traced_attr : ℕ → At → Option Value
traced_attr d location = if d == 23 then some (expr (op 0x75 0 ∷ [])) else none
traced_attr d type = if d == 23 then some (ref 30) else sample_type d
traced_attr d _ = none

abbrev traced_name : ℕ → Option (List ℕ)
traced_name d =
    if d == 18
    then some (codes "osd/OSD.cc")
    else if d == 19
    then some (codes "OSD")
    else if d == 20
    then some (codes "enqueue_op")
    else none

abbrev traced : Libdw
traced = record sample {
  attr_integrate = traced_attr;
  diename = traced_name;
  getscopevar = λ d s. some 23;
}

abbrev traced_functions : LibdwFunctions traced
traced_functions = record {
  entrypc = λ d. some 4096;
  ranges = λ d. none;
  entry_breakpoints = λ d. 4100 ∷ [];
  func_inline = λ d. false;
  getscopes = λ d. 20 ∷ 19 ∷ [];
  getfuncs = λ d. 20 ∷ [];
}

abbrev enqueue_probes : Probes
enqueue_probes = record { name = codes "OSD::enqueue_op"; value = (codes "op" ∷ []) ∷ [] } ∷ []

abbrev module_of : DwarfMaps → Parsed
module_of maps =
    handle_module traced traced_functions 5 [] enqueue_probes (codes "/usr/bin/ceph-osd")
      (codes "OSD.cc" ∷ []) (18 ∷ []) maps

-- The function gets an address and the description of its one variable.
module_of_found :
    module_of cleared
    ≡ parsed (record cleared {
      mod_func2pc =
          record {
            name = codes "ceph-osd";
            value = record { name = codes "OSD::enqueue_op"; value = 4100 } ∷ [];
          }
          ∷ [];
      mod_func2vf =
          record {
            name = codes "ceph-osd";
            value =
                record {
                  name = codes "OSD::enqueue_op";
                  value =
                      record {
                        varloc = record { reg = 5; offset = 0; stack = false };
                        fields = first_field ∷ [];
                      }
                      ∷ [];
                }
                ∷ [];
          }
          ∷ [];
    })
unfolding handle_module handle_units handle_unit is_looked_at filter_cu get_basename
    handle_functions handle_function filter_func behind_colon lookup_name full_name is_class
    find_prologue func_entrypc die_has_loclist is_located translate_vars translate_var
    translate_param_location expr_at find_func_frame_base translate_expr translate_kind kind_of
    translate_fields translate_tokens type_ref put_in put_name special_inlined_function_scope
module_of_found = refl

no_functions : IsConsistent enqueue_probes (codes "ceph-osd") cleared
unfolding lookup_name
no_functions name vs e = absurd (ground arith)

handle_module-IsConsistent_example :
    ParsedConsistent enqueue_probes (codes "ceph-osd") (module_of cleared)
unfolding get_basename
handle_module-IsConsistent_example =
    handle_module-IsConsistent traced traced_functions 5 [] enqueue_probes
      (codes "/usr/bin/ceph-osd") (codes "OSD.cc" ∷ []) (18 ∷ []) cleared no_functions
