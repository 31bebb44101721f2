-- ===== src/Dwarf/Functions.antt =====
-- src/dwarf_parser.cc: the functions of a module that are probed, with the addresses of their
-- prologues and the places of their variables (`handle_function`, `handle_module`).
pub mod Consistent
use cephtrace.Base.{
  ℕ, zero, suc, Bool, true, false, not, ◌&&◌, ◌||◌, List, [], ◌∷◌, ◌++◌, Option, none, some, ◌==◌,
  if◌then◌else◌, same_bytes, any, is_empty, codes,
}
use cephtrace.Bpf.Types.{VarLocation, Field}
use cephtrace.Select.Embedded.{Named, VarPath}
use cephtrace.Select.Embedded.Import.{lookup_name, put_in, DwarfMaps}
use cephtrace.Select.Process.{get_basename}
use cephtrace.Dwarf.Types.{
  Tag, At, Libdw, formal_parameter, variable, class_type, structure_type, no_location,
}
use cephtrace.Dwarf.Expr.{Translated, out_of_fuel, failed, located}
use cephtrace.Dwarf.Abi.{translate_param_location, ref_of, type_ref}
use cephtrace.Dwarf.Fields.{Fields, no_fuel, refused, fields, translate_fields, die_type_or}

-- What libdw says of functions. `ranges` gives the base address and the start of the first range,
-- 0 where it sets none.
pub record LibdwFunctions (dw : Libdw) : Type 0 where
  pub entrypc : dw.Die → Option ℕ
  pub ranges : dw.Die → Option (ℕ × ℕ)
  pub entry_breakpoints : dw.Die → List ℕ
  pub func_inline : dw.Die → Bool
  pub getscopes : dw.Die → List dw.Die
  pub getfuncs : dw.Die → List dw.Die

-- `probes`: of each function, the paths that are read.
abbrev pub Probes : Type 0
Probes = List (Named (List (List (List ℕ))))

-- What follows the last colon.
unfoldable pub behind_colon : List ℕ → List ℕ
behind_colon [] = []
behind_colon (c ∷ cs) =
    let rest = behind_colon cs in
    if any (λ d. d == b':') cs then rest else if c == b':' then cs else c ∷ cs

unfoldable pub filter_func : Probes → List ℕ → Bool
filter_func probes funcname = any (λ p. same_bytes funcname (behind_colon p.name)) probes

-- `filter_cu`: the name behind the last slash is one of the units to look at.
unfoldable pub filter_cu : List (List ℕ) → List ℕ → Bool
filter_cu probe_units unitname = any (λ u. same_bytes u (get_basename unitname)) probe_units

unfoldable pub special_inlined_function_scope : List ℕ → List ℕ
special_inlined_function_scope funcname =
    if same_bytes funcname (codes "log_latency")
    then codes "BlueStore"
    else if same_bytes funcname (codes "log_latency_fn")
    then codes "BlueStore"
    else []

unfoldable pub is_located : Tag → Bool
is_located formal_parameter = true
is_located variable = true
is_located _ = false

unfoldable pub is_class : Tag → Bool
is_class class_type = true
is_class structure_type = true
is_class _ = false

module _ (dw : Libdw) where
  abbrev has_sec_offset : Option dw.Attr → Bool
  has_sec_offset none = false
  has_sec_offset (some a) = dw.is_sec_offset a

  abbrev any_child : (dw.Die → Bool) → List dw.Die → Bool
  any_child p [] = false
  any_child p (d ∷ ds) = p d || any_child p ds

  -- `die_has_loclist`, with fuel for the depth of the tree.
  unfoldable pub die_has_loclist : ℕ → dw.Die → Bool
  die_has_loclist zero d = false
  die_has_loclist (suc depth) d =
      any_child
        (λ child.
          if is_located (dw.tag child)
          then has_sec_offset (dw.attr_integrate child At.location)
          else die_has_loclist depth child)
        (dw.children d)

module _ (dw : Libdw) (lf : LibdwFunctions dw) where
  abbrev positive : ℕ → Option ℕ
  positive addr = if addr == 0 then none else some addr

  abbrev of_ranges : Option (ℕ × ℕ) → Option ℕ
  of_ranges none = none
  of_ranges (some (base, start)) = if base == 0 then positive start else some base

  abbrev or_ranges : dw.Die → Option ℕ → Option ℕ
  or_ranges func none = of_ranges (lf.ranges func)
  or_ranges func (some addr) = if addr == 0 then of_ranges (lf.ranges func) else some addr

  -- `func_entrypc`.
  unfoldable pub func_entrypc : dw.Die → Option ℕ
  func_entrypc func = or_ranges func (lf.entrypc func)

  abbrev first_breakpoint : List ℕ → Option ℕ
  first_breakpoint [] = none
  first_breakpoint (b ∷ bs) = some b

  abbrev prologue_from : Bool → dw.Die → Option ℕ → Option ℕ
  prologue_from loclist func none = none
  prologue_from loclist func (some pc) =
      if loclist then some pc else first_breakpoint (lf.entry_breakpoints func)

  -- `find_prologue`, in a unit with or without location lists.
  unfoldable pub find_prologue : Bool → dw.Die → Option ℕ
  find_prologue loclist func = prologue_from loclist func (func_entrypc func)

  -- The entry that an attribute leads to, or the entry itself.
  abbrev pub followed : At → dw.Die → dw.Die
  followed a d = if dw.hasattr d a then die_type_or dw d (ref_of dw (dw.attr_integrate d a)) else d

  abbrev second : List dw.Die → Option dw.Die
  second (a ∷ b ∷ ds) = some b
  second (a ∷ []) = none
  second [] = none

  abbrev name_or : List ℕ → Option (List ℕ) → List ℕ
  name_or other none = other
  name_or other (some n) = n

  abbrev qualified : List ℕ → List ℕ → List ℕ
  qualified scope funcname = if is_empty scope then funcname else (scope ++ codes "::") ++ funcname

  abbrev scope_name : List ℕ → dw.Die → List ℕ
  scope_name funcname scope =
      let special = special_inlined_function_scope funcname in
      if is_class (dw.tag scope) then name_or special (dw.diename scope) else special

  abbrev name_in : List ℕ → Option dw.Die → List ℕ
  name_in funcname none = funcname
  name_in funcname (some scope) = qualified (scope_name funcname scope) funcname

  -- The name with that of its class.
  unfoldable pub full_name : dw.Die → List ℕ → List ℕ
  full_name die funcname =
      name_in funcname
        (second (lf.getscopes (followed At.specification (followed At.abstract_origin die))))

-- A run of the parser: it ends in a failed assertion, or with the maps.
pub data Parsed : Type 0 where
  aborted : Parsed
  parsed : DwarfMaps → Parsed

module _ (dw : Libdw) (lf : LibdwFunctions dw) (fuel : ℕ)
    (cache : List (List (List (Named dw.Die)))) (probes : Probes) where
  abbrev pub var_of : VarLocation → Fields → Option VarPath
  var_of l no_fuel = none
  var_of l refused = none
  var_of l (fields fs) = some (record { varloc = l; fields = fs })

  abbrev pub located_var : dw.Die → ℕ → List (List ℕ) → Option dw.Die → Translated → Option VarPath
  located_var func pc tokens none r = none
  located_var func pc tokens (some t) out_of_fuel = none
  located_var func pc tokens (some t) failed = none
  located_var func pc tokens (some t) (located l) =
      var_of l (translate_fields dw fuel fuel pc cache fuel t tokens)

  abbrev pub var_type : Option dw.Die → Option dw.Die
  var_type none = none
  var_type (some vardie) = type_ref dw vardie

  -- One variable: `none` if one of the two assertions fails.
  unfoldable pub translate_var : dw.Die → ℕ → List (List ℕ) → Option VarPath
  translate_var func pc [] = none
  translate_var func pc (param ∷ tokens) =
      located_var func pc (param ∷ tokens) (var_type (dw.getscopevar func param))
        (translate_param_location dw fuel func param pc no_location)

  abbrev pub cons_var : Option VarPath → Option (List VarPath) → Option (List VarPath)
  cons_var none vs = none
  cons_var (some v) none = none
  cons_var (some v) (some vs) = some (v ∷ vs)

  -- The loop over the variables of a function.
  unfoldable pub translate_vars : dw.Die → ℕ → List (List (List ℕ)) → Option (List VarPath)
  translate_vars func pc [] = some []
  translate_vars func pc (tokens ∷ arr) =
      cons_var (translate_var func pc tokens) (translate_vars func pc arr)

  abbrev pub stored_vars : List ℕ → List ℕ → ℕ → DwarfMaps → Option (List VarPath) → Parsed
  stored_vars mod_name fullname pc maps none = aborted
  stored_vars mod_name fullname pc maps (some vs) = parsed (record maps {
    mod_func2pc = put_in mod_name (record { name = fullname; value = pc }) maps.mod_func2pc;
    mod_func2vf = put_in mod_name (record { name = fullname; value = vs }) maps.mod_func2vf;
  })

  abbrev pub at_prologue :
      List ℕ → dw.Die → List ℕ → List (List (List ℕ)) → DwarfMaps → Option ℕ → Parsed
  at_prologue mod_name die fullname arr maps none = parsed maps
  at_prologue mod_name die fullname arr maps (some pc) =
      stored_vars mod_name fullname pc maps (translate_vars die pc arr)

  abbrev pub probed :
      List ℕ → Bool → dw.Die → List ℕ → DwarfMaps → Option (List (List (List ℕ))) → Parsed
  probed mod_name loclist die fullname maps none = parsed maps
  probed mod_name loclist die fullname maps (some arr) =
      let r = at_prologue mod_name die fullname arr maps (find_prologue dw lf loclist die) in
      if lf.func_inline die then parsed maps else r

  abbrev pub named_function : List ℕ → Bool → dw.Die → DwarfMaps → Option (List ℕ) → Parsed
  named_function mod_name loclist die maps none = parsed maps
  named_function mod_name loclist die maps (some funcname) =
      let fullname = full_name dw lf die funcname in
      let r = probed mod_name loclist die fullname maps (lookup_name fullname probes) in
      if filter_func probes funcname then r else parsed maps

  -- `handle_function`, in the module of the given name.
  unfoldable pub handle_function : List ℕ → Bool → dw.Die → DwarfMaps → Parsed
  handle_function mod_name loclist die maps =
      named_function mod_name loclist die maps (dw.diename die)

  abbrev pub and_parsed : (DwarfMaps → Parsed) → Parsed → Parsed
  and_parsed next aborted = aborted
  and_parsed next (parsed maps) = next maps

  unfoldable pub handle_functions : List ℕ → Bool → List dw.Die → DwarfMaps → Parsed
  handle_functions mod_name loclist [] maps = parsed maps
  handle_functions mod_name loclist (die ∷ dies) maps =
      and_parsed (λ m. handle_functions mod_name loclist dies m)
        (handle_function mod_name loclist die maps)

  abbrev pub unit_name : dw.Die → List ℕ
  unit_name cu = name_or dw lf (codes "<unknown>") (dw.diename cu)

  unfoldable pub is_looked_at : List (List ℕ) → List ℕ → Bool
  is_looked_at probe_units cu_name =
      filter_cu probe_units cu_name || same_bytes cu_name (codes "<artificial>")

  -- A unit of the module, if its name is one that is looked at.
  unfoldable pub handle_unit : List ℕ → List (List ℕ) → dw.Die → DwarfMaps → Parsed
  handle_unit mod_name probe_units cu maps =
      let r = handle_functions mod_name (die_has_loclist dw fuel cu) (lf.getfuncs cu) maps in
      if is_looked_at probe_units (unit_name cu) then r else parsed maps

  unfoldable pub handle_units : List ℕ → List (List ℕ) → List dw.Die → DwarfMaps → Parsed
  handle_units mod_name probe_units [] maps = parsed maps
  handle_units mod_name probe_units (cu ∷ cus) maps =
      and_parsed (λ m. handle_units mod_name probe_units cus m)
        (handle_unit mod_name probe_units cu maps)

  -- `handle_module`, for a module that has debugging information.
  unfoldable pub handle_module : List ℕ → List (List ℕ) → List dw.Die → DwarfMaps → Parsed
  handle_module mod_path probe_units units maps =
      handle_units (get_basename mod_path) probe_units units maps
