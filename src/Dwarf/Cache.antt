-- ===== src/Dwarf/Cache.antt =====
-- src/dwarf_parser.cc: the types that the parser keeps by name, and the sizes and member offsets
-- that it was asked for. An unordered map is the list of its elements in the order in which it is
-- traversed; here that is the order of insertion.
pub mod Path
use cephtrace.Base.{
  is_positive, is_natural, ℕ, Bool, true, false, not, ◌&&◌, ◌||◌, List, [], ◌∷◌, ◌++◌, Option, none,
  some, ltb, ◌<◌, ◌^◌, if◌then◌else◌, same_bytes, add64, u32_mod, minus_one, is_empty, codes, map,
}
use cephtrace.Bpf.Queue.{require}
use cephtrace.Dwarf.Types.{
  Tag, At, Libdw, typedef, structure_type, class_type, union_type, enumeration_type, base_type,
  compile_unit, type_unit, partial_unit,
}
use cephtrace.Dwarf.Members.{
  Inner, untyped, unfinished, unwrapped, inner_of, Found, out_of_fuel, absent, unusable, found,
  is_type_unit, strip_type_wrappers, find_member_offset_in,
}
use cephtrace.Select.Embedded.{Named}
use cephtrace.Select.Embedded.Import.{lookup_name, put_name, put_in, DwarfMaps}
use cephtrace.Select.Process.{get_basename}

-- `cache_type_prefix`.
unfoldable pub cache_type_prefix : Tag → List ℕ
cache_type_prefix enumeration_type = codes "enum "
cache_type_prefix structure_type = codes "struct "
cache_type_prefix class_type = codes "struct "
cache_type_prefix union_type = codes "union "
cache_type_prefix _ = []

-- The tags of the types that are kept.
unfoldable pub is_kept : Tag → Bool
is_kept base_type = true
is_kept enumeration_type = true
is_kept structure_type = true
is_kept class_type = true
is_kept typedef = true
is_kept union_type = true
is_kept _ = false

unfoldable pub is_partial_unit : Tag → Bool
is_partial_unit partial_unit = true
is_partial_unit _ = false

unfoldable pub is_compile_unit : Tag → Bool
is_compile_unit compile_unit = true
is_compile_unit _ = false

-- The name and the spellings under which a C or C++ aggregate is kept.
unfoldable pub candidates : List ℕ → List (List ℕ)
candidates name =
    name ∷ (codes "struct " ++ name) ∷ (codes "union " ++ name) ∷ (codes "enum " ++ name) ∷ []

abbrev pub first_of : {A : Type 0} → Option A → Option A → Option A
first_of none b = b
first_of (some a) b = some a

-- `member_offset_key`.
unfoldable pub dotted : List (List ℕ) → List ℕ
dotted [] = []
dotted (p ∷ ps) = (codes "." ++ p) ++ dotted ps

abbrev joined : List (List ℕ) → List ℕ
joined [] = []
joined (p ∷ ps) = p ++ dotted ps

unfoldable pub member_offset_key : List ℕ → List (List ℕ) → List ℕ
member_offset_key type path = (type ++ codes "::") ++ joined path

-- `request_type_size` and `request_member_offset` insert into sets.
pub record MemberRequest : Type 0 where
  pub type_name : List ℕ
  pub path : List (List ℕ)

pub record Requests : Type 0 where
  pub type_sizes : List (List ℕ)
  pub member_offsets : List MemberRequest

module _ (dw : Libdw) where
  -- What is kept of one unit, and of the units of a module.
  abbrev pub CuTypes : Type 0
  CuTypes = List (Named dw.Die)

  abbrev pub ModuleTypes : Type 0
  ModuleTypes = List (List (Named dw.Die))

  -- A type of this name; the first definition is kept.
  abbrev keep_named : dw.Die → Option (List ℕ) → List (Named dw.Die) → List (Named dw.Die)
  keep_named die none v = v
  keep_named die (some name) v =
      let key = cache_type_prefix (dw.tag die) ++ name in
      elim (lookup_name key v) [ none ↦ put_name key die v | some d ↦ v ]

  unfoldable pub keep_type : dw.Die → List (Named dw.Die) → List (Named dw.Die)
  keep_type die v =
      if is_kept (dw.tag die) && not (dw.hasattr die At.declaration)
      then keep_named die (dw.diename die) v
      else v

  unfoldable pub keep_types : List dw.Die → List (Named dw.Die) → List (Named dw.Die)
  keep_types [] v = v
  keep_types (die ∷ dies) v = keep_types dies (keep_type die v)

  -- `iterate_types_in_cu`, for a unit that was not seen before.
  unfoldable pub iterate_types_in_cu :
      dw.Die → List (List (Named dw.Die)) → List (List (Named dw.Die))
  iterate_types_in_cu cu_die mcu =
      if is_partial_unit (dw.tag cu_die)
      then mcu
      else mcu ++ keep_types (dw.children cu_die) [] ∷ []

  abbrev iterate_if :
      (Tag → Bool) → dw.Die → List (List (Named dw.Die)) → List (List (Named dw.Die))
  iterate_if p die mcu = if p (dw.tag die) then iterate_types_in_cu die mcu else mcu

  unfoldable pub iterate_units :
      (Tag → Bool) → List dw.Die → List (List (Named dw.Die)) → List (List (Named dw.Die))
  iterate_units p [] mcu = mcu
  iterate_units p (die ∷ dies) mcu = iterate_units p dies (iterate_if p die mcu)

  -- `traverse_module`, for the compile units and the type units of a module.
  unfoldable pub traverse_module : List dw.Die → List dw.Die → Bool → List (List (Named dw.Die))
  traverse_module units types want_type =
      let mcu = iterate_units is_compile_unit units [] in
      if want_type then iterate_units is_type_unit types mcu else mcu

  unfoldable pub find_candidate : List (List ℕ) → List (Named dw.Die) → Option dw.Die
  find_candidate [] v = none
  find_candidate (c ∷ cs) v = first_of (lookup_name c v) (find_candidate cs v)

  unfoldable pub find_in_units : List (List ℕ) → List (List (Named dw.Die)) → Option dw.Die
  find_in_units cs [] = none
  find_in_units cs (cu ∷ cus) = first_of (find_candidate cs cu) (find_in_units cs cus)

  -- `resolve_type_name`, over the modules.
  unfoldable pub resolve_type_name : List (List (List (Named dw.Die))) → List ℕ → Option dw.Die
  resolve_type_name [] name = none
  resolve_type_name (module_types ∷ ms) name =
      first_of (find_in_units (candidates name) module_types) (resolve_type_name ms name)

  unfoldable pub find_name_in_units : List ℕ → List (List (Named dw.Die)) → Option dw.Die
  find_name_in_units name [] = none
  find_name_in_units name (cu ∷ cus) = first_of (lookup_name name cu) (find_name_in_units name cus)

  abbrev find_name_in : List ℕ → List (List (List (Named dw.Die))) → Option dw.Die
  find_name_in name [] = none
  find_name_in name (m ∷ ms) = first_of (find_name_in_units name m) (find_name_in name ms)

  -- `resolve_typedecl`.
  unfoldable pub resolve_typedecl : List (List (List (Named dw.Die))) → dw.Die → Option dw.Die
  resolve_typedecl cache type = elim (dw.diename type) [
    | none ↦ none
    | some name ↦ find_name_in (cache_type_prefix (dw.tag type) ++ name) cache
  ]

-- What came of the walk along a path.
pub data Walk : Type 0 where
  tired : Walk
  lost : Walk
  walked : ℕ → Walk

abbrev pub int_of_size : Option ℕ → ℕ
int_of_size none = minus_one
int_of_size (some size) = if ltb size u32_mod then size else minus_one

-- An `int`, or `none` if the fuel is out.
abbrev pub int_of_walk : Walk → Option ℕ
int_of_walk tired = none
int_of_walk lost = some minus_one
int_of_walk (walked n) = some (int_of_size (some n))

-- In what follows `none` stands for fuel that is out.
module _ (dw : Libdw) (wrappers : ℕ) where
  abbrev pub cached : Option dw.Die → Inner dw.Die
  cached none = untyped
  cached (some t) = inner_of (strip_type_wrappers dw wrappers t)

  unfoldable pub find_cached_type : List (List (Named dw.Die)) → List ℕ → Inner dw.Die
  find_cached_type types name = cached (find_in_units dw (candidates name) types)

  abbrev size_of : Inner dw.Die → Option ℕ
  size_of untyped = some minus_one
  size_of unfinished = none
  size_of (unwrapped t) = some (int_of_size (dw.aggregate_size t))

  -- `resolve_type_size`, an `int`.
  unfoldable pub resolve_type_size : List (List (Named dw.Die)) → List ℕ → Option ℕ
  resolve_type_size types name = size_of (find_cached_type types name)

  -- One member of a path; `again` goes on with its type and the sum of the offsets.
  abbrev pub walk_next : (dw.Die → ℕ → Walk) → ℕ → Found dw.Die → Walk
  walk_next again total out_of_fuel = tired
  walk_next again total absent = lost
  walk_next again total unusable = lost
  walk_next again total (found off member_type) = again member_type (add64 total off)

  -- The loop over the path.
  unfoldable pub walk_path : ℕ → dw.Die → List (List ℕ) → ℕ → Walk
  walk_path fuel current [] total = walked total
  walk_path fuel current (member ∷ path) total =
      walk_next (λ t n. walk_path fuel t path n) total
        (find_member_offset_in dw wrappers fuel current member)

  abbrev pub walk_from : ℕ → List (List ℕ) → Inner dw.Die → Walk
  walk_from fuel path untyped = lost
  walk_from fuel path unfinished = tired
  walk_from fuel path (unwrapped d) = walk_path fuel d path 0

  -- `resolve_member_offset`, an `int`.
  unfoldable pub resolve_member_offset :
      ℕ → List (List (Named dw.Die)) → List ℕ → List (List ℕ) → Option ℕ
  resolve_member_offset fuel types type_name path =
      if is_empty path
      then some minus_one
      else int_of_walk (walk_from fuel path (find_cached_type types type_name))

  abbrev with_size : List ℕ → List ℕ → ℕ → DwarfMaps → DwarfMaps
  with_size mod_name t size maps =
      if is_positive size
      then record maps {
        mod_type_sizes = put_in mod_name (record { name = t; value = size }) maps.mod_type_sizes;
      }
      else maps

  unfoldable pub record_sizes :
      List ℕ → List (List (Named dw.Die)) → List (List ℕ) → DwarfMaps → Option DwarfMaps
  record_sizes mod_name types [] maps = some maps
  record_sizes mod_name types (t ∷ ts) maps =
      require (resolve_type_size types t) none
        λ size. record_sizes mod_name types ts (with_size mod_name t size maps)

  abbrev with_offset : List ℕ → MemberRequest → ℕ → DwarfMaps → DwarfMaps
  with_offset mod_name r off maps =
      if is_natural off
      then record maps {
        mod_member_offsets =
            put_in mod_name (record { name = member_offset_key r.type_name r.path; value = off })
              maps.mod_member_offsets;
      }
      else maps

  unfoldable pub record_offsets :
      ℕ → List ℕ → List (List (Named dw.Die)) → List MemberRequest → DwarfMaps → Option DwarfMaps
  record_offsets fuel mod_name types [] maps = some maps
  record_offsets fuel mod_name types (r ∷ rs) maps =
      require (resolve_member_offset fuel types r.type_name r.path) none
        λ off. record_offsets fuel mod_name types rs (with_offset mod_name r off maps)

  -- `preprocess_module`, for a module that has debugging information: the types of the module, and
  -- the maps with what was asked for.
  unfoldable pub preprocess_module :
      ℕ
      → List ℕ
      → List dw.Die
      → List dw.Die
      → Requests
      → DwarfMaps
      → Option (List (List (Named dw.Die)) × DwarfMaps)
  preprocess_module fuel mod_path units type_units requests maps =
      let types = traverse_module dw units type_units true in
      let name = get_basename mod_path in
      require (record_sizes name types requests.type_sizes maps) none λ sized.
        require (record_offsets fuel name types requests.member_offsets sized) none
          λ complete. some (types, complete)

abbrev lookup_or : List ℕ → Option (List (Named ℕ)) → ℕ
lookup_or key none = minus_one
lookup_or key (some table) = elim (lookup_name key table) [ none ↦ minus_one | some n ↦ n ]

-- `get_type_size` and `get_member_offset`: -1 if there is none.
unfoldable pub get_type_size : DwarfMaps → List ℕ → List ℕ → ℕ
get_type_size maps mod_path name =
    lookup_or name (lookup_name (get_basename mod_path) maps.mod_type_sizes)

unfoldable pub get_member_offset : DwarfMaps → List ℕ → List ℕ → List (List ℕ) → ℕ
get_member_offset maps mod_path type path =
    lookup_or (member_offset_key type path)
      (lookup_name (get_basename mod_path) maps.mod_member_offsets)
