-- ===== src/Dwarf/Json.antt =====
-- src/dwarf_parser.cc: `export_to_json` and `import_from_json`. The JSON library and the file are
-- parameters. What is built by assigning to the keys of a std::map, in its order, is the object of
-- these keys. That the export leaves an empty map of variables for a module without one is left out.
pub mod Keys
pub mod Values
pub mod Tables
pub mod RoundTrip
use cephtrace.Base.{
  ℕ, ◌<◌, ◌≡◌, Bool, true, false, not, ◌&&◌, ◌||◌, List, [], ◌∷◌, ◌++◌, map, Option, none, some,
  if◌then◌else◌, same_bytes, is_empty, codes, u32_mod, u64_mod,
}
use cephtrace.Bpf.Types.{VarLocation, Field}
use cephtrace.Select.Embedded.{Named, VarPath}
use cephtrace.Select.Embedded.Import.{lookup_name, put_name, put_in, entries_of, DwarfMaps}
use cephtrace.Select.Process.{get_basename}

-- The JSON library. An `int` is a bit pattern. `object` is given keys that are distinct. A conversion
-- that throws is `none`, and so is a `dump` that throws, as it does for a text that is not UTF-8.
pub record JsonLibrary : Type 1 where
  pub Json : Type 0
  pub Text : Type 0
  pub object : List (Named Json) → Json
  pub array : List Json → Json
  pub text : List ℕ → Json
  pub boolean : Bool → Json
  pub unsigned : ℕ → Json
  pub integer : ℕ → Json
  pub is_object : Json → Bool
  pub items : Json → List (Named Json)
  pub elements : Json → List Json
  pub get_text : Json → Option (List ℕ)
  pub get_bool : Json → Option Bool
  pub get_int : Json → Option ℕ
  pub get_uint32 : Json → Option ℕ
  pub get_uint64 : Json → Option ℕ
  pub dump : Json → Option Text
  pub parse : Text → Option Json

-- A loop that may be left by an exception, with what it had stored by then.
pub record Attempt (A : Type 0) : Type 0 where
  pub completed : Bool
  pub value : A

abbrev pub done : {A : Type 0} → A → Attempt A
done a = record { completed = true; value = a }

abbrev pub has_some : {A : Type 0} → Option A → Bool
has_some none = false
has_some (some a) = true

abbrev pub thrown : {A : Type 0} → A → Attempt A
thrown a = record { completed = false; value = a }

abbrev pub or_none {ℓ} : {A : Type ℓ} {B : Type 0} → Option A → (A → Option B) → Option B
or_none none f = none
or_none (some a) f = f a

-- The keys of a std::map are distinct.
abbrev pub IsDistinct : {A : Type 0} → List (Named A) → Type 0
IsDistinct [] = Unit
IsDistinct (e ∷ es) = (lookup_name e.name es ≡ none) × IsDistinct es

-- The three maps that are cleared.
abbrev pub cleared_maps : DwarfMaps → DwarfMaps
cleared_maps m = record m { mod_func2pc = []; mod_func2vf = []; mod_type_sizes = [] }

abbrev pub stored_as : {A : Type 0} → Attempt A → (A → DwarfMaps) → Attempt DwarfMaps
stored_as a store = record { completed = a.completed; value = store a.value }

abbrev pub then_next : Attempt DwarfMaps → (DwarfMaps → Attempt DwarfMaps) → Attempt DwarfMaps
then_next a next = if a.completed then next a.value else a

module _ {A : Type 0} where
  -- Into a std::set.
  unfoldable pub insert_names : List (Named A) → List (Named Bool) → List (Named Bool)
  insert_names [] set = set
  insert_names (e ∷ es) set = insert_names es (put_name e.name true set)

-- The names of the modules of all maps.
unfoldable pub module_names : DwarfMaps → List (Named Bool)
module_names maps = insert_names maps.mod_member_offsets (
    insert_names maps.mod_type_sizes
      (insert_names maps.mod_func2vf (insert_names maps.mod_func2pc [])))

module _ (lib : JsonLibrary) where
  abbrev pub entry : List ℕ → lib.Json → Named lib.Json
  entry name value = record { name = name; value = value }

  unfoldable pub field_json : Field → lib.Json
  field_json f = lib.object (
      entry (codes "offset") (lib.integer f.offset)
      ∷ entry (codes "pointer") (lib.boolean f.pointer)
      ∷ [])

  unfoldable pub location_json : VarLocation → lib.Json
  location_json l = lib.object (
      entry (codes "reg") (lib.integer l.reg)
      ∷ entry (codes "offset") (lib.integer l.offset)
      ∷ entry (codes "stack") (lib.boolean l.stack)
      ∷ [])

  unfoldable pub var_json : VarPath → lib.Json
  var_json v = lib.object (
      entry (codes "location") (location_json v.varloc)
      ∷ entry (codes "fields") (lib.array (map field_json v.fields))
      ∷ [])

  unfoldable pub func_json : List VarPath → lib.Json
  func_json vars = lib.object (entry (codes "var_fields") (lib.array (map var_json vars)) ∷ [])

  abbrev pub encode : {A : Type 0} → (A → lib.Json) → Named A → Named lib.Json
  encode enc e = entry e.name (enc e.value)

  -- The object of a module's map.
  unfoldable pub table_json :
      {A : Type 0} → (A → lib.Json) → List ℕ → List (Named (List (Named A))) → lib.Json
  table_json enc mod_name table =
      lib.object (map (encode enc) (entries_of (lookup_name mod_name table)))

  abbrev pub id_entry : Option (List ℕ) → List (Named lib.Json)
  id_entry none = []
  id_entry (some bid) = entry (codes "build_id") (lib.text bid) ∷ []

  -- `build_id` is that of the module's file, if the file is known and has one.
  unfoldable pub module_json : (List ℕ → Option (List ℕ)) → DwarfMaps → List ℕ → lib.Json
  module_json build_id maps mod_name = lib.object (
      id_entry (build_id mod_name)
      ++ (entry (codes "func2pc") (table_json lib.unsigned mod_name maps.mod_func2pc)
          ∷ entry (codes "type_sizes") (table_json lib.unsigned mod_name maps.mod_type_sizes)
          ∷ entry (codes "member_offsets")
              (table_json lib.unsigned mod_name maps.mod_member_offsets)
          ∷ entry (codes "func2vf") (table_json func_json mod_name maps.mod_func2vf)
          ∷ []))

  abbrev pub text_entry : List ℕ → List ℕ → List (Named lib.Json)
  text_entry key value = if is_empty value then [] else entry key (lib.text value) ∷ []

  abbrev pub module_entry : (List ℕ → Option (List ℕ)) → DwarfMaps → Named Bool → Named lib.Json
  module_entry build_id maps m = entry m.name (module_json build_id maps m.name)

  -- `j[key] = value`: the value of the key is replaced, or the key is added at the end.
  unfoldable pub assign : Named lib.Json → List (Named lib.Json) → List (Named lib.Json)
  assign e [] = e ∷ []
  assign e (d ∷ ds) =
      let rest = assign e ds in if same_bytes e.name d.name then e ∷ ds else d ∷ rest

  unfoldable pub assign_all : List (Named lib.Json) → List (Named lib.Json) → List (Named lib.Json)
  assign_all [] j = j
  assign_all (e ∷ es) j = assign_all es (assign e j)

  abbrev pub header : List ℕ → List ℕ → List (Named lib.Json)
  header version arch = text_entry (codes "version") version ++ text_entry (codes "arch") arch

  -- `export_to_json`, the contents of the file; `none` if it throws.
  unfoldable pub export_to_json :
      (List ℕ → Option (List ℕ)) → List ℕ → List ℕ → DwarfMaps → Option lib.Text
  export_to_json build_id arch version maps = lib.dump (
      lib.object
        (assign_all (map (module_entry build_id maps) (module_names maps)) (header version arch)))

  unfoldable pub key_of : List ℕ → lib.Json → Option lib.Json
  key_of key j = if lib.is_object j then lookup_name key (lib.items j) else none

  unfoldable pub read_field : lib.Json → Option Field
  read_field j = or_none (or_none (key_of (codes "offset") j) lib.get_int) λ offset.
      or_none (or_none (key_of (codes "pointer") j) lib.get_bool)
        λ pointer. some (record { offset = offset; pointer = pointer })

  unfoldable pub read_location : lib.Json → Option VarLocation
  read_location j = or_none (or_none (key_of (codes "reg") j) lib.get_int) λ reg.
      or_none (or_none (key_of (codes "offset") j) lib.get_int) λ offset.
        or_none (or_none (key_of (codes "stack") j) lib.get_bool)
          λ stack. some (record { reg = reg; offset = offset; stack = stack })

  -- A range-for over an array.
  abbrev pub read_all : {A : Type 0} → (lib.Json → Option A) → List lib.Json → Option (List A)
  read_all read [] = some []
  read_all read (j ∷ js) = or_none (read j) λ a. or_none (read_all read js) λ rest. some (a ∷ rest)

  unfoldable pub read_var : lib.Json → Option VarPath
  read_var j = or_none (or_none (key_of (codes "location") j) read_location) λ l.
      or_none (or_none (key_of (codes "fields") j) (λ a. read_all read_field (lib.elements a)))
        λ fs. some (record { varloc = l; fields = fs })

  unfoldable pub read_func : lib.Json → Option (List VarPath)
  read_func j = or_none (key_of (codes "var_fields") j) λ a. read_all read_var (lib.elements a)

  -- The loop over the items of one of a module's objects.
  abbrev pub import_items :
      {A : Type 0}
      → (lib.Json → Option A)
      → List ℕ
      → List (Named lib.Json)
      → List (Named (List (Named A)))
      → Attempt (List (Named (List (Named A))))
  import_items read key [] table = done table
  import_items read key (e ∷ es) table = elim (read e.value) [
    | none ↦ thrown table
    | some a ↦ import_items read key es (put_in key (record { name = e.name; value = a }) table)
  ]

  -- The object may be missing.
  abbrev pub import_key :
      {A : Type 0}
      → (lib.Json → Option A)
      → List ℕ
      → Option lib.Json
      → List (Named (List (Named A)))
      → Attempt (List (Named (List (Named A))))
  import_key read key none table = done table
  import_key read key (some j) table = import_items read key (lib.items j) table

  -- The four parts of the body of the loop over the modules.
  unfoldable pub import_pcs : List ℕ → lib.Json → DwarfMaps → Attempt DwarfMaps
  import_pcs key j m =
      stored_as (import_key lib.get_uint64 key (key_of (codes "func2pc") j) m.mod_func2pc)
        (λ t. record m { mod_func2pc = t })

  unfoldable pub import_sizes : List ℕ → lib.Json → DwarfMaps → Attempt DwarfMaps
  import_sizes key j m =
      stored_as (import_key lib.get_uint32 key (key_of (codes "type_sizes") j) m.mod_type_sizes)
        (λ t. record m { mod_type_sizes = t })

  unfoldable pub import_offsets : List ℕ → lib.Json → DwarfMaps → Attempt DwarfMaps
  import_offsets key j m =
      stored_as
        (import_key lib.get_uint32 key (key_of (codes "member_offsets") j) m.mod_member_offsets)
        (λ t. record m { mod_member_offsets = t })

  unfoldable pub import_vars : List ℕ → lib.Json → DwarfMaps → Attempt DwarfMaps
  import_vars key j m =
      stored_as (import_key read_func key (key_of (codes "func2vf") j) m.mod_func2vf)
        (λ t. record m { mod_func2vf = t })

  -- The body of the loop over the modules, for an object that is a module's.
  unfoldable pub import_module_json : List ℕ → lib.Json → DwarfMaps → Attempt DwarfMaps
  import_module_json key j m =
      then_next
        (then_next (then_next (import_pcs key j m) (import_sizes key j)) (import_offsets key j))
        (import_vars key j)

  abbrev pub has_key : List ℕ → lib.Json → Bool
  has_key key j = has_some (key_of key j)

  -- Metadata is passed over.
  unfoldable pub is_module : lib.Json → Bool
  is_module j = lib.is_object j && (has_key (codes "func2pc") j || has_key (codes "func2vf") j)

  unfoldable pub import_entry : Named lib.Json → DwarfMaps → Attempt DwarfMaps
  import_entry e m =
      if is_module e.value then import_module_json (get_basename e.name) e.value m else done m

  unfoldable pub import_entries : List (Named lib.Json) → DwarfMaps → Attempt DwarfMaps
  import_entries [] m = done m
  import_entries (e ∷ es) m =
      let a = import_entry e m in
      let rest = import_entries es a.value in if a.completed then rest else a

  -- The version check.
  abbrev pub is_expected : List ℕ → Option (List ℕ) → Bool
  is_expected expected none = false
  is_expected expected (some v) = same_bytes v expected

  unfoldable pub version_matches : List ℕ → lib.Json → Bool
  version_matches expected j =
      is_empty expected || is_expected expected (or_none (key_of (codes "version") j) lib.get_text)

  abbrev pub import_parsed : List ℕ → DwarfMaps → Option lib.Json → Attempt DwarfMaps
  import_parsed expected m none = thrown m
  import_parsed expected m (some j) =
      let imported = import_entries (lib.items j) (cleared_maps m) in
      if version_matches expected j then imported else thrown m

  -- `import_from_json` of a file: whether it returns true, and the maps.
  unfoldable pub import_from_json : List ℕ → Option lib.Text → DwarfMaps → Attempt DwarfMaps
  import_from_json expected none m = thrown m
  import_from_json expected (some file) m = import_parsed expected m (lib.parse file)
