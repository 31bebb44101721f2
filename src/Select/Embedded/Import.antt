-- ===== src/Select/Embedded/Import.antt =====
-- src/dwarf_parser.cc: `import_from_embedded`, which fills the maps of the DWARF parser.
pub mod Last
use cephtrace.Base.{
  ℕ, Bool, true, false, not, ◌&&◌, ◌||◌, List, [], ◌∷◌, ◌++◌, map, Option, none, some, ltb, ◌==◌,
  if◌then◌else◌, same_bytes,
}
use cephtrace.Bpf.Queue.{require}
use cephtrace.Select.Embedded.{
  BuildId, Named, VarPath, EmbeddedModule, EmbeddedVersion, EmbeddedTables, TraceType,
  find_embedded_match,
}

-- The order of std::string.
unfoldable pub less_bytes : List ℕ → List ℕ → Bool
less_bytes [] [] = false
less_bytes [] (d ∷ ds) = true
less_bytes (c ∷ cs) [] = false
less_bytes (c ∷ cs) (d ∷ ds) = ltb c d || (c == d && less_bytes cs ds)

-- A std::map from names, in its order.
module _ {A : Type 0} where
  unfoldable pub lookup_name : List ℕ → List (Named A) → Option A
  lookup_name name [] = none
  lookup_name name (e ∷ es) =
      let rest = lookup_name name es in if same_bytes name e.name then some e.value else rest

  -- `table[name] = value`.
  unfoldable pub put_name : List ℕ → A → List (Named A) → List (Named A)
  put_name name value [] = record { name = name; value = value } ∷ []
  put_name name value (e ∷ es) =
      let rest = put_name name value es in
      if same_bytes name e.name
      then record { name = name; value = value } ∷ es
      else if less_bytes name e.name
      then record { name = name; value = value } ∷ e ∷ es
      else e ∷ rest

abbrev pub entries_of : {A : Type 0} → Option (List (Named A)) → List (Named A)
entries_of none = []
entries_of (some es) = es

-- `table[mod_name][name] = value`.
unfoldable pub put_in :
    {A : Type 0} → List ℕ → Named A → List (Named (List (Named A))) → List (Named (List (Named A)))
put_in mod_name e table =
    put_name mod_name (put_name e.name e.value (entries_of (lookup_name mod_name table))) table

-- The loop over one of a module's arrays.
unfoldable pub put_all :
    {A : Type 0}
    → List ℕ
    → List (Named A)
    → List (Named (List (Named A)))
    → List (Named (List (Named A)))
put_all mod_name [] table = table
put_all mod_name (e ∷ es) table = put_all mod_name es (put_in mod_name e table)

-- `mod_func2pc`, `mod_func2vf`, `mod_type_sizes` and `mod_member_offsets`.
pub record DwarfMaps : Type 0 where
  pub mod_func2pc : List (Named (List (Named ℕ)))
  pub mod_func2vf : List (Named (List (Named (List VarPath))))
  pub mod_type_sizes : List (Named (List (Named ℕ)))
  pub mod_member_offsets : List (Named (List (Named ℕ)))

abbrev pub cleared : DwarfMaps
cleared = record {
  mod_func2pc = [];
  mod_func2vf = [];
  mod_type_sizes = [];
  mod_member_offsets = [];
}

unfoldable pub import_module : EmbeddedModule → DwarfMaps → DwarfMaps
import_module m maps = record {
  mod_func2pc = put_all m.id.module_name m.func2pc maps.mod_func2pc;
  mod_func2vf = put_all m.id.module_name m.func2vf maps.mod_func2vf;
  mod_type_sizes = put_all m.id.module_name m.type_sizes maps.mod_type_sizes;
  mod_member_offsets = put_all m.id.module_name m.member_offsets maps.mod_member_offsets;
}

unfoldable pub import_modules : List EmbeddedModule → DwarfMaps → DwarfMaps
import_modules [] maps = maps
import_modules (m ∷ ms) maps = import_modules ms (import_module m maps)

-- The result of the import: whether there was a match, the maps, and `matched_version_out`.
pub record Imported : Type 0 where
  pub found : Bool
  pub maps : DwarfMaps
  pub matched_version : Option (List ℕ)

abbrev pub import_match : DwarfMaps → Option EmbeddedVersion → Imported
import_match maps none = record { found = false; maps = maps; matched_version = none }
import_match maps (some v) = record {
  found = true;
  maps = import_modules v.modules cleared;
  matched_version = some v.version;
}

unfoldable pub import_from_embedded :
    EmbeddedTables → List BuildId → TraceType → DwarfMaps → Imported
import_from_embedded tables modules trace_type maps =
    import_match maps (find_embedded_match tables modules trace_type)
