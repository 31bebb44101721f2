-- ===== src/Select/Embedded/Import/Last.antt =====
-- What the maps of the DWARF parser hold after an import.
use cephtrace.Base.{
  ℕ, ◌≡◌, inl, inr, refl, subst, ap, ◌∙◌, arith, true, false, List, [], ◌∷◌, Option, none, some,
  if◌then◌else◌, same_bytes, same_bytes_refl, eq_of_same_bytes, ◌&&◌, Bool-cases,
}
use cephtrace.Bpf.Queue.{require}
use cephtrace.Select.Embedded.{
  BuildId, Named, EmbeddedModule, EmbeddedVersion, EmbeddedTables, TraceType, find_embedded_match,
}
use cephtrace.Select.Embedded.Import.{
  lookup_name, put_name, entries_of, put_in, put_all, DwarfMaps, import_module, import_modules,
  cleared, Imported, import_match, import_from_embedded,
}

-- The two names differ, as a test.
different :
    (a b c : List ℕ) → same_bytes a b ≡ false → same_bytes a c ≡ true → same_bytes c b ≡ false
different a b c h e = subst (λ z. same_bytes z b ≡ false) (eq_of_same_bytes a c e) h

module _ {A : Type 0} where
  pub lookup_name-put_name :
      (name other : List ℕ) (value : A) (es : List (Named A))
      → lookup_name other (put_name name value es)
        ≡ (if same_bytes other name then some value else lookup_name other es)
  unfolding lookup_name put_name
  lookup_name-put_name name other value [] = refl
  lookup_name-put_name name other value (e ∷ es) = elim (Bool-cases (same_bytes name e.name)) [
    | inl h ↦
        subst
          (λ z. lookup_name other (put_name name value (e ∷ es)) ≡ (
            if same_bytes other name
            then some value
            else if same_bytes other z
            then some e.value
            else lookup_name other es))
          (eq_of_same_bytes name e.name h) (ground arith)
    | inr h ↦ ground (
      arith,
      lookup_name-put_name name other value es,
      eq_of_same_bytes other name,
      eq_of_same_bytes other e.name,
      same_bytes_refl name,
    )
  ]

-- `table[mod_name][name]`, without what operator[] adds.
abbrev pub lookup_in : {A : Type 0} → List ℕ → List ℕ → List (Named (List (Named A))) → Option A
lookup_in mod_name name table = require (lookup_name mod_name table) none (lookup_name name)

abbrev pub or_earlier : {A : Type 0} → Option A → Option A → Option A
or_earlier none old = old
or_earlier (some a) old = some a

-- The last entry of that name.
unfoldable pub last_named : {A : Type 0} → List ℕ → List (Named A) → Option A
last_named name [] = none
last_named name (e ∷ es) =
    or_earlier (last_named name es) (if same_bytes name e.name then some e.value else none)

-- The last entry of that name in the last module of that name that has one.
unfoldable pub last_listed :
    {A : Type 0}
    → (EmbeddedModule → List (Named A))
    → List ℕ
    → List ℕ
    → List EmbeddedModule
    → Option A
last_listed array mod_name name [] = none
last_listed array mod_name name (m ∷ ms) =
    or_earlier (last_listed array mod_name name ms)
      (if same_bytes mod_name m.id.module_name then last_named name (array m) else none)

module _ {A : Type 0} (mod_name name : List ℕ) where
  -- What the map says of the name, whether or not it has the module.
  pub entries_of-lookup :
      (o : Option (List (Named A)))
      → lookup_name name (entries_of o) ≡ require o none (lookup_name name)
  unfolding lookup_name
  entries_of-lookup none = refl
  entries_of-lookup (some es) = refl

  pub lookup_in-put_in :
      (to : List ℕ) (e : Named A) (table : List (Named (List (Named A))))
      → lookup_in mod_name name (put_in to e table) ≡ (
          if same_bytes mod_name to && same_bytes name e.name
          then some e.value
          else lookup_in mod_name name table)
  unfolding put_in
  lookup_in-put_in to e table = elim (Bool-cases (same_bytes mod_name to)) [
    | inl h ↦
        let es = entries_of (lookup_name to table) in
        let same = eq_of_same_bytes mod_name to h in
        ground (
          arith,
          lookup_name-put_name to mod_name (put_name e.name e.value es) table,
          lookup_name-put_name e.name name e.value es,
          entries_of-lookup (lookup_name to table),
          ap (λ z. lookup_name z table) same,
        )
    | inr h ↦ ground (
      arith,
      lookup_name-put_name to mod_name (put_name e.name e.value (entries_of (lookup_name to table)))
          table,
    )
  ]

  pub lookup_in-put_all :
      (to : List ℕ) (es : List (Named A)) (table : List (Named (List (Named A))))
      → lookup_in mod_name name (put_all to es table)
        ≡ or_earlier
            (if same_bytes mod_name to then last_named name es else none)
            (lookup_in mod_name name table)
  unfolding put_all last_named
  lookup_in-put_all to [] table = ground arith
  lookup_in-put_all to (e ∷ es) table =
      ground (arith, lookup_in-put_all to es (put_in to e table), lookup_in-put_in to e table)

-- One of the four maps, filled module by module.
unfoldable put_modules :
    {A : Type 0}
    → (EmbeddedModule → List (Named A))
    → List EmbeddedModule
    → List (Named (List (Named A)))
    → List (Named (List (Named A)))
put_modules array [] table = table
put_modules array (m ∷ ms) table = put_modules array ms (put_all m.id.module_name (array m) table)

module _ {A : Type 0} (mod_name name : List ℕ) where
  put_modules-last :
      (array : EmbeddedModule → List (Named A)) (ms : List EmbeddedModule)
      (table : List (Named (List (Named A))))
      → lookup_in mod_name name (put_modules array ms table)
        ≡ or_earlier (last_listed array mod_name name ms) (lookup_in mod_name name table)
  unfolding put_modules last_listed
  put_modules-last array [] table = refl
  put_modules-last array (m ∷ ms) table = ground (
    arith,
    put_modules-last array ms (put_all m.id.module_name (array m) table),
    lookup_in-put_all mod_name name m.id.module_name (array m) table,
  )

  put_modules-cleared :
      (array : EmbeddedModule → List (Named A)) (ms : List EmbeddedModule)
      → lookup_in mod_name name (put_modules array ms []) ≡ last_listed array mod_name name ms
  unfolding lookup_name
  put_modules-cleared array ms =
      put_modules-last array ms [] ∙ or_none (last_listed array mod_name name ms)
    where
      or_none : (o : Option A) → or_earlier o none ≡ o
      or_none none = refl
      or_none (some a) = refl

-- Each of the four maps holds, of every name, what the modules list last.
pub record Holds (ms : List EmbeddedModule) (maps : DwarfMaps) (mod_name name : List ℕ)
    : Type 0 where
  pub pcs : lookup_in mod_name name maps.mod_func2pc ≡ last_listed (λ m. m.func2pc) mod_name name ms
  pub vfs : lookup_in mod_name name maps.mod_func2vf ≡ last_listed (λ m. m.func2vf) mod_name name ms
  pub sizes :
      lookup_in mod_name name maps.mod_type_sizes ≡ last_listed (λ m. m.type_sizes) mod_name name ms
  pub offsets :
      lookup_in mod_name name maps.mod_member_offsets
      ≡ last_listed (λ m. m.member_offsets) mod_name name ms

-- Before and after the modules, map by map.
record Fills (ms : List EmbeddedModule) (maps filled : DwarfMaps) : Type 0 where
  pub pcs : filled.mod_func2pc ≡ put_modules (λ m. m.func2pc) ms maps.mod_func2pc
  pub vfs : filled.mod_func2vf ≡ put_modules (λ m. m.func2vf) ms maps.mod_func2vf
  pub sizes : filled.mod_type_sizes ≡ put_modules (λ m. m.type_sizes) ms maps.mod_type_sizes
  pub offsets :
      filled.mod_member_offsets ≡ put_modules (λ m. m.member_offsets) ms maps.mod_member_offsets

import_modules-Fills :
    (ms : List EmbeddedModule) (maps : DwarfMaps) → Fills ms maps (import_modules ms maps)
unfolding import_modules import_module put_modules
import_modules-Fills [] maps = record { pcs = refl; vfs = refl; sizes = refl; offsets = refl }
import_modules-Fills (m ∷ ms) maps =
    let rest = import_modules-Fills ms (import_module m maps) in
    record { pcs = rest.pcs; vfs = rest.vfs; sizes = rest.sizes; offsets = rest.offsets }

import_modules-Holds :
    (ms : List EmbeddedModule) (mod_name name : List ℕ)
    → Holds ms (import_modules ms cleared) mod_name name
import_modules-Holds ms mod_name name =
    let f = import_modules-Fills ms cleared in
    record {
      pcs = ap (lookup_in mod_name name) f.pcs ∙ put_modules-cleared mod_name name _ ms;
      vfs = ap (lookup_in mod_name name) f.vfs ∙ put_modules-cleared mod_name name _ ms;
      sizes = ap (lookup_in mod_name name) f.sizes ∙ put_modules-cleared mod_name name _ ms;
      offsets = ap (lookup_in mod_name name) f.offsets ∙ put_modules-cleared mod_name name _ ms;
    }

-- After an import, by the entry that was found.
abbrev pub ImportOutcome : DwarfMaps → Imported → Option EmbeddedVersion → Type 0
ImportOutcome maps r none = (r.found ≡ false) × (r.maps ≡ maps)
ImportOutcome maps r (some v) =
    (r.found ≡ true)
    × (r.matched_version ≡ some v.version)
    × ((mod_name name : List ℕ) → Holds v.modules r.maps mod_name name)

-- An import without a matching entry fails and leaves the maps as they were. With one it succeeds
-- with its version, and of every module and name, each of the four maps holds what the modules of
-- the entry list last under them, and nothing that it held before.
pub import_from_embedded-outcome :
    (tables : EmbeddedTables) (modules : List BuildId) (trace_type : TraceType) (maps : DwarfMaps)
    → ImportOutcome maps
        (import_from_embedded tables modules trace_type maps)
        (find_embedded_match tables modules trace_type)
unfolding import_from_embedded
import_from_embedded-outcome tables modules trace_type maps =
    by_match (find_embedded_match tables modules trace_type)
  where
    by_match : (o : Option EmbeddedVersion) → ImportOutcome maps (import_match maps o) o
    by_match none = (refl, refl)
    by_match (some v) = (refl, refl, import_modules-Holds v.modules)
