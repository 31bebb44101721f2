-- ===== src/Select/Embedded.antt =====
-- src/dwarf_parser.cc: the embedded DWARF data of a build, found by the build ids of its modules.
-- The table is generated by the build. A null string is an empty one.
pub mod Match
pub mod Import
use cephtrace.Base.{
  ℕ, Bool, true, false, not, ◌&&◌, List, [], ◌∷◌, Option, none, some, if◌then◌else◌, filter, all,
  any, same_bytes, is_empty, map,
}
use cephtrace.Bpf.Types.{VarLocation, Field}

-- A module name and a build id.
pub record BuildId : Type 0 where
  pub module_name : List ℕ
  pub build_id : List ℕ

-- A name and what belongs to it, as an element of the generated arrays and of a std::map.
pub record Named (A : Type 0) : Type 0 where
  pub name : List ℕ
  pub value : A

-- `VarField` of userspace: where a variable is, and the members to go through.
pub record VarPath : Type 0 where
  pub varloc : VarLocation
  pub fields : List Field

pub record EmbeddedModule : Type 0 where
  pub id : BuildId
  pub type_sizes : List (Named ℕ)
  pub member_offsets : List (Named ℕ)
  pub func2pc : List (Named ℕ)
  pub func2vf : List (Named (List VarPath))

pub record EmbeddedVersion : Type 0 where
  pub version : List ℕ
  pub modules : List EmbeddedModule

abbrev pub module_ids : EmbeddedVersion → List BuildId
module_ids v = map (λ m. m.id) v.modules

-- The generated tables of the two tools.
pub record EmbeddedTables : Type 0 where
  pub osdtrace : List EmbeddedVersion
  pub radostrace : List EmbeddedVersion

-- `trace_type`, a string in the source.
pub data TraceType : Type 0 where
  osdtrace : TraceType
  radostrace : TraceType
  other : List ℕ → TraceType

abbrev pub table_of : EmbeddedTables → TraceType → Option (List EmbeddedVersion)
table_of t osdtrace = some t.osdtrace
table_of t radostrace = some t.radostrace
table_of t (other name) = none

-- `==` of two pairs.
unfoldable pub same_id : BuildId → BuildId → Bool
same_id a b = same_bytes a.module_name b.module_name && same_bytes a.build_id b.build_id

-- The set `want`; `none` if a build id is empty, or if there is no module.
unfoldable pub wanted : List BuildId → Option (List BuildId)
wanted modules =
    if any (λ m. is_empty m.build_id) modules
    then none
    else if is_empty modules
    then none
    else some modules

-- The set `have`.
abbrev pub build_ids : EmbeddedVersion → List BuildId
build_ids v = filter (λ m. not (is_empty m.build_id)) (module_ids v)

abbrev pub has_id : List BuildId → BuildId → Bool
has_id have w = any (same_id w) have

-- One round of the linear scan.
unfoldable pub is_match : List BuildId → EmbeddedVersion → Bool
is_match want v = not (is_empty v.modules) && all (has_id (build_ids v)) want

unfoldable pub scan : List BuildId → List EmbeddedVersion → Option EmbeddedVersion
scan want [] = none
scan want (v ∷ vs) = let rest = scan want vs in if is_match want v then some v else rest

unfoldable pub find_embedded_match :
    EmbeddedTables → List BuildId → TraceType → Option EmbeddedVersion
find_embedded_match tables modules trace_type = elim (table_of tables trace_type) [
  | none ↦ none
  | some versions ↦ elim (wanted modules) [ none ↦ none | some want ↦ scan want versions ]
]

-- `none`: not traceable; otherwise `matched_version_out`.
unfoldable pub is_embedded_traceable : EmbeddedTables → List BuildId → TraceType → Option (List ℕ)
is_embedded_traceable tables modules trace_type =
    elim (find_embedded_match tables modules trace_type) [ none ↦ none | some v ↦ some v.version ]
