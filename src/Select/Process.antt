-- ===== src/Select/Process.antt =====
-- src/osdtrace.cc: the verdict on each ceph-osd process, `annotate_traceability`, and the selection
-- of all of them by `-a`, `select_all_traceable_osds`. Pids are not negative.
pub mod All
use cephtrace.Base.{
  ℕ, Bool, true, false, not, ◌&&◌, ◌||◌, List, [], ◌∷◌, map, Option, none, some, ltb, ◌==◌,
  if◌then◌else◌, filter, all, any, same_bytes, is_empty, nonempty, is_empty_of_ne, Option-cases,
}
use cephtrace.Select.Embedded.{BuildId, EmbeddedTables, osdtrace, is_embedded_traceable}

-- The text of `traceable`; `unset` is the empty one.
pub data Verdict : Type 0 where
  unset yes no unknown : Verdict

-- `OsdProcessInfo`.
pub record OsdProcess : Type 0 where
  pub pid : ℕ
  pub osd_id : ℕ
  pub exe_path : List ℕ
  pub is_container : Bool
  pub traceable : Verdict
  pub version : List ℕ
  pub build_id : List ℕ

-- The command line's choices.
pub record Options : Type 0 where
  pub process_ids : List ℕ
  pub requested_osd_ids : List ℕ
  pub export_json : Bool
  pub import_json : Bool
  pub trace_all : Bool

-- What is read from the host: the processes that `discover_ceph_osd_processes` finds in /proc; the
-- build id of a process's binary, which `get_elf_build_id` reads below /proc/<pid>/root; whether
-- `check_executable_deleted` finds the binary replaced; the package database's version of a path;
-- whether /proc/<pid> exists; what /proc/<pid>/exe links to; and where the host has a ceph-osd.
pub record Host : Type 0 where
  pub processes : List OsdProcess
  pub elf_build_id : ℕ → List ℕ → List ℕ
  pub executable_deleted : ℕ → Bool
  pub package_version : List ℕ → List ℕ
  pub exists : ℕ → Bool
  pub exe_path_for_pid : ℕ → List ℕ
  pub host_executable : List ℕ

-- "unknown".
abbrev pub unknown_text : List ℕ
unknown_text = b'u' ∷ b'n' ∷ b'k' ∷ b'n' ∷ b'o' ∷ b'w' ∷ b'n' ∷ []

-- `get_basename` of src/utils.h: what follows the last slash.
unfoldable pub get_basename : List ℕ → List ℕ
get_basename [] = []
get_basename (c ∷ cs) =
    let rest = get_basename cs in
    if any (λ d. d == b'/') cs then rest else if c == b'/' then cs else c ∷ cs

-- The version of a process that no embedded entry matches.
abbrev pub host_version : Host → OsdProcess → List ℕ
host_version host p =
    let pkg = host.package_version p.exe_path in
    if not p.is_container && not (host.executable_deleted p.pid)
    then if not (is_empty pkg) && not (same_bytes pkg unknown_text) then pkg else unknown_text
    else unknown_text

abbrev pub binary_of : Host → OsdProcess → BuildId
binary_of host p = record {
  module_name = get_basename p.exe_path;
  build_id = host.elf_build_id p.pid p.exe_path;
}

-- One round of `annotate_traceability`.
unfoldable pub annotate : EmbeddedTables → Host → OsdProcess → OsdProcess
annotate tables host p0 =
    let binary = binary_of host p0 in
    let p : OsdProcess = record p0 { version = unknown_text; build_id = binary.build_id } in
    if is_empty binary.build_id
    then record p { traceable = unknown }
    else elim (is_embedded_traceable tables (binary ∷ []) osdtrace) [
      | none ↦ record p { traceable = no; version = host_version host p }
      | some matched ↦ record p {
        traceable = yes;
        version = if is_empty matched then unknown_text else matched;
      }
    ]

-- `p.traceable == "yes" && !p.build_id.empty()`.
abbrev pub is_selectable : OsdProcess → Bool
is_selectable p = elim p.traceable [ yes ↦ not (is_empty p.build_id) | _ ↦ false ]

-- Insertion in a `std::set<int>`, as an ordered list.
unfoldable pub insert : ℕ → List ℕ → List ℕ
insert n [] = n ∷ []
insert n (m ∷ ms) =
    let rest = insert n ms in if ltb n m then n ∷ m ∷ ms else if n == m then m ∷ ms else m ∷ rest

abbrev pub pid_set : List OsdProcess → List ℕ
pid_set [] = []
pid_set (p ∷ ps) = insert p.pid (pid_set ps)

-- The processes are of one build, which the first one's build id tells.
abbrev pub one_build : List OsdProcess → Bool
one_build [] = false
one_build (p ∷ ps) = all (λ q. same_bytes q.build_id p.build_id) (p ∷ ps)

-- `none` is the exit code 1; otherwise what `process_ids` becomes.
unfoldable pub select_all_traceable_osds : EmbeddedTables → Host → Options → Option (List ℕ)
select_all_traceable_osds tables host opts =
    let traceable = filter is_selectable (map (annotate tables host) host.processes) in
    if not (is_empty opts.process_ids) || not (is_empty opts.requested_osd_ids)
    then none
    else if opts.export_json || opts.import_json
    then none
    else if is_empty host.processes
    then none
    else if is_empty traceable
    then none
    else if one_build traceable
    then some (pid_set traceable)
    else none
