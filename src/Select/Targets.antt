-- ===== src/Select/Targets.antt =====
-- src/osdtrace.cc: from the command line to the processes that are traced and the binary whose
-- probes are attached, `resolve_requested_osd_ids` and `resolve_trace_targets`.
pub mod Resolved
use cephtrace.Base.{
  ℕ, Bool, true, false, not, ◌&&◌, List, [], ◌∷◌, Option, none, some, ◌==◌, if◌then◌else◌, all,
  same_bytes, is_empty,
}
use cephtrace.Select.Embedded.{EmbeddedTables}
use cephtrace.Select.Process.{OsdProcess, Options, Host, insert, select_all_traceable_osds}

-- The target; without pids, every process that runs the binary is traced.
pub record TraceTarget : Type 0 where
  pub pids : List ℕ
  pub osd_path : List ℕ

-- The vector `matches`.
abbrev pub matches : ℕ → List OsdProcess → List ℕ
matches want [] = []
matches want (p ∷ ps) =
    let rest = matches want ps in if p.osd_id == want then p.pid ∷ rest else rest

-- The loop over the requested ids; an id without a process, or with several, ends it.
unfoldable pub resolve_ids : List OsdProcess → List ℕ → List ℕ → Option (List ℕ)
resolve_ids procs [] pids = some pids
resolve_ids procs (want ∷ wants) pids = elim (matches want procs) [
  | [] ↦ none
  | pid ∷ [] ↦ resolve_ids procs wants (insert pid pids)
  | pid ∷ other ∷ others ↦ none
]

unfoldable pub resolve_requested_osd_ids : Host → List ℕ → List ℕ → Option (List ℕ)
resolve_requested_osd_ids host requested process_ids =
    if not (is_empty process_ids) then none else resolve_ids host.processes requested []

-- What `process_ids` is after `-a` and `--id`.
unfoldable pub selected_ids : EmbeddedTables → Host → Options → Option (List ℕ)
selected_ids tables host opts =
    let after_all =
      if opts.trace_all
      then select_all_traceable_osds tables host opts
      else some opts.process_ids in
    elim after_all [
      | none ↦ none
      | some pids ↦
          if is_empty opts.requested_osd_ids
          then some pids
          else resolve_requested_osd_ids host opts.requested_osd_ids pids
    ]

abbrev pub starts_with : List ℕ → List ℕ → Bool
starts_with [] text = true
starts_with (c ∷ cs) [] = false
starts_with (c ∷ cs) (t ∷ ts) = c == t && starts_with cs ts

-- `text.find(word) != npos`.
abbrev pub contains : List ℕ → List ℕ → Bool
contains word [] = starts_with word []
contains word (t ∷ ts) = if starts_with word (t ∷ ts) then true else contains word ts

-- "ceph-osd".
abbrev pub ceph_osd_text : List ℕ
ceph_osd_text = b'c' ∷ b'e' ∷ b'p' ∷ b'h' ∷ b'-' ∷ b'o' ∷ b's' ∷ b'd' ∷ []

-- A further pid runs the same binary.
abbrev pub runs_path : Host → List ℕ → ℕ → Bool
runs_path host path pid =
    not (is_empty (host.exe_path_for_pid pid)) && same_bytes (host.exe_path_for_pid pid) path

-- The pids are checked in order, the first one's binary being the one to trace.
unfoldable pub target_of : Host → List ℕ → Option TraceTarget
target_of host [] =
    if is_empty host.host_executable
    then none
    else some (record { pids = []; osd_path = host.host_executable })
target_of host (first ∷ others) =
    let path = host.exe_path_for_pid first in
    if is_empty path
    then none
    else if not (contains ceph_osd_text path)
    then none
    else if all (runs_path host path) others
    then some (record { pids = first ∷ others; osd_path = path })
    else none

unfoldable pub resolve_trace_targets : EmbeddedTables → Host → Options → Option TraceTarget
resolve_trace_targets tables host opts = elim (selected_ids tables host opts) [
  | none ↦ none
  | some pids ↦ if all host.exists pids then target_of host pids else none
]
