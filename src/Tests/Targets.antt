-- ===== src/Tests/Targets.antt =====
-- The selection of processes on a concrete host.
use cephtrace.Base.{ℕ, ◌≡◌, refl, true, false, List, [], ◌∷◌, some, if◌then◌else◌, ◌==◌, All}
use cephtrace.Select.Embedded.{
  BuildId, EmbeddedModule, EmbeddedVersion, EmbeddedTables, osdtrace, same_id, wanted, is_match,
  scan, find_embedded_match, is_embedded_traceable,
}
use cephtrace.Select.Embedded.Match.{MatchOutcome, find_embedded_match-outcome}
use cephtrace.Select.Process.{
  OsdProcess, Options, Host, unset, get_basename, annotate, insert, select_all_traceable_osds,
}
use cephtrace.Select.Process.All.{Selected, select_all-Selected}
use cephtrace.Select.Targets.{
  TraceTarget, ceph_osd_text, selected_ids, target_of, resolve_trace_targets,
}
use cephtrace.Select.Targets.Resolved.{IsTarget, resolve_trace_targets-IsTarget}

abbrev osd_build : BuildId
osd_build = record { module_name = ceph_osd_text; build_id = b'a' ∷ b'1' ∷ [] }

abbrev osd_module : EmbeddedModule
osd_module = record {
  id = osd_build;
  type_sizes = [];
  member_offsets = [];
  func2pc = [];
  func2vf = [];
}

abbrev reef : EmbeddedVersion
reef = record { version = b'1' ∷ b'8' ∷ []; modules = osd_module ∷ [] }

abbrev pub tables : EmbeddedTables
tables = record { osdtrace = reef ∷ []; radostrace = [] }

abbrev pub osd_path : List ℕ
osd_path = b'/' ∷ ceph_osd_text

abbrev process : ℕ → ℕ → OsdProcess
process pid osd_id = record {
  pid = pid;
  osd_id = osd_id;
  exe_path = osd_path;
  is_container = false;
  traceable = unset;
  version = [];
  build_id = [];
}

-- Three OSDs, the last one with a binary that has no build id.
abbrev pub host : Host
host = record {
  processes = process 40 0 ∷ process 30 1 ∷ process 50 2 ∷ [];
  elf_build_id = λ pid path. if pid == 50 then [] else b'a' ∷ b'1' ∷ [];
  executable_deleted = λ pid. false;
  package_version = λ path. [];
  exists = λ pid. true;
  exe_path_for_pid = λ pid. osd_path;
  host_executable = [];
}

abbrev all_options : Options
all_options = record {
  process_ids = [];
  requested_osd_ids = [];
  export_json = false;
  import_json = false;
  trace_all = true;
}

find_embedded_match-outcome_example :
    MatchOutcome (reef ∷ []) (osd_build ∷ []) (find_embedded_match tables (osd_build ∷ []) osdtrace)
find_embedded_match-outcome_example =
    find_embedded_match-outcome tables (osd_build ∷ []) osdtrace (reef ∷ []) refl

selected : select_all_traceable_osds tables host all_options ≡ some (30 ∷ 40 ∷ [])
unfolding select_all_traceable_osds annotate get_basename is_embedded_traceable find_embedded_match
    wanted scan is_match same_id insert
selected = refl

select_all-Selected_example : Selected tables host (30 ∷ 40 ∷ [])
select_all-Selected_example = select_all-Selected tables host all_options (30 ∷ 40 ∷ []) selected

abbrev pub target : TraceTarget
target = record { pids = 30 ∷ 40 ∷ []; osd_path = osd_path }

pub targeted : resolve_trace_targets tables host all_options ≡ some target
unfolding resolve_trace_targets target_of selected_ids select_all_traceable_osds annotate
    get_basename is_embedded_traceable find_embedded_match wanted scan is_match same_id insert
targeted = refl

resolve_trace_targets-IsTarget_example : IsTarget host target
resolve_trace_targets-IsTarget_example =
    resolve_trace_targets-IsTarget tables host all_options target targeted
