-- ===== src/Select/Discover.antt =====
-- src/osdtrace.cc: `discover_ceph_osd_processes`, with `get_exe_path_for_pid` of src/utils.h.
pub mod Described
pub mod Found
use cephtrace.Base.{
  ℕ, ◌+◌, ◌/◌, ◌%◌, Bool, true, false, not, ◌&&◌, List, [], ◌∷◌, Option, none, some, ltb, ◌==◌,
  if◌then◌else◌, same_bytes, is_empty, codes, u32_mod,
}
use cephtrace.Bpf.Queue.{require}
use cephtrace.Select.Process.{OsdProcess, Verdict, unset, get_basename}
use cephtrace.Select.Targets.{ceph_osd_text}
use cephtrace.Select.OsdId.{stoi}
use cephtrace.Version.Text.{ProcEntry, before_word}
use cephtrace.Version.Deleted.{is_pid_entry}
use cephtrace.Report.Events.{Reporting, no_events, osd_pid_to_id}

-- What /proc shows of a process: the target of its exe link, its command line and its mount
-- namespace, which is empty if it cannot be read; and the namespace of the tool itself.
pub record ProcHost : Type 0 where
  pub proc_dir : Option (List ProcEntry)
  pub exe_link : ℕ → Option (List ℕ)
  pub first_argument : ℕ → List ℕ
  pub mnt_ns : ℕ → List ℕ
  pub self_ns : List ℕ

-- The target without the mark of a deleted file.
unfoldable pub get_exe_path_for_pid : Option (List ℕ) → List ℕ
get_exe_path_for_pid none = []
get_exe_path_for_pid (some target) = before_word (codes " (deleted)") target

-- The path, or what the command line begins with.
abbrev pub path_of_process : ProcHost → ℕ → List ℕ
path_of_process host pid =
    let exe_path = get_exe_path_for_pid (host.exe_link pid) in
    if is_empty exe_path then host.first_argument pid else exe_path

abbrev pub in_container : ProcHost → ℕ → Bool
in_container host pid =
    let proc_ns = host.mnt_ns pid in
    not (is_empty host.self_ns) && not (is_empty proc_ns) && not (same_bytes host.self_ns proc_ns)

-- One round of the loop over /proc. No OSD has been recorded yet.
unfoldable pub process_of : Reporting → ProcHost → ProcEntry → Option OsdProcess
process_of g host entry =
    if not (is_pid_entry entry)
    then none
    else require (stoi entry.d_name) none λ pid.
      let exe_path = path_of_process host pid in
      if is_empty exe_path
      then none
      else if not (same_bytes (get_basename exe_path) ceph_osd_text)
      then none
      else some (record {
        pid = pid;
        osd_id = osd_pid_to_id g no_events pid;
        exe_path = exe_path;
        is_container = in_container host pid;
        traceable = unset;
        version = [];
        build_id = [];
      })

-- `<` of two `int`s.
abbrev pub less_int : ℕ → ℕ → Bool
less_int a b = ltb ((a + u32_mod / 2) % u32_mod) ((b + u32_mod / 2) % u32_mod)

-- The order of the sort.
unfoldable pub precedes : OsdProcess → OsdProcess → Bool
precedes a b = if a.osd_id == b.osd_id then less_int a.pid b.pid else less_int a.osd_id b.osd_id

unfoldable pub insert_process : OsdProcess → List OsdProcess → List OsdProcess
insert_process p [] = p ∷ []
insert_process p (q ∷ qs) =
    let rest = insert_process p qs in if precedes p q then p ∷ q ∷ qs else q ∷ rest

abbrev pub add_process : Option OsdProcess → List OsdProcess → List OsdProcess
add_process none ps = ps
add_process (some p) ps = insert_process p ps

unfoldable pub sorted_processes : Reporting → ProcHost → List ProcEntry → List OsdProcess
sorted_processes g host [] = []
sorted_processes g host (entry ∷ entries) =
    add_process (process_of g host entry) (sorted_processes g host entries)

abbrev pub discover_ceph_osd_processes : Reporting → ProcHost → List OsdProcess
discover_ceph_osd_processes g host = require host.proc_dir [] (sorted_processes g host)
