-- ===== src/Rados/Clients.antt =====
-- src/radostrace.cc: `discover_ceph_clients`, for `--list`; atoi of a pid is std::stoi. What /proc and the package database say
-- is the host's.
pub mod Listed
use cephtrace.Base.{
  ℕ, Bool, true, false, not, ◌&&◌, ◌||◌, List, [], ◌∷◌, ◌++◌, Option, none, some, ltb, ◌==◌,
  if◌then◌else◌, same_bytes, is_empty, codes, is_positive,
}
use cephtrace.Bpf.Queue.{require}
use cephtrace.Select.Embedded.{BuildId, EmbeddedTables, radostrace, is_embedded_traceable}
use cephtrace.Select.Process.{Verdict, yes, no, unknown, unknown_text}
use cephtrace.Select.Targets.{contains}
use cephtrace.Select.OsdId.{stoi}
use cephtrace.Version.Text.{ProcEntry, from_slash}
use cephtrace.Version.Deleted.{is_pid_entry}

-- `CephClientInfo`.
pub record CephClient : Type 0 where
  pub pid : ℕ
  pub exe_path : List ℕ
  pub is_container : Bool
  pub traceable : Verdict
  pub version : List ℕ

-- `maps` is the lines of /proc/<pid>/maps, none if it cannot be opened; a namespace is empty if it
-- cannot be read; `elf_build_id` is that of a file below the root of a process.
pub record ClientHost : Type 0 where
  pub proc_dir : Option (List ProcEntry)
  pub maps : ℕ → List (List ℕ)
  pub exe_path_for_pid : ℕ → List ℕ
  pub mnt_ns : ℕ → List ℕ
  pub self_ns : List ℕ
  pub elf_build_id : ℕ → List ℕ → List ℕ
  pub package_version : List ℕ → List ℕ

abbrev pub libceph_common : List ℕ
libceph_common = codes "libceph-common.so.2"

-- The path of a line, if it names the library; else what later lines give.
abbrev pub library_or : Option (List ℕ) → List ℕ → List ℕ
library_or none rest = rest
library_or (some path) rest = if contains libceph_common path then path else rest

-- The path in the first line that names the library behind a slash; empty if there is none.
unfoldable pub library_in : List (List ℕ) → List ℕ
library_in [] = []
library_in (line ∷ lines) = library_or (from_slash line) (library_in lines)

module _ (tables : EmbeddedTables) (host : ClientHost) where
  abbrev pub client_in_container : ℕ → Bool
  client_in_container pid =
      let ns = host.mnt_ns pid in
      not (is_empty host.self_ns) && not (is_empty ns) && not (same_bytes host.self_ns ns)

  -- The version by the package of the library, of a client outside of containers.
  abbrev pub package_or_unknown : Bool → List ℕ → List ℕ
  package_or_unknown is_container lib_path =
      let pkg = host.package_version lib_path in
      if not is_container && not (is_empty pkg) && not (same_bytes pkg unknown_text)
      then pkg
      else unknown_text

  abbrev pub common_build : List ℕ → List BuildId
  common_build bid = record { module_name = libceph_common; build_id = bid } ∷ []

  abbrev pub verdict_of : Option (List ℕ) → Bool → List ℕ → Verdict × List ℕ
  verdict_of none is_container lib_path = (no, package_or_unknown is_container lib_path)
  verdict_of (some matched) is_container lib_path =
      (yes, if is_empty matched then unknown_text else matched)

  -- The traceability, and the version.
  unfoldable pub judge_client : ℕ → List ℕ → Verdict × List ℕ
  judge_client pid lib_path =
      let bid = host.elf_build_id pid lib_path in
      if is_empty bid
      then (unknown, unknown_text)
      else verdict_of (is_embedded_traceable tables (common_build bid) radostrace)
          (client_in_container pid) lib_path

  abbrev pub client_with : ℕ → List ℕ → CephClient
  client_with pid lib_path = record {
    pid = pid;
    exe_path = host.exe_path_for_pid pid;
    is_container = client_in_container pid;
    traceable = (judge_client pid lib_path).0;
    version = (judge_client pid lib_path).1;
  }

  -- One round of the loop over /proc.
  unfoldable pub client_of_entry : ProcEntry → Option CephClient
  client_of_entry entry =
      if not (is_pid_entry entry)
      then none
      else require (stoi entry.d_name) none λ pid.
        let lib_path = library_in (host.maps pid) in
        if not (is_positive pid) || is_empty lib_path then none else some (client_with pid lib_path)

  -- The sort by pid, of positive `int`s.
  unfoldable pub insert_client : CephClient → List CephClient → List CephClient
  insert_client c [] = c ∷ []
  insert_client c (d ∷ ds) =
      let rest = insert_client c ds in if ltb c.pid d.pid then c ∷ d ∷ ds else d ∷ rest

  abbrev pub add_client : Option CephClient → List CephClient → List CephClient
  add_client none cs = cs
  add_client (some c) cs = insert_client c cs

  unfoldable pub sorted_clients : List ProcEntry → List CephClient
  sorted_clients [] = []
  sorted_clients (entry ∷ entries) = add_client (client_of_entry entry) (sorted_clients entries)

  unfoldable pub discover_ceph_clients : List CephClient
  discover_ceph_clients = require host.proc_dir [] sorted_clients
