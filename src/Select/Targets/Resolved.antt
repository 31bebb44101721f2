-- ===== src/Select/Targets/Resolved.antt =====
-- A target that is resolved is one that can be traced.
use cephtrace.Base.{
  ℕ, true, false, if◌then◌else◌, ◌⊎◌, inl, inr, ◌≡◌, ◌≢◌, refl, subst, arith, List, [], ◌∷◌, Option,
  none, some, all, All, Any, All-imp, All-zip, All_of_all, is_empty, nonempty, eq_of_same_bytes,
}
use cephtrace.Select.Embedded.{EmbeddedTables}
use cephtrace.Select.Process.{OsdProcess, Options, Host}
use cephtrace.Select.Targets.{
  TraceTarget, matches, selected_ids, contains, ceph_osd_text, runs_path, target_of,
  resolve_trace_targets,
}

module _ (procs : List OsdProcess) where
  -- The one process of an OSD id.
  abbrev pub OnlyPid : ℕ → ℕ → Type 0
  OnlyPid want pid = matches want procs ≡ pid ∷ []

  -- The id has one process, and its pid is among those of the list.
  abbrev pub IsFound : List ℕ → ℕ → Type 0
  IsFound pids want = (pid : ℕ) × OnlyPid want pid × Any (λ q. q ≡ pid) pids

  -- The pid is that of a requested id.
  abbrev pub IsWanted : List ℕ → ℕ → Type 0
  IsWanted wants pid = Any (λ want. OnlyPid want pid) wants

-- The target can be traced: every pid exists and runs the binary, whose path is not empty; without
-- pids it is the host's binary, and with them a ceph-osd.
pub record IsTarget (host : Host) (t : TraceTarget) : Type 0 where
  pub has_path : t.osd_path ≢ []
  pub same_binary :
      All (λ pid. (host.exists pid ≡ true) × (host.exe_path_for_pid pid ≡ t.osd_path)) t.pids
  pub right_binary :
      ((t.pids ≡ []) × (t.osd_path ≡ host.host_executable))
      ⊎ ((t.pids ≢ []) × (contains ceph_osd_text t.osd_path ≡ true))

target_of_pids :
    (host : Host) (first : ℕ) (others : List ℕ) (t : TraceTarget)
    → target_of host (first ∷ others) ≡ some t
    → let path = host.exe_path_for_pid first in
      let u : TraceTarget = record { pids = first ∷ others; osd_path = path } in
      (is_empty path ≡ false)
      × (contains ceph_osd_text path ≡ true)
      × (all (runs_path host path) others ≡ true)
      × (u ≡ t)
unfolding target_of
target_of_pids host first others t h = ground arith

target_of_host :
    (host : Host) (t : TraceTarget)
    → target_of host [] ≡ some t
    → let u : TraceTarget = record { pids = []; osd_path = host.host_executable } in
      (is_empty host.host_executable ≡ false) × (u ≡ t)
unfolding target_of
target_of_host host t h = ground arith

same_path :
    (host : Host) (path : List ℕ) (pid : ℕ)
    → runs_path host path pid ≡ true
    → host.exe_path_for_pid pid ≡ path
same_path host path pid h = eq_of_same_bytes (host.exe_path_for_pid pid) path (ground arith)

target_of-IsTarget :
    (host : Host) (pids : List ℕ) (t : TraceTarget)
    → All (λ pid. host.exists pid ≡ true) pids
    → target_of host pids ≡ some t
    → IsTarget host t
target_of-IsTarget host [] t ex h =
    let info = target_of_host host t h in
    subst (IsTarget host) info.1
      (record { has_path = nonempty _ info.0; same_binary = tt; right_binary = inl (refl, refl) })
target_of-IsTarget host (first ∷ others) t (e, ex) h =
    let info = target_of_pids host first others t h in
    let path = host.exe_path_for_pid first in
    subst (IsTarget host) info.3 (record {
      has_path = nonempty path info.0;
      same_binary = (
        (e, refl),
        All-zip _ _ others ex (
            All-imp _ _ (same_path host path) others
              (All_of_all (runs_path host path) others info.2)),
      );
      right_binary = inr (nonempty (first ∷ others) refl, info.1);
    })

-- Whatever the command line asks for, a target that is resolved can be traced: its path is not
-- empty, every pid exists and runs the binary of that path, and the path is the host's ceph-osd if
-- there is no pid, and names a ceph-osd if there is one.
pub resolve_trace_targets-IsTarget :
    (tables : EmbeddedTables) (host : Host) (opts : Options) (t : TraceTarget)
    → resolve_trace_targets tables host opts ≡ some t
    → IsTarget host t
unfolding resolve_trace_targets
resolve_trace_targets-IsTarget tables host opts t h = checked (selected_ids tables host opts) h
  where
    checked :
        (ids : Option (List ℕ))
        → elim ids [
          | none ↦ none
          | some pids ↦ if all host.exists pids then target_of host pids else none
        ]
          ≡ some t
        → IsTarget host t
    checked none e = absurd (ground arith)
    checked (some pids) e =
        target_of-IsTarget host pids t (All_of_all host.exists pids (ground arith)) (ground arith)
