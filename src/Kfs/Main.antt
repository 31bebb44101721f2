-- ===== src/Kfs/Main.antt =====
-- src/kfstrace.cc: `main`, from the options to the polling of the ring buffers. The module check,
-- libbpf, atoi and atoll are the machine's; an `int` and a `long long` are bit patterns.
pub mod Tracing
pub mod Status
use cephtrace.Base.{
  ℕ, ◌^◌, Bool, true, false, not, ◌&&◌, ◌||◌, List, [], ◌∷◌, ◌++◌, Option, none, some, ltb, leb,
  ◌==◌, if◌then◌else◌, any, same_bytes, codes,
}
use cephtrace.Bpf.Queue.{require}
use cephtrace.Select.Args.{is_negative}
use cephtrace.Select.Targets.{starts_with}

pub data TraceMode : Type 0 where
  mode_osd mode_mds mode_all : TraceMode

-- What getopt_long gives; `unknown` is an option that it does not know, or a missing argument.
pub data KfsOpt : Type 0 where
  help version unknown : KfsOpt
  timeout mode latency : List ℕ → KfsOpt

pub record KfsSettings : Type 0 where
  pub timeout_seconds : ℕ
  pub latency_threshold : ℕ
  pub mode : TraceMode

abbrev pub initial_kfs : KfsSettings
initial_kfs = record { timeout_seconds = 0; latency_threshold = 0; mode = mode_mds }

-- The options go on to the tracing, or end the program with a status.
pub data KfsArgs : Type 0 where
  starts : KfsSettings → KfsArgs
  stops : ℕ → KfsArgs

-- The programs of the skeleton.
pub data KfsProgram : Type 0 where
  send_request osd_dispatch prepare_send_request mds_dispatch : KfsProgram

-- `modules` is what fgets reads of /proc/modules, `none` if it cannot be opened.
pub record KfsMachine : Type 0 where
  pub atoi : List ℕ → ℕ
  pub atoll : List ℕ → ℕ
  pub modules : Option (List (List ℕ))
  pub opens : Bool
  pub loads : Bool
  pub attaches : KfsProgram → Bool
  pub has_osd_buffer : Bool
  pub has_mds_buffer : Bool

abbrev pub traces_osd : TraceMode → Bool
traces_osd mode_osd = true
traces_osd mode_mds = false
traces_osd mode_all = true

abbrev pub traces_mds : TraceMode → Bool
traces_mds mode_osd = false
traces_mds mode_mds = true
traces_mds mode_all = true

unfoldable pub mode_named : List ℕ → Option TraceMode
mode_named name =
    if same_bytes name (codes "osd")
    then some mode_osd
    else if same_bytes name (codes "mds")
    then some mode_mds
    else if same_bytes name (codes "all")
    then some mode_all
    else none

-- The programs that a mode attaches, in order.
abbrev pub osd_programs : TraceMode → List KfsProgram
osd_programs m = if traces_osd m then send_request ∷ osd_dispatch ∷ [] else []

abbrev pub mds_programs : TraceMode → List KfsProgram
mds_programs m = if traces_mds m then prepare_send_request ∷ mds_dispatch ∷ [] else []

-- The state of the polling: the links, and the ring buffers that there are.
pub record KfsTracing : Type 0 where
  pub settings : KfsSettings
  pub links : List KfsProgram
  pub rb : Bool
  pub mds_rb : Bool

pub data KfsOutcome : Type 0 where
  finished : ℕ → KfsOutcome
  polling : KfsTracing → KfsOutcome

module _ (k : KfsMachine) where
  unfoldable pub apply_kfs_opt : KfsOpt → KfsSettings → KfsArgs
  apply_kfs_opt help s = stops 0
  apply_kfs_opt version s = stops 0
  apply_kfs_opt unknown s = stops 1
  apply_kfs_opt (timeout arg) s =
      let t = k.atoi arg in
      if t == 0 || is_negative t then stops 1 else starts (record s { timeout_seconds = t })
  apply_kfs_opt (mode arg) s =
      require (mode_named arg) (stops 1) λ m. starts (record s { mode = m })
  apply_kfs_opt (latency arg) s =
      let l = k.atoll arg in
      if l == 0 || leb (2 ^ 63) l then stops 1 else starts (record s { latency_threshold = l })

  abbrev pub then_args : KfsArgs → (KfsSettings → KfsArgs) → KfsArgs
  then_args (starts s) f = f s
  then_args (stops code) f = stops code

  unfoldable pub kfs_args : List KfsOpt → KfsSettings → KfsArgs
  kfs_args [] s = starts s
  kfs_args (o ∷ os) s = then_args (apply_kfs_opt o s) (kfs_args os)

  abbrev pub is_ceph_line : List ℕ → Bool
  is_ceph_line line = starts_with (codes "ceph ") line || starts_with (codes "libceph ") line

  unfoldable pub check_ceph_module_loaded : Bool
  check_ceph_module_loaded = require k.modules false (any is_ceph_line)

  -- Each program in its turn; the first that fails ends the program, which frees the others.
  unfoldable pub attach_each : List KfsProgram → Bool
  attach_each [] = true
  attach_each (p ∷ ps) = if k.attaches p then attach_each ps else false

  unfoldable pub kfs_trace : KfsSettings → KfsOutcome
  kfs_trace s =
      if not (check_ceph_module_loaded)
      then finished 1
      else if not k.opens || not k.loads
      then finished 1
      else if not (attach_each (osd_programs s.mode ++ mds_programs s.mode))
      then finished 1
      else if traces_osd s.mode && not k.has_osd_buffer || traces_mds s.mode && not k.has_mds_buffer
      then finished 1
      else polling (record {
        settings = s;
        links = osd_programs s.mode ++ mds_programs s.mode;
        rb = traces_osd s.mode;
        mds_rb = traces_mds s.mode;
      })

  abbrev pub after_kfs_args : KfsArgs → KfsOutcome
  after_kfs_args (starts s) = kfs_trace s
  after_kfs_args (stops code) = finished code

  unfoldable pub kfs_main : List KfsOpt → KfsOutcome
  kfs_main opts = after_kfs_args (kfs_args opts initial_kfs)

-- A round of the loop: whether a signal came, what `ring_buffer__poll` returns for each buffer, and
-- the seconds since the start.
pub record Round : Type 0 where
  pub exiting : Bool
  pub osd_poll : ℕ
  pub mds_poll : ℕ
  pub elapsed : ℕ

-- The poll of a buffer, if there is one: whether the loop goes on, and `err`.
abbrev pub poll_buffer : Bool → ℕ → ℕ → Bool × ℕ
poll_buffer active polled err = if active then (not (is_negative polled), polled) else (true, err)

abbrev pub exit_status : ℕ → ℕ
exit_status err = if err == 0 then 0 else 1

abbrev pub is_over : KfsSettings → Round → Bool
is_over s r = ltb 0 s.timeout_seconds && leb s.timeout_seconds r.elapsed

-- The loop, with `err`: the exit status, or `none` while it still polls.
unfoldable pub poll_loop : KfsTracing → List Round → ℕ → Option ℕ
poll_loop t [] err = none
poll_loop t (r ∷ rs) err =
    let osd = poll_buffer t.rb r.osd_poll err in
    let mds = poll_buffer t.mds_rb r.mds_poll osd.1 in
    let rest = poll_loop t rs mds.1 in
    if r.exiting
    then some (exit_status err)
    else if not osd.0
    then some (exit_status osd.1)
    else if not mds.0 || is_over t.settings r
    then some (exit_status mds.1)
    else rest
