-- ===== src/Select/Args.antt =====
-- src/osdtrace.cc: `parse_args`, on the options that getopt_long gives, and the probes that
-- `run_tracer` attaches in a mode.
pub mod Modes
use cephtrace.Base.{
  ℕ, ◌-◌, ◌/◌, Bool, true, false, not, ◌&&◌, ◌||◌, List, [], ◌∷◌, ◌++◌, Option, none, some, ltb,
  ◌==◌, if◌then◌else◌, filter, any, same_bytes, codes, minus_one, sign_extend, u32_mod, bit_and,
}
use Prim.Native.Nat.{bit_or}
use cephtrace.Bpf.Queue.{require}
use cephtrace.Select.Process.{insert}
use cephtrace.Select.OsdId.{stoi}

abbrev pub op_single_probe : ℕ
op_single_probe = 1

abbrev pub op_full_probe : ℕ
op_full_probe = 2

abbrev pub bluestore_probe : ℕ
bluestore_probe = 4

-- An option, with its argument. `usage` is -h or an unknown option, `no_argument` a missing argument.
pub data Opt : Type 0 where
  skip_version_check list list_embedded version all single bluestore usage no_argument : Opt
  id latency json_out json_in timeout pid : List ℕ → Opt

-- The globals that the options set. An `int` is a bit pattern; the sets are sorted by them. The
-- threshold is a `__u64`.
pub record Settings : Type 0 where
  pub skips_version_check : Bool
  pub list_only : Bool
  pub lists_embedded : Bool
  pub trace_all : Bool
  pub export_json : Bool
  pub import_json : Bool
  pub json_output_file : List ℕ
  pub json_input_file : List ℕ
  pub requested_osd_ids : List ℕ
  pub process_ids : List ℕ
  pub threshold : ℕ
  pub timeout_s : ℕ
  pub probe_mode : ℕ

abbrev pub initial_settings : Settings
initial_settings = record {
  skips_version_check = false;
  list_only = false;
  lists_embedded = false;
  trace_all = false;
  export_json = false;
  import_json = false;
  json_output_file = [];
  json_input_file = [];
  requested_osd_ids = [];
  process_ids = [];
  threshold = 0;
  timeout_s = minus_one;
  probe_mode = op_full_probe;
}

-- It returns 0 with the globals set, returns -1, ends the program with a code, or lets an exception
-- out.
pub data ArgsResult : Type 0 where
  proceeds : Settings → ArgsResult
  fails throws : ArgsResult
  exits : ℕ → ArgsResult

-- The tokens that getline takes between commas; there is none behind a comma at the end.
unfoldable pub comma_tokens : List ℕ → List ℕ → List (List ℕ)
comma_tokens [] [] = []
comma_tokens (b ∷ bs) [] = (b ∷ bs) ∷ []
comma_tokens current (c ∷ cs) =
    if c == b',' then current ∷ comma_tokens [] cs else comma_tokens (current ++ c ∷ []) cs

abbrev pub is_negative : ℕ → Bool
is_negative w = not (ltb w (u32_mod / 2))

-- The loops over the ids and over the pids; `none` is the return of -1.
unfoldable pub insert_ids : List (List ℕ) → List ℕ → Option (List ℕ)
insert_ids [] ids = some ids
insert_ids (token ∷ tokens) ids =
    require (stoi token) none
      λ id'. if is_negative id' then none else insert_ids tokens (insert id' ids)

unfoldable pub insert_pids : List (List ℕ) → List ℕ → Option (List ℕ)
insert_pids [] pids = some pids
insert_pids (token ∷ tokens) pids =
    require (stoi token) none λ pid'. insert_pids tokens (insert pid' pids)

-- One round of the loop over the options; `proceeds` goes on with the next one.
unfoldable pub apply_opt : Opt → Settings → ArgsResult
apply_opt skip_version_check s = proceeds (record s { skips_version_check = true })
apply_opt list s = proceeds (record s { list_only = true })
apply_opt list_embedded s = proceeds (record s { lists_embedded = true })
apply_opt version s = exits 0
apply_opt all s = proceeds (record s { trace_all = true })
apply_opt single s = proceeds (record s {
  probe_mode = bit_or (bit_and s.probe_mode (u32_mod - 1 - op_full_probe)) op_single_probe;
})
apply_opt bluestore s = proceeds (record s { probe_mode = bit_or s.probe_mode bluestore_probe })
apply_opt usage s = exits 0
apply_opt no_argument s = fails
apply_opt (id arg) s =
    require (insert_ids (comma_tokens [] arg) s.requested_osd_ids) fails
      λ ids. proceeds (record s { requested_osd_ids = ids })
apply_opt (latency arg) s =
    require (stoi arg) throws λ ms. proceeds (record s { threshold = sign_extend ms })
apply_opt (json_out arg) s = proceeds (record s { export_json = true; json_output_file = arg })
apply_opt (json_in arg) s = proceeds (record s { import_json = true; json_input_file = arg })
apply_opt (timeout arg) s =
    require (stoi arg) (exits 1)
      λ t. if t == 0 || is_negative t then exits 1 else proceeds (record s { timeout_s = t })
apply_opt (pid arg) s =
    require (insert_pids (comma_tokens [] arg) s.process_ids) fails
      λ pids. proceeds (record s { process_ids = pids })

abbrev pub and_then : ArgsResult → (Settings → ArgsResult) → ArgsResult
and_then (proceeds s) f = f s
and_then fails f = fails
and_then throws f = throws
and_then (exits code) f = exits code

unfoldable pub parse_args : List Opt → Settings → ArgsResult
parse_args [] s = proceeds s
parse_args (opt ∷ opts) s = and_then (apply_opt opt s) (parse_args opts)

pub record AttachEntry : Type 0 where
  pub func : List ℕ
  pub mode : ℕ
  pub exact : Bool
  pub v : ℕ

abbrev pub full_entry : List ℕ → AttachEntry
full_entry func = record { func = func; mode = op_full_probe; exact = false; v = 0 }

abbrev pub bluestore_entry : List ℕ → AttachEntry
bluestore_entry func = record { func = func; mode = bluestore_probe; exact = false; v = 0 }

abbrev pub attach_list : List AttachEntry
attach_list =
    record {
      func = codes "PrimaryLogPG::log_op_stats";
      mode = op_single_probe;
      exact = true;
      v = 2;
    }
    ∷ full_entry (codes "OSD::dequeue_op")
    ∷ full_entry (codes "PrimaryLogPG::execute_ctx")
    ∷ full_entry (codes "ReplicatedBackend::submit_transaction")
    ∷ full_entry (codes "ECBackend::submit_transaction")
    ∷ full_entry (codes "OpRequest::mark_flag_point_string")
    ∷ full_entry (codes "OpRequest::mark_flag_point")
    ∷ full_entry (codes "ReplicatedBackend::generate_subop")
    ∷ full_entry (codes "ReplicatedBackend::do_repop_reply")
    ∷ full_entry (codes "BlueStore::queue_transactions")
    ∷ full_entry (codes "BlueStore::_txc_calc_cost")
    ∷ full_entry (codes "BlueStore::_txc_state_proc")
    ∷ full_entry (codes "BlueStore::_txc_add_transaction")
    ∷ full_entry (codes "PrimaryLogPG::log_op_stats")
    ∷ full_entry (codes "ReplicatedBackend::repop_commit")
    ∷ full_entry (codes "OSD::enqueue_op")
    ∷ bluestore_entry (codes "BlueStore::log_latency")
    ∷ bluestore_entry (codes "BlueStore::log_latency_fn")
    ∷ []

unfoldable pub is_enabled : ℕ → AttachEntry → Bool
is_enabled probe_mode e =
    if e.exact then probe_mode == e.mode else not (bit_and probe_mode e.mode == 0)

-- The probes that are attached.
abbrev pub enabled_probes : ℕ → List AttachEntry
enabled_probes probe_mode = filter (is_enabled probe_mode) attach_list
