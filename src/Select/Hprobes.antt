-- ===== src/Select/Hprobes.antt =====
-- src/osdtrace.cc: `fill_map_hprobes`, which tells the probes where the variables of the traced
-- functions are. A write behind the end of an array ends the model.
pub mod Placed
use cephtrace.Base.{
  ℕ, ◌+◌, List, [], ◌∷◌, Option, none, some, ◌==◌, if◌then◌else◌, ltb, length, codes,
}
use cephtrace.Bpf.Types.{VarField}
use cephtrace.Bpf.Queue.{require, or_zero}
use cephtrace.Select.Process.{get_basename}
use cephtrace.Select.Embedded.{Named, VarPath}
use cephtrace.Select.Embedded.Import.{lookup_name, entries_of, DwarfMaps}

abbrev pub id_of : List ℕ → ℕ → Named ℕ
id_of name value = record { name = name; value = value }

-- The ids of the first variable of each function.
abbrev pub func_id : List (Named ℕ)
func_id =
    id_of (codes "OSD::enqueue_op") 0
    ∷ id_of (codes "OSD::dequeue_op") 10
    ∷ id_of (codes "PrimaryLogPG::execute_ctx") 20
    ∷ id_of (codes "ReplicatedBackend::submit_transaction") 30
    ∷ id_of (codes "BlueStore::queue_transactions") 40
    ∷ id_of (codes "BlueStore::_do_write") 50
    ∷ id_of (codes "BlueStore::_wctx_finish") 60
    ∷ id_of (codes "BlueStore::_txc_state_proc") 70
    ∷ id_of (codes "BlueStore::_txc_apply_kv") 80
    ∷ id_of (codes "PrimaryLogPG::log_op_stats") 90
    ∷ id_of (codes "ReplicatedBackend::generate_subop") 100
    ∷ id_of (codes "ReplicatedBackend::do_repop_reply") 110
    ∷ id_of (codes "OpRequest::mark_flag_point_string") 120
    ∷ id_of (codes "BlueStore::log_latency") 130
    ∷ id_of (codes "log_subop_stats") 140
    ∷ id_of (codes "ECBackend::submit_transaction") 150
    ∷ id_of (codes "BlueStore::_txc_calc_cost") 160
    ∷ id_of (codes "ReplicatedBackend::repop_commit") 170
    ∷ id_of (codes "OpRequest::mark_flag_point") 180
    ∷ id_of (codes "BlueStore::log_latency_fn") 190
    ∷ id_of (codes "BlueStore::_txc_add_transaction") 200
    ∷ []

-- The elements of `fields` in `VarField_Kernel`.
abbrev pub kernel_fields : ℕ
kernel_fields = 10

-- `VarField_Kernel` of a variable: `none` is a write behind the end of `fields`, which the code does
-- not check for.
unfoldable pub kernel_field : VarPath → Option VarField
kernel_field vf =
    if ltb kernel_fields (length vf.fields)
    then none
    else some (record { varloc = vf.varloc; fields = vf.fields; size = length vf.fields })

-- The map `hprobes`.
abbrev pub Hprobes : Type 0
Hprobes = ℕ → Option VarField

abbrev pub set_key : ℕ → VarField → Hprobes → Hprobes
set_key key_idx vfk hprobes = λ k. if k == key_idx then some vfk else hprobes k

-- The loop over the variables of a function.
unfoldable pub fill_vars : ℕ → List VarPath → Hprobes → Option Hprobes
fill_vars key_idx [] hprobes = some hprobes
fill_vars key_idx (vf ∷ vfs) hprobes =
    require (kernel_field vf) none λ vfk. fill_vars (key_idx + 1) vfs (set_key key_idx vfk hprobes)

-- `func_id[funcname]`, which is 0 for a name that the table does not have.
unfoldable pub first_id : List ℕ → ℕ
first_id funcname = or_zero (lookup_name funcname func_id)

unfoldable pub fill_functions : List (Named (List VarPath)) → Hprobes → Option Hprobes
fill_functions [] hprobes = some hprobes
fill_functions (x ∷ xs) hprobes =
    require (fill_vars (first_id x.name) x.value hprobes) none (fill_functions xs)

abbrev pub fill_map_hprobes : List ℕ → DwarfMaps → Hprobes → Option Hprobes
fill_map_hprobes mod_path dwarf hprobes =
    fill_functions (entries_of (lookup_name (get_basename mod_path) dwarf.mod_func2vf)) hprobes
