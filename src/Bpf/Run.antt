-- ===== src/Bpf/Run.antt =====
-- src/osdtrace.bpf.c as a whole: every uprobe of the file, and a run of the tracer over the hits
-- that the traced threads make. A hit is one step: the probes of one op key do not interleave.
pub mod Safe
use cephtrace.Base.{ℕ, ◌≤◌, List, [], ◌∷◌}
use cephtrace.Bpf.Tracer.{Hit, Config, Kernel, Tracer}
use cephtrace.Bpf.Queue.{uprobe_enqueue_op, uprobe_dequeue_op, uprobe_execute_ctx}
use cephtrace.Bpf.Store.{
  uprobe_submit_transaction, uprobe_queue_transactions, uprobe_do_write, uprobe_wctx_finish,
  uprobe_txc_calc_cost, uprobe_txc_state_proc, uprobe_txc_add_transaction,
}
use cephtrace.Bpf.Reply.{
  uprobe_log_op_stats, uprobe_log_op_stats_v2, uprobe_log_subop_stats, uprobe_ec_submit_transaction,
  uprobe_repop_commit, uprobe_log_latency, uprobe_log_latency_fn,
}
use cephtrace.Bpf.Notes.{
  uprobe_generate_subop, uprobe_do_repop_reply, uprobe_mark_flag_point_string,
  uprobe_mark_flag_point,
}

-- The `SEC("uprobe")` programs.
pub data Probe : Type 0 where
  enqueue_op dequeue_op execute_ctx submit_transaction queue_transactions : Probe
  do_write wctx_finish txc_state_proc log_op_stats log_op_stats_v2 : Probe
  generate_subop do_repop_reply mark_flag_point_string log_latency log_subop_stats : Probe
  ec_submit_transaction txc_calc_cost repop_commit mark_flag_point log_latency_fn : Probe
  txc_add_transaction : Probe

module _ (k : Kernel) where
  -- The maps are created empty.
  abbrev pub initial : Tracer k
  initial = record {
    ops = k.ops.empty;
    ptid_opk = k.ptid_opk.empty;
    ctx_opk = k.ctx_opk.empty;
    rb = [];
    rb_drops = 0;
  }

  unfoldable pub step : Config → Probe → Hit → Tracer k → Tracer k
  step g enqueue_op c s = uprobe_enqueue_op k g c s
  step g dequeue_op c s = uprobe_dequeue_op k g c s
  step g execute_ctx c s = uprobe_execute_ctx k g c s
  step g submit_transaction c s = uprobe_submit_transaction k g c s
  step g queue_transactions c s = uprobe_queue_transactions k c s
  step g do_write c s = uprobe_do_write k c s
  step g wctx_finish c s = uprobe_wctx_finish k g c s
  step g txc_state_proc c s = uprobe_txc_state_proc k g c s
  step g log_op_stats c s = uprobe_log_op_stats k g c s
  step g log_op_stats_v2 c s = uprobe_log_op_stats_v2 k g c s
  step g generate_subop c s = uprobe_generate_subop k g c s
  step g do_repop_reply c s = uprobe_do_repop_reply k g c s
  step g mark_flag_point_string c s = uprobe_mark_flag_point_string k g c s
  step g log_latency c s = uprobe_log_latency k g c s
  step g log_subop_stats c s = uprobe_log_subop_stats k g c s
  step g ec_submit_transaction c s = uprobe_ec_submit_transaction k g c s
  step g txc_calc_cost c s = uprobe_txc_calc_cost k g c s
  step g repop_commit c s = uprobe_repop_commit k g c s
  step g mark_flag_point c s = uprobe_mark_flag_point k g c s
  step g log_latency_fn c s = uprobe_log_latency_fn k g c s
  step g txc_add_transaction c s = uprobe_txc_add_transaction k g c s

  pub run : Config → List (Probe × Hit) → Tracer k → Tracer k
  run g [] s = s
  run g ((p, c) ∷ hits) s = run g hits (step g p c s)

-- The hits come in the order of the clock, the first no earlier than t.
abbrev pub Timed : ℕ → List (Probe × Hit) → Type 0
Timed t [] = Unit {0}
Timed t ((p, c) ∷ hits) = (t ≤ c.now) × (c.now ≤ c.later) × Timed c.later hits

-- The last reading of the clock.
abbrev pub end_time : ℕ → List (Probe × Hit) → ℕ
end_time t [] = t
end_time t ((p, c) ∷ hits) = end_time c.later hits
