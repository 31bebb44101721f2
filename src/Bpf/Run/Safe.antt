-- ===== src/Bpf/Run/Safe.antt =====
-- The invariant along every run of the tracer.
use cephtrace.Base.{ℕ, ◌≤◌, List, [], ◌∷◌}
use cephtrace.Bpf.Tracer.{Hit, Config, Kernel, Tracer}
use cephtrace.Bpf.Invariant.{Inv, Inv-mono}
use cephtrace.Bpf.Invariant.Queue.{enqueue-Inv, dequeue-Inv, execute_ctx-Inv}
use cephtrace.Bpf.Invariant.Store.{
  submit_transaction-Inv, queue_transactions-Inv, do_write-Inv, wctx_finish-Inv, txc_calc_cost-Inv,
  txc_state_proc-Inv, txc_add_transaction-Inv,
}
use cephtrace.Bpf.Invariant.Reply.{
  log_op_stats-Inv, log_op_stats_v2-Inv, log_subop_stats-Inv, ec_submit_transaction-Inv,
  repop_commit-Inv, log_latency-Inv, log_latency_fn-Inv,
}
use cephtrace.Bpf.Invariant.Notes.{
  generate_subop-Inv, do_repop_reply-Inv, mark_flag_point_string-Inv, mark_flag_point-Inv,
}
use cephtrace.Bpf.Run.{
  Probe, enqueue_op, dequeue_op, execute_ctx, submit_transaction, queue_transactions, do_write,
  wctx_finish, txc_state_proc, log_op_stats, log_op_stats_v2, generate_subop, do_repop_reply,
  mark_flag_point_string, log_latency, log_subop_stats, ec_submit_transaction, txc_calc_cost,
  repop_commit, mark_flag_point, log_latency_fn, txc_add_transaction, initial, step, run, Timed,
  end_time,
}

module _ (k : Kernel) (g : Config) where
  -- One hit, at the times of its own two readings of the clock.
  hit-Inv :
      (p : Probe) (c : Hit) (s : Tracer k)
      → c.now ≤ c.later
      → Inv k c.now s
      → Inv k c.later (step k g p c s)
  unfolding step
  hit-Inv enqueue_op c s order v = enqueue-Inv k g c s order v
  hit-Inv dequeue_op c s order v = Inv-mono k _ _ _ order (dequeue-Inv k g c s v)
  hit-Inv execute_ctx c s order v = Inv-mono k _ _ _ order (execute_ctx-Inv k g c s v)
  hit-Inv submit_transaction c s order v = Inv-mono k _ _ _ order (submit_transaction-Inv k g c s v)
  hit-Inv queue_transactions c s order v = Inv-mono k _ _ _ order (queue_transactions-Inv k g c s v)
  hit-Inv do_write c s order v = Inv-mono k _ _ _ order (do_write-Inv k g c s v)
  hit-Inv wctx_finish c s order v = Inv-mono k _ _ _ order (wctx_finish-Inv k g c s v)
  hit-Inv txc_state_proc c s order v = Inv-mono k _ _ _ order (txc_state_proc-Inv k g c s v)
  hit-Inv log_op_stats c s order v = Inv-mono k _ _ _ order (log_op_stats-Inv k g c s v)
  hit-Inv log_op_stats_v2 c s order v = Inv-mono k _ _ _ order (log_op_stats_v2-Inv k g c s v)
  hit-Inv generate_subop c s order v = Inv-mono k _ _ _ order (generate_subop-Inv k g c s v)
  hit-Inv do_repop_reply c s order v = Inv-mono k _ _ _ order (do_repop_reply-Inv k g c s v)
  hit-Inv mark_flag_point_string c s order v =
      Inv-mono k _ _ _ order (mark_flag_point_string-Inv k g c s v)
  hit-Inv log_latency c s order v = Inv-mono k _ _ _ order (log_latency-Inv k g c s v)
  hit-Inv log_subop_stats c s order v = Inv-mono k _ _ _ order (log_subop_stats-Inv k g c s v)
  hit-Inv ec_submit_transaction c s order v =
      Inv-mono k _ _ _ order (ec_submit_transaction-Inv k g c s v)
  hit-Inv txc_calc_cost c s order v = Inv-mono k _ _ _ order (txc_calc_cost-Inv k g c s v)
  hit-Inv repop_commit c s order v = Inv-mono k _ _ _ order (repop_commit-Inv k g c s v)
  hit-Inv mark_flag_point c s order v = Inv-mono k _ _ _ order (mark_flag_point-Inv k g c s v)
  hit-Inv log_latency_fn c s order v = Inv-mono k _ _ _ order (log_latency_fn-Inv k g c s v)
  hit-Inv txc_add_transaction c s order v =
      Inv-mono k _ _ _ order (txc_add_transaction-Inv k g c s v)

  run_from-Inv :
      (hits : List (Probe × Hit)) (t : ℕ) (s : Tracer k)
      → Timed t hits
      → Inv k t s
      → Inv k (end_time t hits) (run k g hits s)
  unfolding run
  run_from-Inv [] t s timed v = v
  run_from-Inv ((p, c) ∷ hits) t s (h, order, timed) v =
      run_from-Inv hits c.later _ timed (hit-Inv p c s order (Inv-mono k t c.now s h v))

  initial-Inv : (t : ℕ) → Inv k t (initial k)
  initial-Inv t = record { tracked = λ key v e. cc (k.ops.lookup-empty key); emitted = tt }

  -- Whatever hits the traced threads make in the order of the clock, and whatever the LRU maps
  -- evict: every entry of `ops` carries the pid, owner and tid of its key, is an OSD op or a
  -- replica op, has at most five delays and no second peer without a first, and each of its ten
  -- stage stamps is 0 or lies between its enqueue stamp and the last reading of the clock. Every
  -- op event emitted has its stage stamps in the same order, with its reply stamp as the upper
  -- bound, and that stamp is no later than the last reading.
  pub run-Inv :
      (hits : List (Probe × Hit)) (t : ℕ)
      → Timed t hits
      → Inv k (end_time t hits) (run k g hits (initial k))
  run-Inv hits t timed = run_from-Inv hits t (initial k) timed (initial-Inv t)
