-- ===== src/Bpf/Invariant/Store.antt =====
-- The probes on BlueStore keep the invariant.
use cephtrace.Base.{ℕ, ◌+◌, arith, refl, not, ◌&&◌, ◌||◌, ◌==◌}
use cephtrace.Bpf.Types.{OpKey, msg_osd_repop}
use cephtrace.Bpf.Tracer.{Hit, Config, Kernel, Tracer, get_pid}
use cephtrace.Bpf.Fetch.{read_hprobe_varfield, var_addr}
use cephtrace.Bpf.Queue.{or_zero, read_uint, find_op, unbind}
use cephtrace.Bpf.Store.{
  bound_key, ctx_key, bind_ctx, uprobe_submit_transaction, uprobe_queue_transactions,
  uprobe_do_write, uprobe_wctx_finish, uprobe_txc_calc_cost, uprobe_txc_state_proc,
  uprobe_txc_add_transaction,
}
use cephtrace.Bpf.Rules.{require_rule, if_rule}
use cephtrace.Bpf.Entry.{Staged-now}
use cephtrace.Bpf.Entry.Captures.{add_transaction-IsTracked}
use cephtrace.Bpf.Entry.Updates.{state_stamps-IsTracked}
use cephtrace.Bpf.Invariant.{Inv, Inv-write, Inv-same}

module _ (k : Kernel) (g : Config) (c : Hit) where
  unbind-Inv : (s : Tracer k) → Inv k c.now s → Inv k c.now (unbind k c s)
  unbind-Inv s = Inv-same k c.now s _ refl refl

  pub submit_transaction-Inv :
      (s : Tracer k) → Inv k c.now s → Inv k c.now (uprobe_submit_transaction k g c s)
  unfolding uprobe_submit_transaction
  submit_transaction-Inv s p =
      let P = Inv k c.now in
      let owner = or_zero (read_hprobe_varfield g c 30 8) in
      require_rule P (read_hprobe_varfield g c 31 8) _ _ (unbind-Inv s p) λ tid _.
        let key : OpKey = record { pid = get_pid c; owner = owner; tid = tid } in
        require_rule P (find_op k s key) _ _ (unbind-Inv s p) λ v found.
          let q = p.tracked key v found in
          Inv-same k c.now _ _ refl refl (
            Inv-write k c.now s key v (record v { submit_transaction_stamp = c.now }) found
              (ground (arith, Staged-now c.now v.enqueue_stamp)) p)

  pub queue_transactions-Inv :
      (s : Tracer k) → Inv k c.now s → Inv k c.now (uprobe_queue_transactions k c s)
  unfolding uprobe_queue_transactions
  queue_transactions-Inv s p =
      let P = Inv k c.now in
      require_rule P (bound_key k c s) _ _ p λ key _.
        require_rule P (find_op k s key) _ _ (unbind-Inv s p) λ v found.
          let q = p.tracked key v found in
          if_rule P
            (v.queue_transaction_stamp == 0 && v.aio_submit_stamp == 0 && v.kv_committed_stamp == 0)
            _ _
            (λ _.
              Inv-write k c.now s key v _ found (ground (arith, Staged-now c.now v.enqueue_stamp))
                p)
            λ _. unbind-Inv s p

  pub do_write-Inv : (s : Tracer k) → Inv k c.now s → Inv k c.now (uprobe_do_write k c s)
  unfolding uprobe_do_write
  do_write-Inv s p =
      let P = Inv k c.now in
      require_rule P (bound_key k c s) _ _ p λ key _.
        require_rule P (find_op k s key) _ _ p λ v found.
          let q = p.tracked key v found in
          if_rule P (v.do_write_stamp == 0) _ _
            (λ _.
              Inv-write k c.now s key v _ found (ground (arith, Staged-now c.now v.enqueue_stamp))
                p)
            λ _. p

  bind_ctx-Inv :
      (varid : ℕ) (key : OpKey) (s : Tracer k)
      → Inv k c.now s
      → Inv k c.now (bind_ctx k g c varid key s)
  bind_ctx-Inv varid key s p =
      let P = Inv k c.now in
      require_rule P (read_hprobe_varfield g c varid 4) _ _ p λ seqid _.
        require_rule P (read_hprobe_varfield g c (varid + 1) 8) _ _ p
          λ start _. Inv-same k c.now s _ refl refl p

  pub wctx_finish-Inv : (s : Tracer k) → Inv k c.now s → Inv k c.now (uprobe_wctx_finish k g c s)
  unfolding uprobe_wctx_finish
  wctx_finish-Inv s0 p0 =
      let P = Inv k c.now in
      require_rule P (bound_key k c s0) _ _ p0 λ key _.
        let s = unbind k c s0 in
        let p = unbind-Inv s0 p0 in
        require_rule P (find_op k s key) _ _ p λ v found.
          let q = p.tracked key v found in
          if_rule P (not (v.aio_submit_stamp == 0) || not (v.kv_committed_stamp == 0)) _ _ (λ _. p)
            λ _. bind_ctx-Inv 60 key _ (
              Inv-write k c.now s key v (record v { wctx_finish_stamp = c.now }) found
                (ground (arith, Staged-now c.now v.enqueue_stamp)) p)

  pub txc_calc_cost-Inv :
      (s : Tracer k) → Inv k c.now s → Inv k c.now (uprobe_txc_calc_cost k g c s)
  unfolding uprobe_txc_calc_cost
  txc_calc_cost-Inv s0 p0 =
      let P = Inv k c.now in
      require_rule P (bound_key k c s0) _ _ p0 λ key _.
        let s = unbind k c s0 in
        let p = unbind-Inv s0 p0 in
        require_rule P (find_op k s key) _ _ p λ v found.
          if_rule P (not (v.aio_submit_stamp == 0) || not (v.kv_committed_stamp == 0)) _ _ (λ _. p)
            λ _. bind_ctx-Inv 160 key s p

  pub txc_state_proc-Inv :
      (s : Tracer k) → Inv k c.now s → Inv k c.now (uprobe_txc_state_proc k g c s)
  unfolding uprobe_txc_state_proc
  txc_state_proc-Inv s p =
      let P = Inv k c.now in
      require_rule P (read_hprobe_varfield g c 70 4) _ _ p λ seqid _.
        require_rule P (read_hprobe_varfield g c 71 8) _ _ p λ start _.
          require_rule P (k.ctx_opk.lookup s.ctx_opk (ctx_key k c seqid start)) _ _ p λ key _.
            require_rule P (read_hprobe_varfield g c 72 4) _ _ p λ state _.
              require_rule P (find_op k s key) _ _ p λ v found.
                require_rule P (g.hprobes 73) _ _ p λ vf _.
                  let r =
                    Inv-write k c.now s key v _ found
                      (state_stamps-IsTracked key g c (read_uint c (var_addr c vf) 4) state v
                        (p.tracked key v found))
                      p in
                  if_rule P (state == 4) _ _ (λ _. Inv-same k c.now _ _ refl refl r) λ _. r

  pub txc_add_transaction-Inv :
      (s : Tracer k) → Inv k c.now s → Inv k c.now (uprobe_txc_add_transaction k g c s)
  unfolding uprobe_txc_add_transaction
  txc_add_transaction-Inv s p =
      let P = Inv k c.now in
      require_rule P (bound_key k c s) _ _ p λ key _.
        require_rule P (find_op k s key) _ _ p λ v found.
          if_rule P (not (v.op_type == msg_osd_repop)) _ _ (λ _. p)
            λ _.
              Inv-write k c.now s key v _ found
                (add_transaction-IsTracked c.now key g c v (p.tracked key v found)) p
