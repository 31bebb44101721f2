-- ===== src/Bpf/Invariant/Reply.antt =====
-- The probes that complete an op keep the invariant, and what they emit is in order.
use cephtrace.Base.{ℕ, ◌≡◌, ◌&&◌, arith, refl, sym, subst, some, ltb, ◌==◌}
use native.Mathlib.Nat.{le_refl}
use cephtrace.Bpf.Types.{OpKey, OpValue}
use cephtrace.Bpf.Tracer.{Hit, Config, Kernel, Tracer, op_event}
use cephtrace.Bpf.Fetch.{read_hprobe_varfield, read_hprobe_utime}
use cephtrace.Bpf.Queue.{find_op}
use cephtrace.Bpf.Reply.{
  repop_name, kernel_latency, complete, log_latency_at, uprobe_log_op_stats, uprobe_log_op_stats_v2,
  uprobe_log_subop_stats, uprobe_ec_submit_transaction, uprobe_repop_commit, uprobe_log_latency,
  uprobe_log_latency_fn,
}
use cephtrace.Bpf.Rules.{require_rule, if_rule}
use cephtrace.Bpf.Entry.{HasStages, IsTracked, Staged-unset}
use cephtrace.Bpf.Entry.Captures.{repop_name-IsTracked}
use cephtrace.Bpf.Invariant.{Inv, Inv-write, Inv-delete, Inv-submit, with_key_rule}

module _ (k : Kernel) (g : Config) (c : Hit) where
  -- The entry found under the key, with the reply's stamp, is emitted and dropped.
  complete-Inv :
      (key : OpKey) (v w : OpValue) (s : Tracer k)
      → find_op k s key ≡ some v
      → IsTracked c.now key w
      → w.reply_stamp ≡ c.now
      → Inv k c.now s
      → Inv k c.now (complete k c key w s)
  complete-Inv key v w s found q r p = Inv-delete k c.now _ key (
      Inv-submit k c.now c (op_event w) _ (subst (λ t. HasStages t w) (sym r) q.stages, omega arith)
        (Inv-write k c.now s key v w found q p))

  pub log_op_stats-Inv : (s : Tracer k) → Inv k c.now s → Inv k c.now (uprobe_log_op_stats k g c s)
  unfolding uprobe_log_op_stats
  log_op_stats-Inv s p = with_key_rule k c.now g c 90 s _ p λ key.
      require_rule (Inv k c.now) (find_op k s key) _ _ (Inv-delete k c.now s key p) λ v found.
        let q = p.tracked key v found in
        complete-Inv key v (record v { reply_stamp = c.now; wb = c.parm3; rb = c.parm4 }) s found
          (ground arith) refl p

  pub log_op_stats_v2-Inv :
      (s : Tracer k) → Inv k c.now s → Inv k c.now (uprobe_log_op_stats_v2 k g c s)
  unfolding uprobe_log_op_stats_v2
  log_op_stats_v2-Inv s p =
      let P = Inv k c.now in
      require_rule P (read_hprobe_utime g c 94) _ _ p λ recv _.
        if_rule P (recv == 0) _ _ (λ _. p)
          λ _.
            if_rule P
              (ltb 0 g.latency_threshold_ns
                && ltb (kernel_latency g.bootstamp_ns c.now recv) g.latency_threshold_ns)
              _ _ (λ _. p)
              λ _. require_rule P (read_hprobe_varfield g c 91 8) _ _ p λ tid _.
                require_rule P (read_hprobe_varfield g c 95 2) _ _ p λ op_type _.
                  Inv-submit k c.now c _ s (ground (arith, Staged-unset c.now 0), le_refl _) p

  pub log_subop_stats-Inv :
      (s : Tracer k) → Inv k c.now s → Inv k c.now (uprobe_log_subop_stats k g c s)
  unfolding uprobe_log_subop_stats
  log_subop_stats-Inv s p = with_key_rule k c.now g c 140 s _ p λ key.
      require_rule (Inv k c.now) (find_op k s key) _ _ p λ v found.
        require_rule (Inv k c.now) (read_hprobe_varfield g c 142 8) _ _ (Inv-delete k c.now s key p)
          λ len _.
            let q = p.tracked key v found in
            complete-Inv key v (record v { wb = len; reply_stamp = c.now }) s found (ground arith)
              refl p

  pub ec_submit_transaction-Inv :
      (s : Tracer k) → Inv k c.now s → Inv k c.now (uprobe_ec_submit_transaction k g c s)
  unfolding uprobe_ec_submit_transaction
  ec_submit_transaction-Inv s p = with_key_rule k c.now g c 150 s _ p λ key.
      require_rule (Inv k c.now) (find_op k s key) _ _ p λ v found. Inv-delete k c.now s key p

  repop_name-reply_stamp : (v : OpValue) → (repop_name g c v).reply_stamp ≡ v.reply_stamp
  unfolding repop_name
  repop_name-reply_stamp v = ground arith

  pub repop_commit-Inv : (s : Tracer k) → Inv k c.now s → Inv k c.now (uprobe_repop_commit k g c s)
  unfolding uprobe_repop_commit
  repop_commit-Inv s p = with_key_rule k c.now g c 170 s _ p λ key.
      require_rule (Inv k c.now) (find_op k s key) _ _ p λ v found.
        require_rule (Inv k c.now) (read_hprobe_varfield g c 172 8) _ _ (Inv-delete k c.now s key p)
          λ len _.
            let q = p.tracked key v found in
            let w : OpValue = record v { wb = len; reply_stamp = c.now } in
            complete-Inv key v (repop_name g c w) s found
              (repop_name-IsTracked c.now key g c w (ground arith)) (repop_name-reply_stamp w) p

  log_latency_at-Inv :
      (varid : ℕ) (s : Tracer k) → Inv k c.now s → Inv k c.now (log_latency_at k varid g c s)
  log_latency_at-Inv varid s p =
      require_rule (Inv k c.now) (read_hprobe_varfield g c varid 8) _ _ p
        λ lat _. Inv-submit k c.now c _ s tt p

  pub log_latency-Inv : (s : Tracer k) → Inv k c.now s → Inv k c.now (uprobe_log_latency k g c s)
  unfolding uprobe_log_latency
  log_latency-Inv = log_latency_at-Inv 131

  pub log_latency_fn-Inv :
      (s : Tracer k) → Inv k c.now s → Inv k c.now (uprobe_log_latency_fn k g c s)
  unfolding uprobe_log_latency_fn
  log_latency_fn-Inv = log_latency_at-Inv 191
