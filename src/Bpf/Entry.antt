-- ===== src/Bpf/Entry.antt =====
-- What holds of every entry of the `ops` map at time t.
pub mod Captures
pub mod Updates
use cephtrace.Base.{ℕ, ◌≤◌, ◌≡◌, ◌⊎◌, inl, inr, refl, arith, minus_one}
use cephtrace.Bpf.Types.{OpKey, OpValue, msg_osd_op, msg_osd_repop}

-- A stage's stamp is unset, or lies between the enqueue stamp and t.
pub Staged : ℕ → ℕ → ℕ → Type 0
Staged t enq stamp = (stamp ≡ 0) ⊎ ((enq ≤ stamp) × (stamp ≤ t))

pub Staged-mono : (t u enq stamp : ℕ) → t ≤ u → Staged t enq stamp → Staged u enq stamp
unfolding Staged
Staged-mono t u enq stamp h p = ground arith

pub Staged-now : (t enq : ℕ) → enq ≤ t → Staged t enq t
unfolding Staged
Staged-now t enq h = inr (h, omega arith)

pub Staged-unset : (t enq : ℕ) → Staged t enq 0
unfolding Staged
Staged-unset t enq = inl refl

-- No subtraction of the enqueue stamp from a stage's stamp, or of that from t, wraps.
pub Staged_lem :
    (t enq stamp : ℕ) → Staged t enq stamp → (stamp ≡ 0) ⊎ ((enq ≤ stamp) × (stamp ≤ t))
unfolding Staged
Staged_lem t enq stamp h = h

-- The stages of an op, and the tables that userspace reads by their counts.
pub record HasStages (t : ℕ) (v : OpValue) : Type 0 where
  pub enqueued : v.enqueue_stamp ≤ t
  pub dequeued : Staged t v.enqueue_stamp v.dequeue_stamp
  pub executed : Staged t v.enqueue_stamp v.execute_ctx_stamp
  pub submitted : Staged t v.enqueue_stamp v.submit_transaction_stamp
  pub queued : Staged t v.enqueue_stamp v.queue_transaction_stamp
  pub written : Staged t v.enqueue_stamp v.do_write_stamp
  pub finished : Staged t v.enqueue_stamp v.wctx_finish_stamp
  pub aio_submitted : Staged t v.enqueue_stamp v.aio_submit_stamp
  pub aio_finished : Staged t v.enqueue_stamp v.aio_done_stamp
  pub kv_submitted : Staged t v.enqueue_stamp v.kv_submit_stamp
  pub kv_committed : Staged t v.enqueue_stamp v.kv_committed_stamp
  pub delays : v.di.cnt ≤ 5
  pub peers : v.pi.peer1 ≡ minus_one → v.pi.peer2 ≡ minus_one

-- An entry belongs to its key, and to an op that osdtrace follows.
pub record IsTracked (t : ℕ) (key : OpKey) (v : OpValue) : Type 0 where
  pub same_pid : v.pid ≡ key.pid
  pub same_owner : v.owner ≡ key.owner
  pub same_tid : v.tid ≡ key.tid
  pub kind : (v.op_type ≡ msg_osd_op) ⊎ (v.op_type ≡ msg_osd_repop)
  pub stages : HasStages t v

pub HasStages-mono : (t u : ℕ) (v : OpValue) → t ≤ u → HasStages t v → HasStages u v
HasStages-mono t u v h p = record {
  enqueued = omega arith;
  dequeued = Staged-mono t u _ _ h p.dequeued;
  executed = Staged-mono t u _ _ h p.executed;
  submitted = Staged-mono t u _ _ h p.submitted;
  queued = Staged-mono t u _ _ h p.queued;
  written = Staged-mono t u _ _ h p.written;
  finished = Staged-mono t u _ _ h p.finished;
  aio_submitted = Staged-mono t u _ _ h p.aio_submitted;
  aio_finished = Staged-mono t u _ _ h p.aio_finished;
  kv_submitted = Staged-mono t u _ _ h p.kv_submitted;
  kv_committed = Staged-mono t u _ _ h p.kv_committed;
  delays = p.delays;
  peers = p.peers;
}

pub IsTracked-mono :
    (t u : ℕ) (key : OpKey) (v : OpValue) → t ≤ u → IsTracked t key v → IsTracked u key v
IsTracked-mono t u key v h p = record {
  same_pid = p.same_pid;
  same_owner = p.same_owner;
  same_tid = p.same_tid;
  kind = p.kind;
  stages = HasStages-mono t u v h p.stages;
}
