-- ===== src/Bpf/Effects/Enqueue.antt =====
-- `uprobe_enqueue_op` against retries and stale entries.
use cephtrace.Base.{ℕ, ◌≤◌, ◌≡◌, ◌⊎◌, inl, inr, arith, refl, Option, none, some, false, not, sub64}
use cephtrace.Bpf.Types.{OpKey, OpValue, zero_op_v}
use cephtrace.Bpf.Maps.{Entries}
use cephtrace.Bpf.Queue.Track.{track-Entries}
use cephtrace.Bpf.Tracer.{Hit, Config, Kernel, Tracer, get_pid}
use cephtrace.Bpf.Fetch.{read_hprobe_varfield}
use cephtrace.Bpf.Queue.{
  or_zero, is_osd_msg, is_retry, fresh_entry, read_stamps, find_op, enqueue_time, uprobe_enqueue_op,
}
use cephtrace.Bpf.Rules.{require_rule, if_rule}

-- An entry that no probe but `uprobe_enqueue_op` has touched.
pub record IsFresh (key : OpKey) (stamp : ℕ) (v : OpValue) : Type 0 where
  pub enqueued : v.enqueue_stamp ≡ stamp
  pub not_dequeued : v.dequeue_stamp ≡ 0
  pub not_queued : v.queue_transaction_stamp ≡ 0
  pub not_committed : v.kv_committed_stamp ≡ 0
  pub no_ops : v.detail_ops_captured ≡ 0
  pub no_delays : v.di.cnt ≡ 0
  pub same_owner : v.owner ≡ key.owner
  pub same_tid : v.tid ≡ key.tid

-- There was no entry, or one whose age has reached five seconds.
abbrev pub IsStale : ℕ → Option OpValue → Type 0
IsStale now old =
    (old ≡ none) ⊎ ((v : OpValue) × (old ≡ some v) × (5000000000 ≤ sub64 now v.enqueue_stamp))

not-is_retry : (now : ℕ) (old : Option OpValue) → is_retry now old ≡ false → IsStale now old
unfolding is_retry
not-is_retry now none e = inl refl
not-is_retry now (some v) e = inr (v, refl, ground arith)

module _ (k : Kernel) (g : Config) (c : Hit) where
  filled-IsFresh :
      (key : OpKey) (op_type stamp : ℕ) (w : OpValue)
      → read_stamps g c (fresh_entry key op_type stamp zero_op_v) ≡ some w
      → IsFresh key stamp w
  unfolding read_stamps fresh_entry
  filled-IsFresh key op_type stamp w e = ground arith

  -- Whatever stands under any key after the probe stood there before, or is a fresh entry for an op
  -- of the thread's process, which replaced none or one that was at least five seconds old.
  pub enqueue_effect :
      (s : Tracer k) (j : OpKey) (v : OpValue)
      → find_op k (uprobe_enqueue_op k g c s) j ≡ some v
      → (find_op k s j ≡ some v)
        ⊎ ((j.pid ≡ get_pid c)
            × IsFresh j (enqueue_time c (find_op k s j)) v
            × IsStale c.now (find_op k s j))
  unfolding uprobe_enqueue_op
  enqueue_effect s =
      let P = λ (u : Tracer k).
        Entries k.ops
          (λ j v.
            (find_op k s j ≡ some v)
            ⊎ ((j.pid ≡ get_pid c)
                × IsFresh j (enqueue_time c (find_op k s j)) v
                × IsStale c.now (find_op k s j)))
          u.ops in
      let same : P s = λ j v e. inl e in
      if_rule P (not (is_osd_msg (or_zero (read_hprobe_varfield g c 0 2)))) _ _ (λ _. same)
        λ _. require_rule P (read_hprobe_varfield g c 1 8) _ _ same λ owner _.
          require_rule P (read_hprobe_varfield g c 2 8) _ _ same λ tid _.
            let key : OpKey = record { pid = get_pid c; owner = owner; tid = tid } in
            if_rule P (is_retry c.now (find_op k s key)) _ _ (λ _. same)
              λ young.
                track-Entries k g c key _ _ s _
                  (λ w e. inr (refl, filled-IsFresh key _ _ w e, not-is_retry c.now _ young)) same
