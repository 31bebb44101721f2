-- ===== src/Bpf/Invariant/Queue.antt =====
-- `uprobe_enqueue_op`, `uprobe_dequeue_op` and `uprobe_execute_ctx` keep the invariant.
use cephtrace.Base.{
  ℕ, ◌≤◌, ◌≡◌, arith, refl, subst, sym, All, Option, none, some, true, not, ◌&&◌, ◌==◌,
  if◌then◌else◌,
}
use cephtrace.Bpf.Types.{OpKey, OpValue, msg_osd_repop}
use cephtrace.Bpf.Tracer.{Hit, Config, Kernel, Tracer, get_pid}
use cephtrace.Bpf.Fetch.{read_hprobe_varfield}
use cephtrace.Bpf.Queue.{
  or_zero, is_osd_msg, is_retry, read_stamps, capture_ops, capture_name, track, find_op, unbind,
  enqueue_time, uprobe_enqueue_op, uprobe_dequeue_op, uprobe_execute_ctx,
}
use cephtrace.Bpf.Queue.Track.{track-rb, track-Entries}
use cephtrace.Bpf.Rules.{require_rule, if_rule}
use cephtrace.Bpf.Entry.{IsTracked, Staged-now}
use cephtrace.Bpf.Entry.Captures.{capture_ops-IsTracked, capture_name-IsTracked}
use cephtrace.Bpf.Entry.Updates.{fresh_entry-IsTracked}
use cephtrace.Bpf.Invariant.{IsEmitted, Inv, Inv-mono, Inv-write, Inv-same, Inv-edit, with_key_rule}

module _ (k : Kernel) (g : Config) (c : Hit) where
  read_stamps-IsTracked :
      (t : ℕ) (key : OpKey) (v w : OpValue)
      → read_stamps g c v ≡ some w
      → IsTracked t key v
      → IsTracked t key w
  unfolding read_stamps
  read_stamps-IsTracked t key v w e p = ground arith

  track-Inv :
      (key : OpKey) (op_type stamp : ℕ) (s : Tracer k)
      → is_osd_msg op_type ≡ true
      → Inv k stamp s
      → Inv k stamp (track k g c key op_type stamp s)
  track-Inv key op_type stamp s msg p = record {
    tracked =
        track-Entries k g c key op_type stamp s (IsTracked stamp)
          (λ w e.
            read_stamps-IsTracked stamp key _ w e (fresh_entry-IsTracked key g c op_type stamp msg))
          p.tracked;
    emitted = subst (All (IsEmitted stamp)) (sym (track-rb k g c key op_type stamp s)) p.emitted;
  }

  track_later-Inv :
      (key : OpKey) (op_type : ℕ) (s : Tracer k) (existing : Option OpValue)
      → is_osd_msg op_type ≡ true
      → c.now ≤ c.later
      → Inv k c.now s
      → Inv k c.later (track k g c key op_type (enqueue_time c existing) s)
  track_later-Inv key op_type s none msg order p =
      Inv-mono k c.now c.later _ order (track-Inv key op_type c.now s msg p)
  track_later-Inv key op_type s (some v) msg order p =
      track-Inv key op_type c.later s msg (Inv-mono k c.now c.later s order p)

  pub enqueue-Inv :
      (s : Tracer k) → c.now ≤ c.later → Inv k c.now s → Inv k c.later (uprobe_enqueue_op k g c s)
  unfolding uprobe_enqueue_op
  enqueue-Inv s order p =
      let P = Inv k c.later in
      let later = Inv-mono k c.now c.later s order p in
      if_rule P (not (is_osd_msg (or_zero (read_hprobe_varfield g c 0 2)))) _ _ (λ _. later)
        λ msg. require_rule P (read_hprobe_varfield g c 1 8) _ _ later λ owner _.
          require_rule P (read_hprobe_varfield g c 2 8) _ _ later λ tid _.
            let key : OpKey = record { pid = get_pid c; owner = owner; tid = tid } in
            if_rule P (is_retry c.now (find_op k s key)) _ _ (λ _. later)
              λ _. track_later-Inv key _ s (find_op k s key) (ground (arith)) order p

  stamped-IsTracked :
      (key : OpKey) (v : OpValue)
      → IsTracked c.now key v
      → IsTracked c.now key (if v.dequeue_stamp == 0 then record v { dequeue_stamp = c.now } else v)
  stamped-IsTracked key v p = ground (arith, Staged-now c.now v.enqueue_stamp)

  placed-IsTracked :
      (key : OpKey) (v : OpValue) (m_pool m_seed : ℕ)
      → IsTracked c.now key v
      → IsTracked c.now key (record v { m_pool = m_pool; m_seed = m_seed })
  placed-IsTracked key v m_pool m_seed p = ground arith

  pub dequeue-Inv : (s : Tracer k) → Inv k c.now s → Inv k c.now (uprobe_dequeue_op k g c s)
  unfolding uprobe_dequeue_op
  dequeue-Inv s0 p0 =
      let P = Inv k c.now in
      let s = unbind k c s0 in
      let p = Inv-same k c.now s0 s refl refl p0 in
      let op_type = or_zero (read_hprobe_varfield g c 10 2) in
      if_rule P (not (is_osd_msg op_type)) _ _ (λ _. p)
        λ _. require_rule P (read_hprobe_varfield g c 12 8) _ _ p λ tid _.
          let owner = or_zero (read_hprobe_varfield g c 11 8) in
          let key : OpKey = record { pid = get_pid c; owner = owner; tid = tid } in
          require_rule P (find_op k s key) _ _ p λ v found.
            let v1 = if v.dequeue_stamp == 0 then record v { dequeue_stamp = c.now } else v in
            let q = stamped-IsTracked key v (p.tracked key v found) in
            let write =
              λ (w : OpValue) (e : IsTracked c.now key w). Inv-write k c.now s key v w found e p in
            require_rule P (read_hprobe_varfield g c 13 8) _ _ (write v1 q) λ pool _.
              require_rule P (read_hprobe_varfield g c 14 4) _ _
                (write _ (placed-IsTracked key v1 pool v1.m_seed q))
                λ seed _.
                  let last = write _ (placed-IsTracked key v1 pool seed q) in
                  if_rule P (op_type == msg_osd_repop && v1.queue_transaction_stamp == 0) _ _
                    (λ _. Inv-same k c.now _ _ refl refl last) λ _. last

  executed-IsTracked :
      (key : OpKey) (v : OpValue)
      → IsTracked c.now key v
      → IsTracked c.now key (record v { execute_ctx_stamp = c.now })
  executed-IsTracked key v p = ground (arith, Staged-now c.now v.enqueue_stamp)

  pub execute_ctx-Inv : (s : Tracer k) → Inv k c.now s → Inv k c.now (uprobe_execute_ctx k g c s)
  unfolding uprobe_execute_ctx
  execute_ctx-Inv s p = with_key_rule k c.now g c 20 s _ p λ key.
      let run = λ (v : OpValue). record v { execute_ctx_stamp = c.now } in
      Inv-edit k c.now s key (λ v. capture_name g c (capture_ops g c (run v)))
        (λ v q.
          capture_name-IsTracked c.now key g c (capture_ops g c (run v))
            (capture_ops-IsTracked c.now key g c (run v) (executed-IsTracked key v q)))
        p
