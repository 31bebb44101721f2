-- ===== src/Report/Latency.antt =====
-- The latencies that userspace computes from what the probes emit.
use cephtrace.Base.{
  ℕ, ◌-◌, ◌/◌, ◌%◌, ◌≤◌, ◌<◌, ◌≡◌, ◌≢◌, ◌⊎◌, arith, Bool, List, [], ◌∷◌, All, u32_mod, u64_mod,
  minus_one, length,
}
use cephtrace.Bpf.Types.{OpValue, PeersInfo}
use cephtrace.Bpf.Tracer.{Hit, Config, Kernel, Event, op_event, bluestore_event}
use cephtrace.Bpf.Entry.{Staged, Staged-now, Staged_lem, HasStages}
use cephtrace.Bpf.Invariant.{IsEmitted}
use cephtrace.Bpf.Run.{Probe, initial, run, Timed, end_time}
use cephtrace.Bpf.Run.Safe.{run-Inv}
use cephtrace.Report.Op.{
  OsdOp, PeerLat, safe_lat_us, peer_entry, peer_entries, by_kind, is_write_op, generate_op,
}

-- The time in the OSD, in microseconds.
abbrev pub osd_time : OpValue → ℕ
osd_time v = (v.reply_stamp - v.enqueue_stamp) / 1000

-- No latency of a stage inside the OSD is longer than the time from the enqueue to the reply, and
-- the queueing time is the difference of its stamps, unless the op was never dequeued.
pub record Fits (v : OpValue) (op : OsdOp) : Type 0 where
  pub queue :
      (v.dequeue_stamp ≡ 0)
      ⊎ ((op.queue_lat ≡ (v.dequeue_stamp - v.enqueue_stamp) / 1000) × (op.queue_lat ≤ osd_time v))
  pub osd : op.osd_lat ≤ osd_time v
  pub bs_prepare : op.bs_prepare_lat ≤ osd_time v
  pub bs_aio_wait : op.bs_aio_wait_lat ≤ osd_time v
  pub bs_pg_seq : op.bs_pg_seq_lat ≤ osd_time v
  pub bs_kv_commit : op.bs_kv_commit_lat ≤ osd_time v
  pub bs : op.bs_lat ≤ osd_time v

safe_lat-le :
    (t enq end start : ℕ)
    → Staged t enq end
    → Staged t enq start
    → safe_lat_us end start ≤ (t - enq) / 1000
unfolding safe_lat_us
safe_lat-le t enq end start a b = ground (arith, Staged_lem t enq end, Staged_lem t enq start)

by_kind-le : (b : Bool) (rb w r m : ℕ) → w ≤ m → r ≤ m → by_kind b rb w r ≤ m
by_kind-le b rb w r m hw hr = ground arith

generate_op-Fits :
    (bootstamp : ℕ) (v : OpValue)
    → v.reply_stamp < u64_mod
    → HasStages v.reply_stamp v
    → Fits v (generate_op bootstamp v)
unfolding generate_op
generate_op-Fits bootstamp v h p =
    let le =
      λ (end start : ℕ) (a : Staged v.reply_stamp v.enqueue_stamp end)
          (b : Staged v.reply_stamp v.enqueue_stamp start).
        safe_lat-le v.reply_stamp v.enqueue_stamp end start a b in
    let replied = Staged-now v.reply_stamp v.enqueue_stamp p.enqueued in
    record {
      queue = ground (arith, Staged_lem v.reply_stamp v.enqueue_stamp v.dequeue_stamp p.dequeued);
      osd =
          by_kind-le (is_write_op v) (v.rb % u32_mod) _ _ _ (le _ _ p.queued p.dequeued)
            (le _ _ p.executed p.dequeued);
      bs_prepare = le _ _ p.aio_submitted p.queued;
      bs_aio_wait = le _ _ p.aio_finished p.aio_submitted;
      bs_pg_seq = le _ _ p.kv_submitted p.aio_finished;
      bs_kv_commit = le _ _ p.kv_committed p.kv_submitted;
      bs =
          by_kind-le (is_write_op v) (v.rb % u32_mod) _ _ _ (le _ _ p.kv_committed p.queued)
            (le _ _ replied p.executed);
    }

-- An event's row, if it is an op's, has latencies that fit.
abbrev pub RowFits : ℕ → Event → Type 0
RowFits bootstamp (op_event v) = Fits v (generate_op bootstamp v)
RowFits bootstamp (bluestore_event e) = Unit {0}

events-RowFits :
    (bootstamp t : ℕ) (es : List Event)
    → t < u64_mod
    → All (IsEmitted t) es
    → All (RowFits bootstamp) es
events-RowFits bootstamp t [] h p = tt
events-RowFits bootstamp t (op_event v ∷ es) h p =
    (generate_op-Fits bootstamp v (omega arith) p.0.0, events-RowFits bootstamp t es h p.1)
events-RowFits bootstamp t (bluestore_event e ∷ es) h p = (tt, events-RowFits bootstamp t es h p.1)

-- Along every run of the tracer whose clock stays below 2^64, every op event in the ring buffer is
-- turned by userspace into a row with the following latencies. The queueing time is the difference
-- of the dequeue and the enqueue stamp, in microseconds, unless the dequeue stamp is 0. It, the
-- time in the OSD and the five times in BlueStore are at most the time from enqueue to reply.
pub run-RowFits :
    (k : Kernel) (g : Config) (hits : List (Probe × Hit)) (t bootstamp : ℕ)
    → Timed t hits
    → end_time t hits < u64_mod
    → All (RowFits bootstamp) (run k g hits (initial k)).rb
run-RowFits k g hits t bootstamp timed h =
    events-RowFits bootstamp (end_time t hits) _ h (run-Inv k g hits t timed).emitted

-- A reported peer, against the two slots.
abbrev pub IsPeer : PeersInfo → PeerLat → Type 0
IsPeer pi p =
    (p.peer ≢ minus_one)
    × ((p.peer ≡ pi.peer1)
          × (pi.recv_stamp1 ≢ 0)
          × (p.latency ≡ (pi.recv_stamp1 - pi.sent_stamp) / 1000)
        ⊎ ((p.peer ≡ pi.peer2)
            × (pi.recv_stamp2 ≢ 0)
            × (p.latency ≡ (pi.recv_stamp2 - pi.sent_stamp) / 1000)))

-- Every entry of an op's peer list is a recorded peer whose reply was seen, with the time from the
-- last sending to that reply (0 if the reply is not later) as its latency; there are two at most.
pub peer_entries-IsPeer :
    (pi : PeersInfo) → All (IsPeer pi) (peer_entries pi) × (length (peer_entries pi) ≤ 2)
unfolding peer_entries peer_entry
peer_entries-IsPeer pi = ground arith
