-- ===== src/Report/Op.antt =====
-- src/osdtrace.cc: `generate_op` and `handle_full`.
use cephtrace.Base.{
  ℕ, ◌-◌, ◌/◌, ◌%◌, Bool, not, ◌&&◌, ◌||◌, List, [], ◌∷◌, ◌++◌, map, Option, none, some, ltb, ◌==◌,
  if◌then◌else◌, take, drop, replicate, sub64, minus_one, u32_mod, min,
}
use cephtrace.Bpf.Types.{
  OpValue, ClsOp, PeersInfo, zero_cls_op, msg_osd_op, msg_osd_repop, max_detail_ops,
}

pub record PeerLat : Type 0 where
  pub peer : ℕ
  pub latency : ℕ

-- `osd_op_t`.
pub record OsdOp : Type 0 where
  pub op_type : ℕ
  pub wb : ℕ
  pub rb : ℕ
  pub is_write : Bool
  pub client_id : ℕ
  pub req_id : ℕ
  pub m_pool : ℕ
  pub m_seed : ℕ
  pub throttle_lat : ℕ
  pub recv_lat : ℕ
  pub dispatch_lat : ℕ
  pub queue_lat : ℕ
  pub delayed_cnt : ℕ
  pub delayed_strs : List (List ℕ)
  pub osd_lat : ℕ
  pub peers : List PeerLat
  pub bs_prepare_lat : ℕ
  pub bs_aio_wait_lat : ℕ
  pub bs_pg_seq_lat : ℕ
  pub bs_kv_commit_lat : ℕ
  pub bs_lat : ℕ
  pub aio_size : ℕ
  pub op_lat : ℕ
  pub object_name : List ℕ
  pub detail_ops : List ℕ
  pub cls_ops : List ClsOp
  pub detail_ops_total : ℕ
  pub detail_ops_unavailable : Bool

unfoldable pub safe_lat_us : ℕ → ℕ → ℕ
safe_lat_us end start = if not (start == 0) && ltb start end then (end - start) / 1000 else 0

-- The bytes before the first NUL.
unfoldable pub c_string : List ℕ → List ℕ
c_string [] = []
c_string (b ∷ bs) = if b == 0 then [] else b ∷ c_string bs

-- One of the two blocks that fill `op.peers`.
unfoldable pub peer_entry : ℕ → ℕ → ℕ → List PeerLat
peer_entry peer recv sent =
    if not (peer == minus_one) && not (recv == 0)
    then record { peer = peer; latency = if ltb sent recv then (recv - sent) / 1000 else 0 } ∷ []
    else []

unfoldable pub peer_entries : PeersInfo → List PeerLat
unfolding peer_entry
peer_entries pi =
    peer_entry pi.peer1 pi.recv_stamp1 pi.sent_stamp
    ++ peer_entry pi.peer2 pi.recv_stamp2 pi.sent_stamp

abbrev pub is_write_op : OpValue → Bool
is_write_op val =
    val.op_type == msg_osd_repop || not (val.submit_transaction_stamp == 0) || ltb 0 val.wb

-- The workaround for a `recv_stamp` later than `throttle_stamp`.
abbrev pub recv_of : OpValue → ℕ
recv_of val = if ltb val.throttle_stamp val.recv_stamp then val.throttle_stamp else val.recv_stamp

abbrev pub by_kind : Bool → ℕ → ℕ → ℕ → ℕ
by_kind is_write rb w r = if is_write then w else if ltb 0 rb then r else 0

-- The argument is `bootstamp`. Unsigned subtractions wrap where the source's do.
unfoldable pub generate_op : ℕ → OpValue → OsdOp
generate_op bootstamp val =
    let is_write = is_write_op val in
    let rb = val.rb % u32_mod in
    let recv_stamp = recv_of val in
    let captured = min val.detail_ops_captured max_detail_ops in
    record {
      op_type = val.op_type;
      wb = val.wb % u32_mod;
      rb = rb;
      is_write = is_write;
      client_id = val.owner;
      req_id = val.tid;
      m_pool = val.m_pool;
      m_seed = val.m_seed;
      throttle_lat = sub64 val.throttle_stamp recv_stamp / 1000;
      recv_lat = sub64 val.recv_complete_stamp recv_stamp / 1000;
      dispatch_lat = sub64 val.enqueue_stamp (sub64 val.recv_complete_stamp bootstamp) / 1000;
      queue_lat = sub64 val.dequeue_stamp val.enqueue_stamp / 1000;
      delayed_cnt = val.di.cnt;
      delayed_strs = map c_string (take val.di.cnt val.di.delays);
      osd_lat =
          by_kind is_write rb (safe_lat_us val.queue_transaction_stamp val.dequeue_stamp)
            (safe_lat_us val.execute_ctx_stamp val.dequeue_stamp);
      peers = if val.op_type == msg_osd_op then peer_entries val.pi else [];
      bs_prepare_lat = safe_lat_us val.aio_submit_stamp val.queue_transaction_stamp;
      bs_aio_wait_lat = safe_lat_us val.aio_done_stamp val.aio_submit_stamp;
      bs_pg_seq_lat = safe_lat_us val.kv_submit_stamp val.aio_done_stamp;
      bs_kv_commit_lat = safe_lat_us val.kv_committed_stamp val.kv_submit_stamp;
      bs_lat =
          by_kind is_write rb (safe_lat_us val.kv_committed_stamp val.queue_transaction_stamp)
            (safe_lat_us val.reply_stamp val.execute_ctx_stamp);
      aio_size = val.aio_size;
      op_lat = sub64 val.reply_stamp (sub64 recv_stamp bootstamp) / 1000;
      object_name = c_string val.object_name;
      detail_ops = take captured val.detail_ops;
      cls_ops = take captured val.cls_ops ++ drop captured (replicate max_detail_ops zero_cls_op);
      detail_ops_total = val.detail_ops_total;
      detail_ops_unavailable = not (val.detail_ops_unavailable == 0);
    }

-- The function that `handle_full` prints the op with.
pub data Row : Type 0 where
  op_r op_w subop_w : OsdOp → Row
  unsupported : ℕ → Row

-- `none`: the op is below the threshold, in milliseconds, and nothing is printed.
unfoldable pub handle_full : ℕ → ℕ → OpValue → Option Row
handle_full threshold bootstamp val =
    let op = generate_op bootstamp val in
    if ltb (op.op_lat / 1000) threshold
    then none
    else some (
        if op.op_type == msg_osd_repop
        then subop_w op
        else if op.op_type == msg_osd_op
        then (if op.is_write then op_w op else op_r op)
        else unsupported op.op_type)
