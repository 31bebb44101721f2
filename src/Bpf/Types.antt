-- ===== src/Bpf/Types.antt =====
-- src/bpf_ceph_types.h: the records that the probes of osdtrace keep and emit.
use cephtrace.Base.{ℕ, Bool, List, replicate, ◌==◌}

abbrev pub msg_osd_repop : ℕ
msg_osd_repop = 112

abbrev pub msg_osd_op : ℕ
msg_osd_op = 42

abbrev pub flag_delayed : ℕ
flag_delayed = 4

abbrev pub max_detail_ops : ℕ
max_detail_ops = 8

abbrev pub object_name_len : ℕ
object_name_len = 64

abbrev pub bs_lat_name_len : ℕ
bs_lat_name_len = 40

-- `CEPH_OSD_OP_CALL`, `__CEPH_OSD_OP(RD, EXEC, 1)`.
abbrev pub ceph_osd_op_call_code : ℕ
ceph_osd_op_call_code = 0x1401

unfoldable pub ceph_osd_op_call : ℕ → Bool
ceph_osd_op_call op = op == ceph_osd_op_call_code

pub record ClsOp : Type 0 where
  pub cls_name : List ℕ
  pub method_name : List ℕ

pub record OpKey : Type 0 where
  pub pid : ℕ
  pub owner : ℕ
  pub tid : ℕ

pub record CtxKey : Type 0 where
  pub pid : ℕ
  pub seqid : ℕ
  pub start_stamp : ℕ

-- `int` fields are bit patterns.
pub record PeersInfo : Type 0 where
  pub peer1 : ℕ
  pub peer2 : ℕ
  pub sent_stamp : ℕ
  pub recv_stamp1 : ℕ
  pub recv_stamp2 : ℕ

pub record DelayInfo : Type 0 where
  pub cnt : ℕ
  pub delays : List (List ℕ)

pub record OpValue : Type 0 where
  pub pid : ℕ
  pub owner : ℕ
  pub tid : ℕ
  pub op_type : ℕ
  pub recv_stamp : ℕ
  pub throttle_stamp : ℕ
  pub recv_complete_stamp : ℕ
  pub dispatch_stamp : ℕ
  pub enqueue_stamp : ℕ
  pub dequeue_stamp : ℕ
  pub execute_ctx_stamp : ℕ
  pub submit_transaction_stamp : ℕ
  pub queue_transaction_stamp : ℕ
  pub do_write_stamp : ℕ
  pub wctx_finish_stamp : ℕ
  pub aio_submit_stamp : ℕ
  pub aio_done_stamp : ℕ
  pub kv_submit_stamp : ℕ
  pub kv_committed_stamp : ℕ
  pub aio_size : ℕ
  pub pi : PeersInfo
  pub di : DelayInfo
  pub reply_stamp : ℕ
  pub wb : ℕ
  pub rb : ℕ
  pub m_pool : ℕ
  pub m_seed : ℕ
  pub object_name : List ℕ
  pub detail_ops : List ℕ
  pub cls_ops : List ClsOp
  pub detail_ops_captured : ℕ
  pub detail_ops_total : ℕ
  pub detail_ops_unavailable : ℕ

abbrev pub zero_cls_op : ClsOp
zero_cls_op = record { cls_name = replicate 16 0; method_name = replicate 32 0 }

abbrev pub zero_op_v : OpValue
zero_op_v = record {
  pid = 0;
  owner = 0;
  tid = 0;
  op_type = 0;
  recv_stamp = 0;
  throttle_stamp = 0;
  recv_complete_stamp = 0;
  dispatch_stamp = 0;
  enqueue_stamp = 0;
  dequeue_stamp = 0;
  execute_ctx_stamp = 0;
  submit_transaction_stamp = 0;
  queue_transaction_stamp = 0;
  do_write_stamp = 0;
  wctx_finish_stamp = 0;
  aio_submit_stamp = 0;
  aio_done_stamp = 0;
  kv_submit_stamp = 0;
  kv_committed_stamp = 0;
  aio_size = 0;
  pi = record { peer1 = 0; peer2 = 0; sent_stamp = 0; recv_stamp1 = 0; recv_stamp2 = 0 };
  di = record { cnt = 0; delays = replicate 5 (replicate 32 0) };
  reply_stamp = 0;
  wb = 0;
  rb = 0;
  m_pool = 0;
  m_seed = 0;
  object_name = replicate object_name_len 0;
  detail_ops = replicate max_detail_ops 0;
  cls_ops = replicate max_detail_ops zero_cls_op;
  detail_ops_captured = 0;
  detail_ops_total = 0;
  detail_ops_unavailable = 0;
}

pub record BluestoreLat : Type 0 where
  pub pid : ℕ
  pub lat : ℕ
  pub name : List ℕ

pub record VarLocation : Type 0 where
  pub reg : ℕ
  pub offset : ℕ
  pub stack : Bool

pub record Field : Type 0 where
  pub offset : ℕ
  pub pointer : Bool

-- `fields` is an array of ten; `size` counts the entries in use, the first of which is unused.
pub record VarField : Type 0 where
  pub varloc : VarLocation
  pub fields : List Field
  pub size : ℕ
