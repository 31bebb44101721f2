-- ===== src/Rados/Types.antt =====
-- src/bpf_ceph_types.h and src/radostrace.bpf.c: the records of a client op, the constants that
-- userspace sets before loading, and the state that the two probes keep.
use cephtrace.Base.{ℕ, Bool, ◌||◌, List, replicate, ◌==◌}
use cephtrace.Bpf.Types.{ClsOp, zero_cls_op}
use cephtrace.Bpf.Maps.{BpfMap}

abbrev pub max_acting : ℕ
max_acting = 16

abbrev pub max_client_ops : ℕ
max_client_ops = 3

pub record ClientOpKey : Type 0 where
  pub cid : ℕ
  pub tid : ℕ

-- `int` fields are bit patterns.
pub record ClientOpValue : Type 0 where
  pub cid : ℕ
  pub tid : ℕ
  pub rw : ℕ
  pub sent_stamp : ℕ
  pub finish_stamp : ℕ
  pub target_osd : ℕ
  pub pid : ℕ
  pub object_name : List ℕ
  pub m_pool : ℕ
  pub m_seed : ℕ
  pub acting : List ℕ
  pub offset : ℕ
  pub length : ℕ
  pub ops : List ℕ
  pub ops_size : ℕ
  pub cls_ops : List ClsOp

abbrev pub zero_val : ClientOpValue
zero_val = record {
  cid = 0;
  tid = 0;
  rw = 0;
  sent_stamp = 0;
  finish_stamp = 0;
  target_osd = 0;
  pid = 0;
  object_name = replicate 128 0;
  m_pool = 0;
  m_seed = 0;
  acting = replicate max_acting 0;
  offset = 0;
  length = 0;
  ops = replicate max_client_ops 0;
  ops_size = 0;
  cls_ops = replicate max_client_ops zero_cls_op;
}

-- `READ`, `SPARSE_READ`, `SYNC_READ`, `WRITE`, `WRITEFULL`, `ZERO`, `APPEND`, `MAPEXT`, `CMPEXT`,
-- `OMAPSETVALS` and `OMAPGETKEYS`.
unfoldable pub ceph_osd_op_extent : ℕ → Bool
ceph_osd_op_extent op =
    op == 0x1201
    || op == 0x1205
    || op == 0x120b
    || op == 0x2201
    || op == 0x2202
    || op == 0x2204
    || op == 0x2206
    || op == 0x1203
    || op == 0x1220
    || op == 0x2215
    || op == 0x1211

-- The `const volatile` globals. An offset is a 64-bit pattern.
pub record ClientConfig : Type 0 where
  pub ceph_osd_op_size : ℕ
  pub extent_offset_offset : ℕ
  pub extent_length_offset : ℕ
  pub cls_class_offset : ℕ
  pub cls_method_offset : ℕ
  pub buffer_carriage_offset : ℕ
  pub buffer_raw_offset : ℕ
  pub buffer_data_offset : ℕ
  pub send_op_reg : ℕ
  pub send_this_reg : ℕ
  pub fin_op_reg : ℕ
  pub fin_this_reg : ℕ
  pub off_tid : ℕ
  pub off_monc : ℕ
  pub off_global_id : ℕ
  pub off_target_osd : ℕ
  pub off_name_len : ℕ
  pub off_name_ptr : ℕ
  pub off_flags : ℕ
  pub off_pool : ℕ
  pub off_seed : ℕ
  pub off_acting_start : ℕ
  pub off_acting_finish : ℕ
  pub off_ops_start : ℕ
  pub off_ops_size : ℕ

-- The hash `ops`.
abbrev pub ClientOps : Type 1
ClientOps = BpfMap ClientOpKey ClientOpValue

-- `rb` holds every event submitted so far, the newest first.
pub record Client (k : ClientOps) : Type 0 where
  pub ops : k.Map
  pub rb : List ClientOpValue
