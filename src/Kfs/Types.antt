-- ===== src/Kfs/Types.antt =====
-- src/kfstrace.bpf.c: the records of a request to an OSD or an MDS, the hash maps, and what a kprobe
-- runs on.
use cephtrace.Base.{
  ℕ, ◌/◌, Bool, ◌||◌, List, Option, none, some, ◌≡◌, ◌≢◌, ◌⊎◌, replicate, ◌==◌, u32_mod,
  if◌then◌else◌,
}
use cephtrace.Bpf.Types.{ClsOp}
use cephtrace.Bpf.Maps.{BpfMap}

abbrev pub ceph_pg_max_size : ℕ
ceph_pg_max_size = 8

abbrev pub ceph_oid_inline_len : ℕ
ceph_oid_inline_len = 24

abbrev pub ceph_osd_max_ops : ℕ
ceph_osd_max_ops = 3

abbrev pub ceph_mds_op_name_max : ℕ
ceph_mds_op_name_max = 32

abbrev pub ceph_mds_path_max : ℕ
ceph_mds_path_max = 64

-- `struct request_key` and `struct mds_request_key`, which have the same fields.
pub record RequestKey : Type 0 where
  pub client_id : ℕ
  pub tid : ℕ

pub record KernelTraceEvent : Type 0 where
  pub tid : ℕ
  pub client_id : ℕ
  pub start_time : ℕ
  pub end_time : ℕ
  pub latency_us : ℕ
  pub primary_osd : ℕ
  pub acting_osds : List ℕ
  pub acting_size : ℕ
  pub pid : ℕ
  pub attempts : ℕ
  pub comm : List ℕ
  pub object_name : List ℕ
  pub object_name_len : ℕ
  pub is_read : Bool
  pub is_write : Bool
  pub pool_id : ℕ
  pub pg_id : ℕ
  pub ops : List ℕ
  pub ops_size : ℕ
  pub offset : ℕ
  pub length : ℕ
  pub cls_ops : List ClsOp

abbrev pub kfs_zero_cls_op : ClsOp
kfs_zero_cls_op = record { cls_name = replicate 8 0; method_name = replicate 32 0 }

abbrev pub zero_event : KernelTraceEvent
zero_event = record {
  tid = 0;
  client_id = 0;
  start_time = 0;
  end_time = 0;
  latency_us = 0;
  primary_osd = 0;
  acting_osds = replicate ceph_pg_max_size 0;
  acting_size = 0;
  pid = 0;
  attempts = 0;
  comm = replicate 16 0;
  object_name = replicate ceph_oid_inline_len 0;
  object_name_len = 0;
  is_read = Bool.false;
  is_write = Bool.false;
  pool_id = 0;
  pg_id = 0;
  ops = replicate ceph_osd_max_ops 0;
  ops_size = 0;
  offset = 0;
  length = 0;
  cls_ops = replicate ceph_osd_max_ops kfs_zero_cls_op;
}

-- `result` is a bit pattern.
pub record MdsTraceEvent : Type 0 where
  pub tid : ℕ
  pub client_id : ℕ
  pub submit_time : ℕ
  pub unsafe_reply_time : ℕ
  pub safe_reply_time : ℕ
  pub unsafe_latency_us : ℕ
  pub safe_latency_us : ℕ
  pub op : ℕ
  pub pid : ℕ
  pub mds_rank : ℕ
  pub result : ℕ
  pub comm : List ℕ
  pub attempts : ℕ
  pub got_unsafe_reply : Bool
  pub got_safe_reply : Bool
  pub is_write_op : Bool
  pub op_name : List ℕ
  pub path : List ℕ

abbrev pub zero_mds_event : MdsTraceEvent
zero_mds_event = record {
  tid = 0;
  client_id = 0;
  submit_time = 0;
  unsafe_reply_time = 0;
  safe_reply_time = 0;
  unsafe_latency_us = 0;
  safe_latency_us = 0;
  op = 0;
  pid = 0;
  mds_rank = 0;
  result = 0;
  comm = replicate 16 0;
  attempts = 0;
  got_unsafe_reply = Bool.false;
  got_safe_reply = Bool.false;
  is_write_op = Bool.false;
  op_name = replicate ceph_mds_op_name_max 0;
  path = replicate ceph_mds_path_max 0;
}

-- The members of kernel structs that the probes read; a number is the index i of `r_ops[i]`.
pub data Member : Type 0 where
  r_tid r_osd o_osd r_osdc osdc_client msgr_inst_name_num : Member
  acting_osd_count target_oid_name_len target_oid_inline_name spgid_pool spgid_seed : Member
  target_flags r_num_ops con_private o_osdc hdr_tid hdr_type : Member
  op_code extent_offset extent_length : ℕ → Member
  cls_class_name cls_class_len cls_method_name cls_method_len : ℕ → Member
  r_op s_mdsc mdsc_fsc fsc_client s_mds r_dentry d_name_name d_name_len : Member
  front_iov_base head_safe head_result : Member

-- One hit of a kprobe. `core_read a m` is what `bpf_core_read` reads of the member m of the struct at
-- a, `none` if it returns an error; `core_read_str a n` what `bpf_core_read_str` copies from a with
-- n bytes of room, the final NUL included; `core_read_acting a n` the first n OSDs of the acting
-- set; `member_addr` the address of a member. `now` is the reading of `bpf_ktime_get_ns`.
pub record KHit : Type 0 where
  pub parm1 : ℕ
  pub parm2 : ℕ
  pub pid_tgid : ℕ
  pub current_comm : List ℕ
  pub now : ℕ
  pub core_read : ℕ → Member → Option ℕ
  pub core_read_str : ℕ → ℕ → Option (List ℕ)
  pub core_read_acting : ℕ → ℕ → Option (List ℕ)
  pub member_addr : ℕ → Member → ℕ
  pub has_room : Bool

-- The enumerators that the generated header ceph_btf_local.h takes from the running kernel.
pub record Btf : Type 0 where
  pub ceph_osd_op_read : ℕ
  pub ceph_osd_op_sparse_read : ℕ
  pub ceph_osd_op_sync_read : ℕ
  pub ceph_osd_op_write : ℕ
  pub ceph_osd_op_writefull : ℕ
  pub ceph_osd_op_zero : ℕ
  pub ceph_osd_op_append : ℕ
  pub ceph_osd_op_mapext : ℕ
  pub ceph_osd_op_call : ℕ
  pub ceph_osd_flag_write : ℕ

unfoldable pub is_extent_op : Btf → ℕ → Bool
is_extent_op b op =
    op == b.ceph_osd_op_read
    || op == b.ceph_osd_op_sparse_read
    || op == b.ceph_osd_op_sync_read
    || op == b.ceph_osd_op_write
    || op == b.ceph_osd_op_writefull
    || op == b.ceph_osd_op_zero
    || op == b.ceph_osd_op_append
    || op == b.ceph_osd_op_mapext

unfoldable pub is_call_op : Btf → ℕ → Bool
is_call_op b op = op == b.ceph_osd_op_call

-- A `BPF_MAP_TYPE_HASH`: unlike the LRU kind it never evicts. `update_exist` is
-- `bpf_map_update_elem` with `BPF_EXIST`; an update that fails leaves the map as it was.
pub record HashMap (K V : Type 0) : Type 1 where
  pub base : BpfMap K V
  pub update_exist : base.Map → K → V → base.Map
  pub no_eviction :
      (m : base.Map) (k j : K) (v : V) → j ≢ k → base.lookup (base.update m k v) j ≡ base.lookup m j
  pub lookup-update_exist_self :
      (m : base.Map) (k : K) (v w : V)
      → base.lookup m k ≡ some w
      → (base.lookup (update_exist m k v) k ≡ some v)
        ⊎ (base.lookup (update_exist m k v) k ≡ some w)
  pub lookup-update_exist_ne :
      (m : base.Map) (k j : K) (v : V)
      → j ≢ k
      → base.lookup (update_exist m k v) j ≡ base.lookup m j

-- The map `pending_requests` and the ring buffer `rb`, the newest event first.
pub record OsdSide (k : HashMap RequestKey KernelTraceEvent) : Type 0 where
  pub pending_requests : k.base.Map
  pub rb : List KernelTraceEvent

-- The map `pending_mds_requests` and the ring buffer `mds_rb`.
pub record MdsSide (k : HashMap RequestKey MdsTraceEvent) : Type 0 where
  pub pending_mds_requests : k.base.Map
  pub mds_rb : List MdsTraceEvent

abbrev pub current_pid : KHit → ℕ
current_pid c = c.pid_tgid / u32_mod

-- A pointer that was read and is not null.
abbrev pub nonnull : Option ℕ → Option ℕ
nonnull none = none
nonnull (some a) = if a == 0 then none else some a
