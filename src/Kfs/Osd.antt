-- ===== src/Kfs/Osd.antt =====
-- src/kfstrace.bpf.c: the kprobes on `send_request` and `osd_dispatch`.
pub mod Shape
pub mod Effects
use cephtrace.Base.{
  ℕ, zero, suc, ◌+◌, ◌-◌, ◌/◌, ◌%◌, not, ◌&&◌, List, ◌∷◌, Option, none, some, ltb, leb, ◌==◌,
  if◌then◌else◌, get_or, set, sub64, u32_mod, bit_and,
}
use cephtrace.Bpf.Types.{ClsOp}
use cephtrace.Bpf.Queue.{require, or_zero, overlay}
use cephtrace.Kfs.Types.{
  RequestKey, KernelTraceEvent, zero_event, kfs_zero_cls_op, Member, r_tid, r_osd, o_osd, r_osdc,
  osdc_client, msgr_inst_name_num, acting_osd_count, target_oid_name_len, target_oid_inline_name,
  spgid_pool, spgid_seed, target_flags, r_num_ops, con_private, o_osdc, hdr_tid, op_code,
  extent_offset, extent_length, cls_class_name, cls_class_len, cls_method_name, cls_method_len,
  KHit, Btf, is_extent_op, is_call_op, HashMap, OsdSide, current_pid, ceph_pg_max_size,
  ceph_oid_inline_len, ceph_osd_max_ops,
}

-- The entity number of the client of an `osdc`.
abbrev pub client_of_osdc : KHit → ℕ → ℕ
client_of_osdc c osdc =
    or_zero
      (require (c.core_read osdc osdc_client) none λ client. c.core_read client msgr_inst_name_num)

abbrev pub overlay_str : Option (List ℕ) → List ℕ → List ℕ
overlay_str none array = array
overlay_str (some bytes) array = overlay bytes array

unfoldable pub read_acting : KHit → ℕ → KernelTraceEvent → KernelTraceEvent
read_acting c req info = require (c.core_read req acting_osd_count) info λ size.
    let acting_size = if ltb ceph_pg_max_size size then ceph_pg_max_size else size in
    record info {
      acting_size = acting_size;
      acting_osds = overlay_str (c.core_read_acting req acting_size) info.acting_osds;
    }

unfoldable pub read_object_name : KHit → ℕ → KernelTraceEvent → KernelTraceEvent
read_object_name c req info = require (c.core_read req target_oid_name_len) info λ name_len.
    let len =
      if ltb (ceph_oid_inline_len - 1) name_len then ceph_oid_inline_len - 1 else name_len in
    record info {
      object_name_len = len;
      object_name =
          overlay_str (c.core_read_str (c.member_addr req target_oid_inline_name) (len + 1))
            info.object_name;
    }

-- `spgid` is read as a whole.
unfoldable pub read_pg : KHit → ℕ → KernelTraceEvent → KernelTraceEvent
read_pg c req info = require (c.core_read req spgid_pool) info λ pool.
    require (c.core_read req spgid_seed) info λ seed. record info { pool_id = pool; pg_id = seed }

unfoldable pub read_direction : Btf → KHit → ℕ → KernelTraceEvent → KernelTraceEvent
read_direction b c req info = require (c.core_read req target_flags) info λ flags.
    let is_write = not (bit_and flags b.ceph_osd_flag_write == 0) in
    record info { is_write = is_write; is_read = not is_write }

-- The class name or the method name of a call: a pointer and a length, the array of `size` bytes.
unfoldable pub read_cls_string : KHit → ℕ → Member → Member → ℕ → List ℕ → List ℕ
read_cls_string c req text_member len_member size array =
    require (c.core_read req text_member) (set array 0 0) λ text.
      require (c.core_read req len_member) (set array 0 0) λ len.
        if not (text == 0) && ltb 0 len
        then overlay_str (c.core_read_str text ((if leb size len then size - 1 else len) + 1)) array
        else set array 0 0

abbrev pub kfs_call : KHit → ℕ → ℕ → ClsOp → ClsOp
kfs_call c req i old = record {
  cls_name = read_cls_string c req (cls_class_name i) (cls_class_len i) 8 old.cls_name;
  method_name = read_cls_string c req (cls_method_name i) (cls_method_len i) 32 old.method_name;
}

-- One round of the loop over `r_ops`.
unfoldable pub read_op : Btf → KHit → ℕ → ℕ → KernelTraceEvent → KernelTraceEvent
read_op b c req i info = require (c.core_read req (op_code i)) info λ op_type.
    let v : KernelTraceEvent = record info { ops = set info.ops i op_type } in
    if is_extent_op b op_type && v.offset == 0 && v.length == 0
    then record v {
      offset = or_zero (c.core_read req (extent_offset i));
      length = or_zero (c.core_read req (extent_length i));
    }
    else if is_call_op b op_type
    then record v {
      cls_ops = set v.cls_ops i (kfs_call c req i (get_or v.cls_ops i kfs_zero_cls_op));
    }
    else v

-- `rounds` are the rounds left of the bounded loop, i the index.
unfoldable pub read_ops_loop : Btf → KHit → ℕ → ℕ → ℕ → KernelTraceEvent → KernelTraceEvent
read_ops_loop b c req zero i info = info
read_ops_loop b c req (suc rounds) i info =
    let rest = read_ops_loop b c req rounds (i + 1) (read_op b c req i info) in
    if ltb i info.ops_size then rest else info

unfoldable pub read_ops : Btf → KHit → ℕ → KernelTraceEvent → KernelTraceEvent
read_ops b c req info = require (c.core_read req r_num_ops) info λ num.
    if num == 0
    then info
    else read_ops_loop b c req ceph_osd_max_ops 0 (record info {
      ops_size = if ltb ceph_osd_max_ops num then ceph_osd_max_ops else num;
      offset = 0;
      length = 0;
    })

-- The fields that a new request gets first.
unfoldable pub new_request : KHit → RequestKey → ℕ → KernelTraceEvent → KernelTraceEvent
new_request c key primary_osd info = record info {
  tid = key.tid;
  client_id = key.client_id;
  start_time = c.now;
  primary_osd = primary_osd;
  pid = current_pid c;
  comm = c.current_comm;
  attempts = 1;
}

unfoldable pub fill_request : Btf → KHit → ℕ → RequestKey → ℕ → KernelTraceEvent → KernelTraceEvent
fill_request b c req key primary_osd info = read_ops b c req (
    read_direction b c req (
      read_pg c req
        (read_object_name c req (read_acting c req (new_request c key primary_osd info)))))

-- The key of a request that is sent, and of one that an OSD answers.
abbrev pub send_key : KHit → ℕ → RequestKey
send_key c tid = record {
  client_id = require (c.core_read c.parm1 r_osdc) 0 (client_of_osdc c);
  tid = tid;
}

abbrev pub dispatch_key : KHit → ℕ → RequestKey
dispatch_key c tid = record {
  client_id =
      require (c.core_read c.parm1 con_private) 0
        λ osd. require (c.core_read osd o_osdc) 0 (client_of_osdc c);
  tid = tid;
}

-- One more attempt, as a `__u32`.
abbrev pub retried : KernelTraceEvent → KernelTraceEvent
retried info = record info { attempts = (info.attempts + 1) % u32_mod }

-- The event of a request that is answered at the time t.
unfoldable pub completed : ℕ → KernelTraceEvent → KernelTraceEvent
completed t info = record info { end_time = t; latency_us = sub64 t info.start_time / 1000 }

module _ (k : HashMap RequestKey KernelTraceEvent) where
  abbrev pub initialize_kernel_trace_event : RequestKey → OsdSide k → OsdSide k
  initialize_kernel_trace_event key s = record s {
    pending_requests = k.base.update s.pending_requests key zero_event;
  }

  abbrev pub write_request : OsdSide k → RequestKey → KernelTraceEvent → OsdSide k
  write_request s key v = record s { pending_requests = k.base.write s.pending_requests key v }

  -- From the check for a retry on.
  unfoldable pub track_request : Btf → KHit → RequestKey → ℕ → OsdSide k → OsdSide k
  track_request b c key primary_osd s =
      let s1 = initialize_kernel_trace_event key s in
      let fresh =
        require (k.base.lookup s1.pending_requests key) s1
          λ info. write_request s1 key (fill_request b c c.parm1 key primary_osd info) in
      require (k.base.lookup s.pending_requests key) fresh
        λ existing. write_request s key (retried existing)

  unfoldable pub trace_send_request : Btf → KHit → OsdSide k → OsdSide k
  trace_send_request b c s = require (c.core_read c.parm1 r_tid) s λ tid.
      require (c.core_read c.parm1 r_osd) s λ osd.
        require (c.core_read osd o_osd) s
          λ primary_osd. track_request b c (send_key c tid) primary_osd s

  unfoldable pub trace_osd_dispatch : KHit → OsdSide k → OsdSide k
  trace_osd_dispatch c s = require (c.core_read c.parm2 hdr_tid) s λ tid.
      let key = dispatch_key c tid in
      require (k.base.lookup s.pending_requests key) s λ info. record {
        pending_requests = k.base.delete s.pending_requests key;
        rb = if c.has_room then completed c.now info ∷ s.rb else s.rb;
      }
