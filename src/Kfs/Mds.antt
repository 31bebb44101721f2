-- ===== src/Kfs/Mds.antt =====
-- src/kfstrace.bpf.c: the kprobes on `__prepare_send_request` and `mds_dispatch`.
pub mod Target
pub mod Lifecycle
use cephtrace.Base.{
  ℕ, ◌+◌, ◌-◌, ◌/◌, ◌%◌, Bool, List, ◌∷◌, Option, none, some, leb, not, ◌==◌, if◌then◌else◌, get_or,
  set, sub64, u32_mod, length,
}
use cephtrace.Bpf.Queue.{require, or_zero, overlay}
use cephtrace.Kfs.Types.{
  RequestKey, MdsTraceEvent, zero_mds_event, r_tid, msgr_inst_name_num, con_private, hdr_tid,
  hdr_type, r_op, s_mdsc, mdsc_fsc, fsc_client, s_mds, r_dentry, d_name_name, d_name_len,
  front_iov_base, head_safe, head_result, KHit, HashMap, MdsSide, current_pid, nonnull,
  ceph_mds_path_max,
}
use cephtrace.Kfs.Name.{get_mds_op_name, is_mds_write_op}

-- The entity number behind the fs client of an `mdsc`.
abbrev pub client_of_mdsc : KHit → ℕ → ℕ
client_of_mdsc c mdsc = require (nonnull (c.core_read mdsc mdsc_fsc)) 0 λ fsc.
    require (c.core_read fsc fsc_client) 0 λ client. or_zero (c.core_read client msgr_inst_name_num)

-- Only the sending probe checks `mdsc` for null.
abbrev pub prepare_key : KHit → ℕ → RequestKey
prepare_key c tid = record {
  client_id = require (nonnull (c.core_read c.parm1 s_mdsc)) 0 (client_of_mdsc c);
  tid = tid;
}

abbrev pub reply_key : KHit → ℕ → ℕ → RequestKey
reply_key c session tid = record {
  client_id = require (c.core_read session s_mdsc) 0 (client_of_mdsc c);
  tid = tid;
}

-- A string that was copied, or an empty one if nothing was.
abbrev pub overlay_path : Option (List ℕ) → List ℕ → List ℕ
overlay_path none path = set path 0 0
overlay_path (some bytes) path = if leb (length bytes) 0 then set path 0 0 else overlay bytes path

-- The name of the dentry, if there is one.
unfoldable pub dentry_path : KHit → ℕ → List ℕ → List ℕ
dentry_path c req path = require (nonnull (c.core_read req r_dentry)) path λ dentry.
    require (nonnull (c.core_read dentry d_name_name)) path λ filename.
      require (nonnull (c.core_read dentry d_name_len)) path λ len.
        let room = (if leb ceph_mds_path_max len then ceph_mds_path_max - 1 else len) + 1 in
        overlay_path (c.core_read_str filename room) path

unfoldable pub request_path : KHit → ℕ → List ℕ → List ℕ
request_path c req path0 =
    let path = dentry_path c req (set path0 0 0) in
    if get_or path 0 0 == 0 then set (set path 0 b'?') 1 0 else path

unfoldable pub fill_mds_request : KHit → ℕ → RequestKey → ℕ → ℕ → MdsTraceEvent → MdsTraceEvent
fill_mds_request c req key op mds_rank e = record e {
  tid = key.tid;
  client_id = key.client_id;
  submit_time = c.now;
  unsafe_reply_time = 0;
  safe_reply_time = 0;
  unsafe_latency_us = 0;
  safe_latency_us = 0;
  op = op;
  pid = current_pid c;
  comm = c.current_comm;
  mds_rank = mds_rank;
  result = 0;
  attempts = 1;
  got_unsafe_reply = Bool.false;
  got_safe_reply = Bool.false;
  is_write_op = is_mds_write_op op;
  op_name = get_mds_op_name op;
  path = request_path c req e.path;
}

abbrev pub mds_retried : MdsTraceEvent → MdsTraceEvent
mds_retried e = record e { attempts = (e.attempts + 1) % u32_mod }

-- What a reply at the time t makes of the entry.
unfoldable pub safe_reply : ℕ → ℕ → MdsTraceEvent → MdsTraceEvent
safe_reply t result e = record e {
  result = result;
  got_safe_reply = Bool.true;
  safe_reply_time = t;
  safe_latency_us = sub64 t e.submit_time / 1000;
}

unfoldable pub unsafe_reply : ℕ → ℕ → MdsTraceEvent → MdsTraceEvent
unsafe_reply t result e = record e {
  result = result;
  got_unsafe_reply = Bool.true;
  unsafe_reply_time = t;
  unsafe_latency_us = sub64 t e.submit_time / 1000;
}

module _ (k : HashMap RequestKey MdsTraceEvent) where
  abbrev pub initialize_mds_trace_event : RequestKey → MdsSide k → MdsSide k
  initialize_mds_trace_event key s = record s {
    pending_mds_requests = k.base.update s.pending_mds_requests key zero_mds_event;
  }

  abbrev pub write_mds_request : MdsSide k → RequestKey → MdsTraceEvent → MdsSide k
  write_mds_request s key v = record s {
    pending_mds_requests = k.base.write s.pending_mds_requests key v;
  }

  -- From the check for a retry on.
  unfoldable pub track_mds_request : KHit → RequestKey → ℕ → ℕ → MdsSide k → MdsSide k
  track_mds_request c key op mds_rank s =
      let s1 = initialize_mds_trace_event key s in
      let fresh =
        require (k.base.lookup s1.pending_mds_requests key) s1
          λ e. write_mds_request s1 key (fill_mds_request c c.parm2 key op mds_rank e) in
      require (k.base.lookup s.pending_mds_requests key) fresh
        λ existing. write_mds_request s key (mds_retried existing)

  -- The rank of a request without a session is 0.
  unfoldable pub trace_prepare_send_request : KHit → MdsSide k → MdsSide k
  trace_prepare_send_request c s =
      let mds_rank = if c.parm1 == 0 then 0 else or_zero (c.core_read c.parm1 s_mds) in
      if c.parm2 == 0
      then s
      else require (c.core_read c.parm2 r_tid) s λ tid.
        require (c.core_read c.parm2 r_op) s
          λ op. track_mds_request c (prepare_key c tid) op mds_rank s

  -- The unsafe reply to a tracked request is noted; the safe one emits the event and ends the
  -- tracking.
  unfoldable pub acknowledge : KHit → RequestKey → MdsTraceEvent → MdsSide k → MdsSide k
  acknowledge c key e s =
      let s1 = write_mds_request s key e in
      record s1 { pending_mds_requests = k.update_exist s1.pending_mds_requests key e }

  unfoldable pub finish_request : KHit → RequestKey → MdsTraceEvent → MdsSide k → MdsSide k
  finish_request c key e s =
      let s1 = write_mds_request s key e in
      record {
        pending_mds_requests = k.base.delete s1.pending_mds_requests key;
        mds_rb = if c.has_room then e ∷ s.mds_rb else s.mds_rb;
      }

  abbrev pub handle_reply : KHit → RequestKey → MdsTraceEvent → ℕ → ℕ → MdsSide k → MdsSide k
  handle_reply c key e safe_flag result s =
      if safe_flag == 0
      then acknowledge c key (unsafe_reply c.now result e) s
      else finish_request c key (safe_reply c.now result e) s

  unfoldable pub trace_mds_dispatch : KHit → MdsSide k → MdsSide k
  trace_mds_dispatch c s = require (c.core_read c.parm2 hdr_type) s λ msg_type.
      if not (msg_type == 26)
      then s
      else require (c.core_read c.parm2 hdr_tid) s λ tid.
        require (nonnull (c.core_read c.parm1 con_private)) s λ session.
          let key = reply_key c session tid in
          require (k.base.lookup s.pending_mds_requests key) s λ e.
            require (c.core_read c.parm2 front_iov_base) s λ head.
              require (c.core_read head head_safe) s λ safe_flag.
                require (c.core_read head head_result) s
                  λ result. handle_reply c key e safe_flag result s
