-- ===== src/Kfs/Show.antt =====
-- src/kfstrace.cc: `handle_event` with `format_ops`, and `handle_mds_event`. A row is its columns;
-- the time of day and the padding of the columns are left out. `sizeof` the record and `%.1f` of
-- the milliseconds are parameters.
pub mod Acting
use cephtrace.Base.{
  ℕ, zero, suc, ◌+◌, ◌-◌, ◌%◌, Bool, true, false, not, ◌&&◌, ◌||◌, List, [], ◌∷◌, ◌++◌, Option,
  none, some, ltb, leb, ◌==◌, if◌then◌else◌, get_or, length, take, is_empty, codes,
}
use cephtrace.Bpf.Types.{ClsOp, ceph_osd_op_call}
use cephtrace.Bpf.OpNames.{ceph_osd_op_str}
use cephtrace.Bpf.Queue.{require}
use cephtrace.Report.Op.{c_string}
use cephtrace.Rados.Types.{ceph_osd_op_extent}
use cephtrace.Select.OsdId.Spelled.{decimal}
use cephtrace.Kfs.Types.{
  KernelTraceEvent, MdsTraceEvent, kfs_zero_cls_op, ceph_pg_max_size, ceph_oid_inline_len,
  ceph_osd_max_ops,
}

-- `op_name` in `format_ops`; ceph_osd_op_str of kfstrace.cc is the one of radostrace.
unfoldable pub op_text : ℕ → List ℕ
op_text opcode = require (ceph_osd_op_str opcode) (codes "op_" ++ decimal 5 opcode) (λ name. name)

-- `(offset,length)` behind an op with an extent.
abbrev pub extent_text : KernelTraceEvent → ℕ → List ℕ
extent_text e opcode =
    if ceph_osd_op_extent opcode && ltb 0 e.length
    then codes "(" ++ decimal 20 e.offset ++ codes "," ++ decimal 20 e.length ++ codes ")"
    else []

-- The op at index i.
unfoldable pub kfs_op_text : KernelTraceEvent → ℕ → List ℕ
kfs_op_text e i =
    let opcode = get_or e.ops i 0 in
    let cls = get_or e.cls_ops i kfs_zero_cls_op in
    let cls_name = c_string cls.cls_name in
    let method_name = c_string cls.method_name in
    if ceph_osd_op_call opcode && not (is_empty cls_name) && not (is_empty method_name)
    then codes "call(" ++ cls_name ++ codes "." ++ method_name ++ codes ")"
    else op_text opcode ++ extent_text e opcode

-- The loop of `format_ops`: `rounds` are left, i is the index.
unfoldable pub format_ops_from : KernelTraceEvent → ℕ → ℕ → List ℕ
format_ops_from e zero i = []
format_ops_from e (suc rounds) i =
    let rest = format_ops_from e rounds (i + 1) in
    let separator = if i == 0 then [] else codes " ," in
    if ltb i e.ops_size then separator ++ kfs_op_text e i ++ rest else []

unfoldable pub format_ops : KernelTraceEvent → List ℕ
format_ops e = codes "[" ++ format_ops_from e ceph_osd_max_ops 0 ++ codes "]"

-- `char acting_set[256]` with `pos`: the bytes before the final NUL.
pub record Buffer : Type 0 where
  pub bytes : List ℕ
  pub pos : ℕ

abbrev pub buffer_size : ℕ
buffer_size = 256

-- `pos += snprintf(buf + pos, sizeof(buf) - pos, text)`: it cuts the text where the buffer ends, but
-- returns its length. `none` if pos is behind the end, where the size wraps around.
unfoldable pub put_text : List ℕ → Buffer → Option Buffer
put_text text b =
    if ltb buffer_size b.pos
    then none
    else some (record {
      bytes = take b.pos b.bytes ++ take (buffer_size - b.pos - 1) text;
      pos = b.pos + length text;
    })

-- `none` is a write behind the end of the buffer.
abbrev pub put_osd : KernelTraceEvent → ℕ → Buffer → Option Buffer
put_osd e i b =
    require (if ltb 0 i then put_text (codes ",") b else some b) none
      (put_text (decimal 10 (get_or e.acting_osds i 0)))

unfoldable pub acting_rounds : KernelTraceEvent → ℕ → ℕ → Buffer → Option Buffer
acting_rounds e zero i b = some b
acting_rounds e (suc rounds) i b =
    if ltb i e.acting_size
    then require (put_osd e i b) none
        (λ c. if leb buffer_size c.pos then some c else acting_rounds e rounds (i + 1) c)
    else some b

abbrev pub no_text : Buffer
no_text = record { bytes = []; pos = 0 }

unfoldable pub acting_buffer : KernelTraceEvent → Option Buffer
acting_buffer e =
    if ltb 0 e.acting_size
    then require (put_text (codes "[") no_text) none
        (λ b. require (acting_rounds e ceph_pg_max_size 0 b) none (put_text (codes "]")))
    else put_text (codes "[" ++ decimal 10 e.primary_osd ++ codes "]") no_text

-- The name in the record, if it is not empty and shorter than the field.
unfoldable pub shown_object : KernelTraceEvent → List ℕ
shown_object e =
    if ltb 0 e.object_name_len && ltb e.object_name_len ceph_oid_inline_len
    then c_string (take e.object_name_len e.object_name)
    else codes "<unknown>"

abbrev pub direction : Bool → Bool → List ℕ
direction true true = codes "RMW"
direction true false = codes "READ"
direction false true = codes "WRITE"
direction false false = codes "OTHER"

pub record KfsRow : Type 0 where
  pub pid : ℕ
  pub comm : List ℕ
  pub client_id : ℕ
  pub tid : ℕ
  pub pool_id : ℕ
  pub pg_id : ℕ
  pub op : List ℕ
  pub acting_set : List ℕ
  pub object : List ℕ
  pub attempts : ℕ
  pub ops : List ℕ
  pub latency_us : ℕ

-- `handle_event` on a record of `data_sz` bytes: the row, if one is printed.
unfoldable pub handle_kfs_event : ℕ → ℕ → ℕ → KernelTraceEvent → Option KfsRow
handle_kfs_event sizeof threshold data_sz e =
    if ltb data_sz sizeof || ltb e.latency_us threshold
    then none
    else require (acting_buffer e) none λ b. some (record {
      pid = e.pid;
      comm = c_string e.comm;
      client_id = e.client_id;
      tid = e.tid;
      pool_id = e.pool_id;
      pg_id = e.pg_id;
      op = direction e.is_read e.is_write;
      acting_set = b.bytes;
      object = shown_object e;
      attempts = e.attempts;
      ops = format_ops e;
      latency_us = e.latency_us;
    })

-- The microseconds, or the milliseconds from 1000 on, in a buffer of 16 bytes. The unit is UTF-8.
unfoldable pub shown_latency : (ℕ → List ℕ) → ℕ → List ℕ
shown_latency milliseconds us =
    if leb 1000 us
    then take 15 (milliseconds us ++ codes "ms")
    else take 15 (decimal 20 us ++ 0xce ∷ 0xbc ∷ codes "s")

abbrev pub has_unsafe : MdsTraceEvent → Bool
has_unsafe e = e.got_unsafe_reply && ltb 0 e.unsafe_latency_us

-- The latency that is held against the threshold.
abbrev pub waited_us : MdsTraceEvent → ℕ
waited_us e = if has_unsafe e then e.unsafe_latency_us else e.safe_latency_us

unfoldable pub display_path : List ℕ → List ℕ
display_path path = if ltb 60 (length path) then take 57 path ++ codes "..." else path

pub record MdsRow : Type 0 where
  pub pid : ℕ
  pub comm : List ℕ
  pub client_id : ℕ
  pub tid : ℕ
  pub mds_rank : ℕ
  pub op_name : List ℕ
  pub path : List ℕ
  pub attempts : ℕ
  pub unsafe_lat : List ℕ
  pub safe_lat : List ℕ
  pub result : List ℕ

-- `handle_mds_event`.
unfoldable pub handle_mds_event : (ℕ → List ℕ) → ℕ → ℕ → ℕ → MdsTraceEvent → Option MdsRow
handle_mds_event milliseconds sizeof threshold data_sz e =
    if ltb data_sz sizeof || ltb (waited_us e) threshold
    then none
    else some (record {
      pid = e.pid;
      comm = c_string e.comm;
      client_id = e.client_id;
      tid = e.tid;
      mds_rank = e.mds_rank;
      op_name = c_string e.op_name;
      path = display_path (c_string e.path);
      attempts = e.attempts;
      unsafe_lat =
          if has_unsafe e then shown_latency milliseconds e.unsafe_latency_us else codes "-";
      safe_lat = shown_latency milliseconds e.safe_latency_us;
      result = if e.result == 0 then codes "OK" else codes "ERR";
    })
