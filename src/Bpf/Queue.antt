-- ===== src/Bpf/Queue.antt =====
-- src/osdtrace.bpf.c: the probes on an op's way into the OSD, `uprobe_enqueue_op`,
-- `uprobe_dequeue_op` and `uprobe_execute_ctx`, with `capture_decoded_osd_ops`.
pub mod Track
use cephtrace.Base.{
  ℕ, zero, suc, ◌+◌, ◌-◌, ◌*◌, ◌/◌, ◌%◌, Bool, not, ◌&&◌, ◌||◌, List, ◌++◌, Option, none, some, ltb,
  leb, ◌==◌, if◌then◌else◌, length, drop, set, add64, sub64, minus_one, u32_mod, little_endian,
  bit_and,
}
use cephtrace.Bpf.Types.{
  OpKey, OpValue, ClsOp, zero_op_v, zero_cls_op, msg_osd_op, msg_osd_repop, max_detail_ops,
  object_name_len, ceph_osd_op_call,
}
use cephtrace.Bpf.Tracer.{Hit, Config, Kernel, Tracer, get_pid}
use cephtrace.Bpf.Fetch.{read_hprobe_varfield, read_hprobe_utime}

-- A read whose failure ends the probe in the state s.
abbrev pub require {ℓ} : {A : Type 0} {S : Type ℓ} → Option A → S → (A → S) → S
require none s f = s
require (some a) s f = f a

-- A read whose return value the probe ignores: the destination keeps its 0.
abbrev pub or_zero : Option ℕ → ℕ
or_zero none = 0
or_zero (some a) = a

-- A variable of u bytes, read into a destination of that type.
abbrev pub read_uint : Hit → ℕ → ℕ → ℕ
read_uint c addr size = little_endian (c.read_user addr size)

-- Copy into the front of an array.
abbrev pub overlay : List ℕ → List ℕ → List ℕ
overlay bytes array = bytes ++ drop (length bytes) array

unfoldable pub is_osd_msg : ℕ → Bool
is_osd_msg op_type = op_type == msg_osd_op || op_type == msg_osd_repop

-- The fields that `uprobe_enqueue_op` fills in before it reads the time stamps.
unfoldable pub fresh_entry : OpKey → ℕ → ℕ → OpValue → OpValue
fresh_entry key op_type stamp value = record value {
  enqueue_stamp = stamp;
  pid = key.pid;
  tid = key.tid;
  owner = key.owner;
  op_type = op_type;
  pi = record (value.pi) { peer1 = minus_one; peer2 = minus_one };
}

-- The stamps of the messenger; `none` when one of their ids is not stored.
unfoldable pub read_stamps : Config → Hit → OpValue → Option OpValue
read_stamps g c v = require (read_hprobe_utime g c 3) none λ recv.
    require (read_hprobe_utime g c 4) none λ throttle.
      require (read_hprobe_utime g c 5) none λ complete.
        require (read_hprobe_utime g c 6) none λ dispatch. some (record v {
          recv_stamp = recv;
          throttle_stamp = throttle;
          recv_complete_stamp = complete;
          dispatch_stamp = dispatch;
        })

-- An entry younger than five seconds marks the op as a retry of one in flight.
unfoldable pub is_retry : ℕ → Option OpValue → Bool
is_retry now none = Bool.false
is_retry now (some existing) = ltb (sub64 now existing.enqueue_stamp) 5000000000

-- One round of the loop of `capture_decoded_osd_ops`.
unfoldable pub capture_call : Config → Hit → ℕ → ClsOp
capture_call g c op_addr =
    let cls_len = read_uint c (add64 op_addr g.ceph_osd_op_cls_class_offset) 1 in
    let method_len = read_uint c (add64 op_addr g.ceph_osd_op_cls_method_offset) 1 in
    let node = read_uint c (sub64 (add64 op_addr g.ceph_osd_op_buffer_carriage_offset) 16) 8 in
    let raw = read_uint c (add64 node 8) 8 in
    let off = read_uint c (add64 node 16) 4 in
    let base = read_uint c (add64 raw 32) 8 in
    let str_start = add64 base off in
    record {
      cls_name = overlay (c.read_user str_start (bit_and cls_len 15)) zero_cls_op.cls_name;
      method_name =
          overlay (c.read_user (add64 str_start cls_len) (bit_and method_len 31))
            zero_cls_op.method_name;
    }

unfoldable pub capture_one : Config → Hit → ℕ → ℕ → OpValue → OpValue
unfolding capture_call
capture_one g c ops_start i v =
    let op_addr = add64 ops_start (i * g.ceph_osd_op_size % u32_mod) in
    let opcode = read_uint c op_addr 2 in
    record v {
      detail_ops = set v.detail_ops i opcode;
      cls_ops =
          if ceph_osd_op_call opcode then set v.cls_ops i (capture_call g c op_addr) else v.cls_ops;
      detail_ops_captured = (v.detail_ops_captured + 1) % u32_mod;
    }

-- `rounds` are the rounds left of the bounded loop, i the index.
unfoldable pub capture_loop : Config → Hit → ℕ → ℕ → ℕ → OpValue → OpValue
capture_loop g c ops_start zero i v = v
capture_loop g c ops_start (suc rounds) i v =
    let rest = capture_loop g c ops_start rounds (i + 1) (capture_one g c ops_start i v) in
    if leb v.detail_ops_total i then v else rest

unfoldable pub capture_decoded_osd_ops : Config → Hit → OpValue → ℕ → ℕ → OpValue
capture_decoded_osd_ops g c v ops_start ops_finish =
    if g.ceph_osd_op_size == 0 || ops_start == 0 || ltb ops_finish ops_start
    then v
    else capture_loop g c ops_start max_detail_ops 0
        (record v { detail_ops_total = (ops_finish - ops_start) / g.ceph_osd_op_size % u32_mod })

-- `ctx->ops`, sampled if both of its pointers can be read.
unfoldable pub capture_ops : Config → Hit → OpValue → OpValue
unfolding capture_decoded_osd_ops
capture_ops g c v =
    if g.ceph_osd_op_size == 0
    then v
    else require (read_hprobe_varfield g c 24 8) v λ ops_start.
      if ops_start == 0
      then v
      else require (read_hprobe_varfield g c 25 8) v
          λ ops_finish. capture_decoded_osd_ops g c v ops_start ops_finish

-- The length of a name, as a `__u32` cut to the array.
abbrev pub name_length : ℕ → ℕ
name_length n =
    let len = n % u32_mod in
    bit_and (if ltb (object_name_len - 1) len then object_name_len - 1 else len)
      (object_name_len - 1)

unfoldable pub copy_object_name : Hit → ℕ → ℕ → OpValue → OpValue
copy_object_name c name_len str_addr v = record v {
  object_name = overlay (c.read_user str_addr (name_length name_len)) v.object_name;
}

unfoldable pub capture_name : Config → Hit → OpValue → OpValue
unfolding copy_object_name
capture_name g c v = require (read_hprobe_varfield g c 22 8) v λ name_len.
    require (read_hprobe_varfield g c 23 8) v λ str_addr.
      if str_addr == 0 || name_len == 0 then v else copy_object_name c name_len str_addr v

-- `age_ns` takes the first reading of the clock, if there is an entry.
abbrev pub enqueue_time : Hit → Option OpValue → ℕ
enqueue_time c none = c.now
enqueue_time c (some existing) = c.later

-- The key of the probes that read `owner` without a check and need `tid`.
abbrev pub key_read : Config → Hit → ℕ → ℕ → OpKey
key_read g c varid tid = record {
  pid = get_pid c;
  owner = or_zero (read_hprobe_varfield g c varid 8);
  tid = tid;
}

module _ (k : Kernel) where
  abbrev pub find_op : Tracer k → OpKey → Option OpValue
  find_op s key = k.ops.lookup s.ops key

  -- Assignments through the pointer that `find_op` returned.
  abbrev pub write_op : Tracer k → OpKey → OpValue → Tracer k
  write_op s key v = record s { ops = k.ops.write s.ops key v }

  abbrev pub delete_op : Tracer k → OpKey → Tracer k
  delete_op s key = record s { ops = k.ops.delete s.ops key }

  -- From `bpf_map_update_elem` on: an insertion that the map refuses ends the probe.
  unfoldable pub track : Config → Hit → OpKey → ℕ → ℕ → Tracer k → Tracer k
  unfolding fresh_entry read_stamps
  track g c key op_type stamp s =
      let s1 = record s { ops = k.ops.update s.ops key zero_op_v } in
      require (find_op s1 key) s1 λ value.
        let v = fresh_entry key op_type stamp value in
        require (read_stamps g c v) (delete_op (write_op s1 key v) key)
          λ filled. write_op s1 key filled

  unfoldable pub uprobe_enqueue_op : Config → Hit → Tracer k → Tracer k
  unfolding is_osd_msg is_retry track
  uprobe_enqueue_op g c s =
      let op_type = or_zero (read_hprobe_varfield g c 0 2) in
      if not (is_osd_msg op_type)
      then s
      else require (read_hprobe_varfield g c 1 8) s λ owner.
        require (read_hprobe_varfield g c 2 8) s λ tid.
          let key : OpKey = record { pid = get_pid c; owner = owner; tid = tid } in
          let existing = find_op s key in
          if is_retry c.now existing then s else track g c key op_type (enqueue_time c existing) s

  abbrev pub unbind : Hit → Tracer k → Tracer k
  unbind c s = record s { ptid_opk = k.ptid_opk.delete s.ptid_opk c.pid_tgid }

  abbrev pub bind : Hit → OpKey → Tracer k → Tracer k
  bind c key s = record s { ptid_opk = k.ptid_opk.update s.ptid_opk c.pid_tgid key }

  unfoldable pub uprobe_dequeue_op : Config → Hit → Tracer k → Tracer k
  unfolding is_osd_msg
  uprobe_dequeue_op g c s0 =
      let s = unbind c s0 in
      let op_type = or_zero (read_hprobe_varfield g c 10 2) in
      if not (is_osd_msg op_type)
      then s
      else let owner = or_zero (read_hprobe_varfield g c 11 8) in
        require (read_hprobe_varfield g c 12 8) s λ tid.
          let key : OpKey = record { pid = get_pid c; owner = owner; tid = tid } in
          require (find_op s key) s λ v.
            let v1 = if v.dequeue_stamp == 0 then record v { dequeue_stamp = c.now } else v in
            require (read_hprobe_varfield g c 13 8) (write_op s key v1) λ m_pool.
              let v2 = record v1 { m_pool = m_pool } in
              require (read_hprobe_varfield g c 14 4) (write_op s key v2) λ m_seed.
                let v3 = record v2 { m_seed = m_seed } in
                let s3 = write_op s key v3 in
                if op_type == msg_osd_repop && v3.queue_transaction_stamp == 0
                then bind c key s3
                else s3

  abbrev pub with_key : Config → Hit → ℕ → Tracer k → (OpKey → Tracer k) → Tracer k
  with_key g c varid s f =
      require (read_hprobe_varfield g c (varid + 1) 8) s λ tid. f (key_read g c varid tid)

  unfoldable pub uprobe_execute_ctx : Config → Hit → Tracer k → Tracer k
  unfolding capture_ops capture_name
  uprobe_execute_ctx g c s = with_key g c 20 s λ key. require (find_op s key) s λ v.
      write_op s key (capture_name g c (capture_ops g c (record v { execute_ctx_stamp = c.now })))
