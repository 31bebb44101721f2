-- ===== src/Rados/Probes.antt =====
-- src/radostrace.bpf.c: `uprobe_send_op` and `uprobe_finish_op`.
use cephtrace.Base.{
  ℕ, zero, suc, ◌+◌, List, ◌∷◌, ltb, ◌==◌, if◌then◌else◌, get_or, set, add64, minus_one, bit_and,
}
use cephtrace.Bpf.Types.{ClsOp, zero_cls_op, ceph_osd_op_call}
use cephtrace.Bpf.Tracer.{Hit, get_pid}
use cephtrace.Bpf.Fetch.{fetch_register}
use cephtrace.Bpf.Queue.{require, read_uint, overlay}
use cephtrace.Rados.Types.{
  ClientOpKey, ClientOpValue, zero_val, ceph_osd_op_extent, ClientConfig, ClientOps, Client,
  max_acting, max_client_ops,
}

-- `this->monc->global_id`.
unfoldable pub read_cid : ClientConfig → Hit → ℕ → ℕ
read_cid g c this_reg =
    let self = fetch_register c.regs this_reg in
    let monc = if self == 0 then 0 else read_uint c (add64 self g.off_monc) 8 in
    if monc == 0 then 0 else read_uint c (add64 monc g.off_global_id) 8

abbrev pub client_key : ClientConfig → Hit → ℕ → ℕ → ClientOpKey
client_key g c op this_reg = record {
  cid = read_cid g c this_reg;
  tid = read_uint c (add64 op g.off_tid) 8;
}

-- The loop over the acting set: `rounds` are left, i is the index.
unfoldable pub acting_loop : Hit → ℕ → ℕ → ℕ → ℕ → List ℕ → List ℕ
acting_loop c finish zero i start acting = acting
acting_loop c finish (suc rounds) i start acting =
    let osd = read_uint c start 4 in
    let rest =
      acting_loop c finish rounds (i + 1) (add64 start 4) (set (set acting i minus_one) i osd) in
    if ltb start finish then rest else set acting i minus_one

-- The class and the method of a call.
unfoldable pub client_call : ClientConfig → Hit → ℕ → ClsOp → ClsOp
client_call g c op_addr old =
    let cls_len = bit_and (read_uint c (add64 op_addr g.cls_class_offset) 1) 15 in
    let method_len = bit_and (read_uint c (add64 op_addr g.cls_method_offset) 1) 31 in
    let carriage = read_uint c (add64 op_addr g.buffer_carriage_offset) 8 in
    let raw = read_uint c (add64 carriage g.buffer_raw_offset) 8 in
    let text = read_uint c (add64 raw g.buffer_data_offset) 8 in
    record {
      cls_name = overlay (c.read_user text cls_len) old.cls_name;
      method_name = overlay (c.read_user (add64 text cls_len) method_len) old.method_name;
    }

-- One round of the loop over the ops.
unfoldable pub capture_client_op : ClientConfig → Hit → ℕ → ℕ → ClientOpValue → ClientOpValue
capture_client_op g c i op_addr v =
    let opcode = read_uint c op_addr 2 in
    let w : ClientOpValue = record v { ops = set v.ops i opcode } in
    if ceph_osd_op_extent opcode
    then record w {
      offset = read_uint c (add64 op_addr g.extent_offset_offset) 8;
      length = read_uint c (add64 op_addr g.extent_length_offset) 8;
    }
    else if ceph_osd_op_call opcode
    then record w {
      cls_ops = set v.cls_ops i (client_call g c op_addr (get_or v.cls_ops i zero_cls_op));
    }
    else w

unfoldable pub client_ops_loop : ClientConfig → Hit → ℕ → ℕ → ℕ → ClientOpValue → ClientOpValue
client_ops_loop g c zero i op_addr v = v
client_ops_loop g c (suc rounds) i op_addr v =
    let rest =
      client_ops_loop g c rounds (i + 1) (add64 op_addr g.ceph_osd_op_size)
        (capture_client_op g c i op_addr v) in
    if ltb i v.ops_size then rest else v

-- The fields that `uprobe_send_op` reads before the ops.
unfoldable pub client_fields : ClientConfig → Hit → ClientOpKey → ℕ → ClientOpValue → ClientOpValue
client_fields g c key op v =
    let name_len = bit_and (read_uint c (add64 op g.off_name_len) 4) 127 in
    let name_base = read_uint c (add64 op g.off_name_ptr) 8 in
    let acting_start = read_uint c (add64 op g.off_acting_start) 8 in
    let acting_finish = read_uint c (add64 op g.off_acting_finish) 8 in
    let ops_start = read_uint c (add64 op g.off_ops_start) 8 in
    record v {
      tid = key.tid;
      cid = key.cid;
      target_osd = read_uint c (add64 op g.off_target_osd) 4;
      rw = read_uint c (add64 op g.off_flags) 2;
      m_pool = read_uint c (add64 op g.off_pool) 8;
      m_seed = read_uint c (add64 op g.off_seed) 4;
      object_name = overlay (c.read_user name_base name_len) v.object_name;
      acting = acting_loop c acting_finish max_acting 0 acting_start v.acting;
      ops_size = if ops_start == 0 then 0 else read_uint c (add64 op g.off_ops_size) 4;
      offset = 0;
      length = 0;
    }

unfoldable pub fill_client_op : ClientConfig → Hit → ClientOpKey → ℕ → ClientOpValue → ClientOpValue
fill_client_op g c key op v =
    let ops_start = read_uint c (add64 op g.off_ops_start) 8 in
    record (client_ops_loop g c max_client_ops 0 ops_start (client_fields g c key op v)) {
      sent_stamp = c.now;
      pid = get_pid c;
    }

module _ (k : ClientOps) where
  abbrev pub initialize_value : ClientOpKey → Client k → Client k
  initialize_value key s = record s { ops = k.update s.ops key zero_val }

  unfoldable pub uprobe_send_op : ClientConfig → Hit → Client k → Client k
  uprobe_send_op g c s =
      let op = fetch_register c.regs g.send_op_reg in
      if op == 0
      then s
      else let key = client_key g c op g.send_this_reg in
        let s1 = initialize_value key s in
        require (k.lookup s1.ops key) s1
          λ val. record s1 { ops = k.write s1.ops key (fill_client_op g c key op val) }

  unfoldable pub uprobe_finish_op : ClientConfig → Hit → Client k → Client k
  uprobe_finish_op g c s =
      let op = fetch_register c.regs g.fin_op_reg in
      if op == 0
      then s
      else let key = client_key g c op g.fin_this_reg in
        require (k.lookup s.ops key) s λ opv.
          let e : ClientOpValue = record opv { finish_stamp = c.now } in
          record {
            ops = k.delete (k.write s.ops key e) key;
            rb = if c.has_room then e ∷ s.rb else s.rb;
          }
