-- ===== src/Bpf/Store.antt =====
-- src/osdtrace.bpf.c: the probes on a transaction's way through BlueStore. An op is followed by the
-- thread that handles it (`ptid_opk`), then by its TransContext (`ctx_opk`).
use cephtrace.Base.{
  ℕ, zero, suc, ◌+◌, ◌*◌, ◌%◌, not, ◌&&◌, ◌||◌, Option, none, some, leb, ◌==◌, if◌then◌else◌, set,
  add64, u32_mod,
}
use cephtrace.Bpf.Types.{OpKey, CtxKey, OpValue, msg_osd_repop, max_detail_ops}
use cephtrace.Bpf.Tracer.{Hit, Config, Kernel, Tracer, get_pid}
use cephtrace.Bpf.Fetch.{read_hprobe_varfield, var_addr}
use cephtrace.Bpf.Queue.{require, or_zero, read_uint, find_op, write_op, unbind, bind}

-- `state` of a TransContext.
unfoldable pub stamp_state : Hit → ℕ → OpValue → OpValue
stamp_state c aio_num v = record v {
  aio_submit_stamp = c.now;
  aio_size = aio_num;
  aio_done_stamp = if aio_num == 0 then c.now else v.aio_done_stamp;
}

-- One round of the loop of `uprobe_txc_add_transaction`.
unfoldable pub txn_loop : Hit → ℕ → ℕ → ℕ → ℕ → OpValue → OpValue
txn_loop c op_buffer txn_ops zero i v = v
txn_loop c op_buffer txn_ops (suc rounds) i v =
    let opcode = read_uint c (add64 op_buffer (i * 72)) 4 in
    let rest = txn_loop c op_buffer txn_ops rounds (i + 1) (record v {
      detail_ops = set v.detail_ops (v.detail_ops_captured % max_detail_ops) opcode;
      detail_ops_captured = v.detail_ops_captured + 1;
    }) in
    if leb txn_ops i || leb max_detail_ops v.detail_ops_captured then v else rest

-- From the buffer list's carriage to its first byte; `none` at a null pointer.
unfoldable pub txn_buffer : Hit → ℕ → Option ℕ
txn_buffer c carriage =
    let raw = read_uint c (add64 carriage 8) 8 in
    let buffer_offset = read_uint c (add64 carriage 16) 4 in
    let raw_data = read_uint c (add64 raw 32) 8 in
    if carriage == 0
    then none
    else if raw == 0
    then none
    else if raw_data == 0
    then none
    else some (add64 raw_data buffer_offset)

unfoldable pub capture_txn : Config → Hit → ℕ → OpValue → OpValue
capture_txn g c txn_ops v = require (read_hprobe_varfield g c 201 8) v λ carriage.
    require (txn_buffer c carriage) v λ op_buffer. txn_loop c op_buffer txn_ops max_detail_ops 0 v

unfoldable pub add_transaction : Config → Hit → OpValue → OpValue
unfolding capture_txn
add_transaction g c v = require (read_hprobe_varfield g c 200 8) v λ txn_ops.
    if txn_ops == 0
    then v
    else let v1 = record v { detail_ops_total = (v.detail_ops_total + txn_ops) % u32_mod } in
      require (read_hprobe_varfield g c 202 4) v1 λ num_buffers.
        if not (num_buffers == 1)
        then record v1 { detail_ops_captured = 0; detail_ops_unavailable = 1 }
        else if not (v1.detail_ops_unavailable == 0)
        then v1
        else capture_txn g c txn_ops v1

-- `STATE_PREPARE`, `STATE_AIO_WAIT`, `STATE_IO_DONE` and `STATE_KV_SUBMITTED`.
unfoldable pub state_stamps : Hit → ℕ → ℕ → OpValue → OpValue
unfolding stamp_state
state_stamps c aio_num state v =
    if state == 0
    then stamp_state c aio_num v
    else if state == 1
    then record v { aio_done_stamp = c.now }
    else if state == 2
    then record v { kv_submit_stamp = c.now }
    else if state == 4
    then record v { kv_committed_stamp = c.now }
    else v

module _ (k : Kernel) where
  unfoldable pub uprobe_submit_transaction : Config → Hit → Tracer k → Tracer k
  uprobe_submit_transaction g c s = require (read_hprobe_varfield g c 31 8) (unbind k c s) λ tid.
      let owner = or_zero (read_hprobe_varfield g c 30 8) in
      let key : OpKey = record { pid = get_pid c; owner = owner; tid = tid } in
      require (find_op k s key) (unbind k c s)
        λ v. bind k c key (write_op k s key (record v { submit_transaction_stamp = c.now }))

  abbrev pub bound_key : Hit → Tracer k → Option OpKey
  bound_key c s = k.ptid_opk.lookup s.ptid_opk c.pid_tgid

  unfoldable pub uprobe_queue_transactions : Hit → Tracer k → Tracer k
  uprobe_queue_transactions c s = require (bound_key c s) s λ key.
      require (find_op k s key) (unbind k c s) λ v.
        if v.queue_transaction_stamp == 0 && v.aio_submit_stamp == 0 && v.kv_committed_stamp == 0
        then write_op k s key (record v { queue_transaction_stamp = c.now })
        else unbind k c s

  unfoldable pub uprobe_do_write : Hit → Tracer k → Tracer k
  uprobe_do_write c s = require (bound_key c s) s λ key. require (find_op k s key) s λ v.
      if v.do_write_stamp == 0 then write_op k s key (record v { do_write_stamp = c.now }) else s

  -- The TransContext that the variables from `varid` on identify.
  abbrev pub ctx_key : Hit → ℕ → ℕ → CtxKey
  ctx_key c seqid start = record { pid = get_pid c; seqid = seqid; start_stamp = start }

  abbrev pub bind_ctx : Config → Hit → ℕ → OpKey → Tracer k → Tracer k
  bind_ctx g c varid key s = require (read_hprobe_varfield g c varid 4) s λ seqid.
      require (read_hprobe_varfield g c (varid + 1) 8) s
        λ start. record s { ctx_opk = k.ctx_opk.update s.ctx_opk (ctx_key c seqid start) key }

  unfoldable pub uprobe_wctx_finish : Config → Hit → Tracer k → Tracer k
  uprobe_wctx_finish g c s0 = require (bound_key c s0) s0 λ key.
      let s = unbind k c s0 in
      require (find_op k s key) s λ v.
        if not (v.aio_submit_stamp == 0) || not (v.kv_committed_stamp == 0)
        then s
        else bind_ctx g c 60 key (write_op k s key (record v { wctx_finish_stamp = c.now }))

  unfoldable pub uprobe_txc_calc_cost : Config → Hit → Tracer k → Tracer k
  uprobe_txc_calc_cost g c s0 = require (bound_key c s0) s0 λ key.
      let s = unbind k c s0 in
      require (find_op k s key) s λ v.
        if not (v.aio_submit_stamp == 0) || not (v.kv_committed_stamp == 0)
        then s
        else bind_ctx g c 160 key s

  unfoldable pub uprobe_txc_state_proc : Config → Hit → Tracer k → Tracer k
  unfolding state_stamps
  uprobe_txc_state_proc g c s = require (read_hprobe_varfield g c 70 4) s λ seqid.
      require (read_hprobe_varfield g c 71 8) s λ start.
        let ck = ctx_key c seqid start in
        require (k.ctx_opk.lookup s.ctx_opk ck) s λ key.
          require (read_hprobe_varfield g c 72 4) s λ state. require (find_op k s key) s λ v.
            require (g.hprobes 73) s λ vf.
              let s1 = write_op k s key (state_stamps c (read_uint c (var_addr c vf) 4) state v) in
              if state == 4 then record s1 { ctx_opk = k.ctx_opk.delete s1.ctx_opk ck } else s1

  unfoldable pub uprobe_txc_add_transaction : Config → Hit → Tracer k → Tracer k
  unfolding add_transaction
  uprobe_txc_add_transaction g c s = require (bound_key c s) s λ key.
      require (find_op k s key) s λ v.
        if not (v.op_type == msg_osd_repop) then s else write_op k s key (add_transaction g c v)
