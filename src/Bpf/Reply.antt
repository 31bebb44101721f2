-- ===== src/Bpf/Reply.antt =====
-- src/osdtrace.bpf.c: the probes that complete an op and emit its event, and those that emit a
-- BlueStore latency.
use cephtrace.Base.{ℕ, ◌-◌, ◌&&◌, ltb, ◌==◌, if◌then◌else◌, replicate}
use cephtrace.Bpf.Types.{OpKey, OpValue, zero_op_v, bs_lat_name_len}
use cephtrace.Bpf.Tracer.{Hit, Config, Kernel, Tracer, op_event, bluestore_event, get_pid, submit}
use cephtrace.Bpf.Fetch.{read_hprobe_varfield, read_hprobe_utime}
use cephtrace.Bpf.Queue.{
  require, or_zero, overlay, copy_object_name, find_op, write_op, delete_op, with_key,
}

-- MOSDRepOp's object name, if both of its parts can be read and neither is 0.
unfoldable pub repop_name : Config → Hit → OpValue → OpValue
unfolding copy_object_name
repop_name g c v = require (read_hprobe_varfield g c 173 8) v λ name_len.
    if name_len == 0
    then v
    else require (read_hprobe_varfield g c 174 8) v
        λ str_addr. if str_addr == 0 then v else copy_object_name c name_len str_addr v

-- The latency that `uprobe_log_op_stats_v2` compares with the threshold.
unfoldable pub kernel_latency : ℕ → ℕ → ℕ → ℕ
kernel_latency bootstamp reply recv =
    if ltb bootstamp recv && ltb (recv - bootstamp) reply then reply - (recv - bootstamp) else 0

module _ (k : Kernel) where
  -- `vp` is emitted and its entry deleted.
  abbrev pub complete : Hit → OpKey → OpValue → Tracer k → Tracer k
  complete c key v s = delete_op k (submit c (op_event v) (write_op k s key v)) key

  unfoldable pub uprobe_log_op_stats : Config → Hit → Tracer k → Tracer k
  uprobe_log_op_stats g c s = with_key k g c 90 s λ key.
      require (find_op k s key) (delete_op k s key)
        λ v. complete c key (record v { reply_stamp = c.now; wb = c.parm3; rb = c.parm4 }) s

  unfoldable pub uprobe_log_op_stats_v2 : Config → Hit → Tracer k → Tracer k
  unfolding kernel_latency
  uprobe_log_op_stats_v2 g c s = require (read_hprobe_utime g c 94) s λ recv_stamp.
      if recv_stamp == 0
      then s
      else if ltb 0 g.latency_threshold_ns
          && ltb (kernel_latency g.bootstamp_ns c.now recv_stamp) g.latency_threshold_ns
      then s
      else require (read_hprobe_varfield g c 91 8) s λ tid.
        require (read_hprobe_varfield g c 95 2) s λ op_type.
          submit c
            (op_event (record zero_op_v {
              owner = or_zero (read_hprobe_varfield g c 90 8);
              tid = tid;
              pid = get_pid c;
              reply_stamp = c.now;
              wb = c.parm3;
              rb = c.parm4;
              recv_stamp = recv_stamp;
              op_type = op_type;
            }))
            s

  unfoldable pub uprobe_log_subop_stats : Config → Hit → Tracer k → Tracer k
  uprobe_log_subop_stats g c s = with_key k g c 140 s λ key. require (find_op k s key) s λ v.
      require (read_hprobe_varfield g c 142 8) (delete_op k s key)
        λ len. complete c key (record v { wb = len; reply_stamp = c.now }) s

  unfoldable pub uprobe_ec_submit_transaction : Config → Hit → Tracer k → Tracer k
  uprobe_ec_submit_transaction g c s =
      with_key k g c 150 s λ key. require (find_op k s key) s λ v. delete_op k s key

  unfoldable pub uprobe_repop_commit : Config → Hit → Tracer k → Tracer k
  unfolding repop_name
  uprobe_repop_commit g c s = with_key k g c 170 s λ key. require (find_op k s key) s λ v.
      require (read_hprobe_varfield g c 172 8) (delete_op k s key)
        λ len. complete c key (repop_name g c (record v { wb = len; reply_stamp = c.now })) s

  -- `uprobe_log_latency` and `uprobe_log_latency_fn` differ in the id of the variable alone.
  abbrev pub log_latency_at : ℕ → Config → Hit → Tracer k → Tracer k
  log_latency_at varid g c s = require (read_hprobe_varfield g c varid 8) s λ lat.
      submit c
        (bluestore_event (record {
          pid = get_pid c;
          lat = lat;
          name = overlay (c.read_user_str c.parm2 bs_lat_name_len) (replicate bs_lat_name_len 0);
        }))
        s

  unfoldable pub uprobe_log_latency : Config → Hit → Tracer k → Tracer k
  uprobe_log_latency = log_latency_at 131

  unfoldable pub uprobe_log_latency_fn : Config → Hit → Tracer k → Tracer k
  uprobe_log_latency_fn = log_latency_at 191
