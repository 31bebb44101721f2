-- ===== src/Tests/Probes.antt =====
-- The probes of src/osdtrace.bpf.c on concrete hits.
use cephtrace.Base.{
  ◌≡◌, refl, arith, ℕ_discrete, ◌⊎◌, minus_one, ◌*◌, ◌<◌, little_endian, true, false, List, [], ◌∷◌,
  none, some,
}
use cephtrace.Bpf.Types.{OpValue, zero_op_v, VarField}
use cephtrace.Bpf.Tracer.{Hit, Tracer, get_pid}
use cephtrace.Bpf.Fetch.{
  read_hprobe_utime, to_nsec, read_hprobe_varfield, fetch_var_member_addr, first_member, follow,
  fetch_register, zero_field,
}
use cephtrace.Bpf.Fetch.Chain.{fetch-walk}
use cephtrace.Bpf.Queue.{
  find_op, is_osd_msg, is_retry, track, fresh_entry, read_stamps, uprobe_enqueue_op,
  capture_decoded_osd_ops,
}
use cephtrace.Bpf.Reply.{uprobe_log_op_stats}
use cephtrace.Bpf.Invariant.{Inv}
use cephtrace.Bpf.Run.{Probe, enqueue_op, dequeue_op, log_op_stats, initial, run, Timed, end_time}
use cephtrace.Bpf.Run.Safe.{run-Inv}
use cephtrace.Bpf.Effects.Enqueue.{IsFresh, IsStale, enqueue_effect}
use cephtrace.Bpf.Effects.Complete.{OpOutcome, log_op_stats_effect}
use cephtrace.Bpf.Effects.Capture.{capture_twice}
use cephtrace.Tests.Maps.{plain_kernel, config, hit_at, key_7_9}

abbrev pub hits : List (Probe × Hit)
hits = (enqueue_op, hit_at 1000) ∷ (dequeue_op, hit_at 2000) ∷ (log_op_stats, hit_at 3000) ∷ []

abbrev pub hits-Timed : Timed 0 hits
hits-Timed = (omega arith, omega arith, (omega arith, omega arith, (omega arith, omega arith, tt)))

run-Inv_example :
    Inv plain_kernel (end_time 0 hits) (run plain_kernel config hits (initial plain_kernel))
run-Inv_example = run-Inv plain_kernel config hits 0 hits-Timed

-- A state in which every key has the same entry.
abbrev tracked : Tracer plain_kernel
tracked = record {
  ops = λ _. some (record zero_op_v { enqueue_stamp = 1000; owner = 7; tid = 9; pid = 3 });
  ptid_opk = λ _. none;
  ctx_opk = λ _. none;
  rb = [];
  rb_drops = 0;
}

log_op_stats_effect_example :
    OpOutcome plain_kernel
      (hit_at 3000)
      key_7_9
      tracked
      (uprobe_log_op_stats plain_kernel config (hit_at 3000) tracked)
      (find_op plain_kernel tracked key_7_9)
unfolding read_hprobe_varfield fetch_var_member_addr first_member fetch_register little_endian
    get_pid
log_op_stats_effect_example = log_op_stats_effect plain_kernel config (hit_at 3000) tracked 9 refl

-- A member behind a pointer: 42 stands at 4096 + 8, and the member is 16 bytes behind it.
abbrev pointer_var : VarField
pointer_var = record {
  varloc = record { reg = 5; offset = 0; stack = false };
  fields =
      zero_field
      ∷ record { offset = 8; pointer = false }
      ∷ record { offset = 16; pointer = true }
      ∷ [];
  size = 3;
}

fetch-walk_example : fetch_var_member_addr (hit_at 0) 4096 pointer_var ≡ 58
unfolding first_member follow little_endian
fetch-walk_example = fetch-walk (hit_at 0) pointer_var 4096

capture_twice_example :
    let w =
      capture_decoded_osd_ops config
        (hit_at 1)
        (capture_decoded_osd_ops config (hit_at 0) zero_op_v 4096 4112)
        4096
        4112 in
    (w.detail_ops_captured ≡ 2 * w.detail_ops_total) × (w.detail_ops_total < w.detail_ops_captured)
capture_twice_example =
    capture_twice config (hit_at 0) (hit_at 1) zero_op_v 4096 4112 (omega arith) (omega arith)
      (omega arith) refl (omega arith) (omega arith)

-- The first hit that an op makes, on a state without entries.
abbrev first_state : Tracer plain_kernel
first_state = initial plain_kernel

abbrev entry_7_9 : OpValue
entry_7_9 = record zero_op_v {
  pid = 3;
  owner = 7;
  tid = 9;
  op_type = 42;
  enqueue_stamp = 1000;
  recv_stamp = 3000000003;
  throttle_stamp = 4000000004;
  recv_complete_stamp = 5000000005;
  dispatch_stamp = 6000000006;
  pi = record (zero_op_v.pi) { peer1 = minus_one; peer2 = minus_one };
}

enqueued_7_9 :
    find_op plain_kernel (uprobe_enqueue_op plain_kernel config (hit_at 1000) first_state) key_7_9
    ≡ some entry_7_9
unfolding uprobe_enqueue_op is_osd_msg is_retry track fresh_entry read_stamps read_hprobe_varfield
    read_hprobe_utime to_nsec fetch_var_member_addr first_member fetch_register little_endian
    get_pid ℕ_discrete
enqueued_7_9 = refl

enqueue_effect_example :
    (find_op plain_kernel first_state key_7_9 ≡ some entry_7_9)
    ⊎ ((3 ≡ get_pid (hit_at 1000))
        × IsFresh key_7_9 1000 entry_7_9
        × IsStale 1000 (find_op plain_kernel first_state key_7_9))
enqueue_effect_example =
    enqueue_effect plain_kernel config (hit_at 1000) first_state key_7_9 entry_7_9 enqueued_7_9
