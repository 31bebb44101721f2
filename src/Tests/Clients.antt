-- ===== src/Tests/Clients.antt =====
-- radostrace on concrete hits and texts.
use cephtrace.Base.{ℕ, arith, List, [], ◌∷◌, ℕ_discrete, some}
use cephtrace.Rados.Types.{Client, zero_val, ClientOpKey, ClientConfig, ClientOps}
use cephtrace.Rados.Run.{
  ClientProbe, send_op, finish_op, client_initial, client_run, ClientTimed, client_end_time,
}
use cephtrace.Rados.Run.Safe.{ClientInv, client_run-ClientInv}
use cephtrace.Bpf.Tracer.{Hit}
use cephtrace.Bpf.Fetch.{fetch_register}
use cephtrace.Rados.Probes.{uprobe_finish_op}
use cephtrace.Rados.Effects.{FinishOutcome, finish_key, finish_op_effect}
use cephtrace.Tests.Maps.{plain_map, hit_at}

ClientOpKey_discrete : Discrete ClientOpKey
ClientOpKey_discrete = hlevel (ℕ_discrete)

abbrev client_ops : ClientOps
client_ops = plain_map ClientOpKey_discrete

-- The op and the Objecter are both at the address in rdi.
abbrev client_config : ClientConfig
client_config = record {
  ceph_osd_op_size = 8;
  extent_offset_offset = 16;
  extent_length_offset = 32;
  cls_class_offset = 48;
  cls_method_offset = 64;
  buffer_carriage_offset = 80;
  buffer_raw_offset = 96;
  buffer_data_offset = 112;
  send_op_reg = 5;
  send_this_reg = 5;
  fin_op_reg = 5;
  fin_this_reg = 5;
  off_tid = 144;
  off_monc = 16;
  off_global_id = 0;
  off_target_osd = 48;
  off_name_len = 64;
  off_name_ptr = 80;
  off_flags = 96;
  off_pool = 112;
  off_seed = 128;
  off_acting_start = 160;
  off_acting_finish = 176;
  off_ops_start = 192;
  off_ops_size = 208;
}

abbrev client_hits : List (ClientProbe × Hit)
client_hits = (send_op, hit_at 1000) ∷ (finish_op, hit_at 2000) ∷ []

abbrev client_hits-Timed : ClientTimed 0 client_hits
client_hits-Timed = (omega arith, (omega arith, tt))

client_run-ClientInv_example :
    ClientInv client_ops
      (client_end_time 0 client_hits)
      (client_run client_ops client_config client_hits (client_initial client_ops))
client_run-ClientInv_example =
    client_run-ClientInv client_ops client_config client_hits 0 client_hits-Timed

-- The text 1,"2.
abbrev two_ops : List ℕ
two_ops = b'1' ∷ b',' ∷ b'"' ∷ b'2' ∷ []

-- A state in which every key has the same entry.
abbrev sent_state : Client client_ops
sent_state = record { ops = λ _. some (record zero_val { sent_stamp = 1000 }); rb = [] }

finish_op_effect_example :
    FinishOutcome client_ops
      (hit_at 2000)
      (finish_key client_config (hit_at 2000))
      sent_state
      (uprobe_finish_op client_ops client_config (hit_at 2000) sent_state)
      (client_ops.lookup sent_state.ops (finish_key client_config (hit_at 2000)))
unfolding fetch_register
finish_op_effect_example =
    finish_op_effect client_ops client_config (hit_at 2000) sent_state (omega arith)
