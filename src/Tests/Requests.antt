-- ===== src/Tests/Requests.antt =====
-- kfstrace on concrete hits.
use mathlib.Core.Logic.{ite, if_pos, if_neg}
use cephtrace.Base.{ℕ, refl, inl, arith, true, List, [], ◌∷◌, Option, some, none, ℕ_discrete}
use cephtrace.Kfs.Types.{
  RequestKey, zero_event, zero_mds_event, Member, KHit, Btf, HashMap, OsdSide, MdsSide, hdr_type,
  head_safe,
}
use cephtrace.Kfs.Osd.{dispatch_key, trace_osd_dispatch}
use cephtrace.Kfs.Osd.Effects.{DispatchOutcome, request_of, osd_dispatch_effect}
use cephtrace.Kfs.Mds.Target.{mds_target}
use cephtrace.Kfs.Mds.Lifecycle.{Lifecycle, mds_step-Lifecycle}
use cephtrace.Kfs.Run.{
  OsdProbe, send_request, osd_dispatch, MdsProbe, prepare_send, mds_dispatch, osd_initial, osd_run,
  mds_initial, mds_step, mds_run, kfs_end_time,
}
use cephtrace.Kfs.Run.Osd.{OsdInv, osd_run-OsdInv}
use cephtrace.Kfs.Run.Mds.{MdsInv, mds_run-MdsInv}
use cephtrace.Kfs.Run.Reported.{IsReported, resends, pending_request-IsReported}
use cephtrace.Tests.Maps.{plain_map}

abbrev RequestKey_discrete : Discrete RequestKey
RequestKey_discrete = hlevel (ℕ_discrete)

abbrev hash_map : {V : Type 0} → HashMap RequestKey V
hash_map {V} = record {
  base = plain_map RequestKey_discrete;
  update_exist = λ m k v j. ite (RequestKey_discrete j k) (some v) (m j);
  no_eviction = λ m k j v n. if_neg (RequestKey_discrete j k) n _ _;
  lookup-update_exist_self = λ m k v w h. inl (if_pos (RequestKey_discrete k k) refl (some v) _);
  lookup-update_exist_ne = λ m k j v n. if_neg (RequestKey_discrete j k) n _ _;
}

-- Every member reads as 7, but for the type of a message and the safe flag.
abbrev member_value : ℕ → Member → Option ℕ
member_value safe hdr_type = some 26
member_value safe head_safe = some safe
member_value safe m = some 7

abbrev kernel_hit : ℕ → ℕ → KHit
kernel_hit safe t = record {
  parm1 = 4096;
  parm2 = 8192;
  pid_tgid = 12884901888;
  current_comm = [];
  now = t;
  core_read = λ a m. member_value safe m;
  core_read_str = λ a n. none;
  core_read_acting = λ a n. none;
  member_addr = λ a m. a;
  has_room = true;
}

abbrev btf : Btf
btf = record {
  ceph_osd_op_read = 1;
  ceph_osd_op_sparse_read = 2;
  ceph_osd_op_sync_read = 3;
  ceph_osd_op_write = 4;
  ceph_osd_op_writefull = 5;
  ceph_osd_op_zero = 6;
  ceph_osd_op_append = 8;
  ceph_osd_op_mapext = 9;
  ceph_osd_op_call = 7;
  ceph_osd_flag_write = 32;
}

abbrev osd_hits : List (OsdProbe × KHit)
osd_hits = (send_request, kernel_hit 0 1000) ∷ (osd_dispatch, kernel_hit 0 2000) ∷ []

abbrev mds_hits : List (MdsProbe × KHit)
mds_hits =
    (prepare_send, kernel_hit 0 1000)
    ∷ (prepare_send, kernel_hit 0 1500)
    ∷ (mds_dispatch, kernel_hit 0 2000)
    ∷ (mds_dispatch, kernel_hit 1 3000)
    ∷ []

osd_run-OsdInv_example :
    OsdInv hash_map (kfs_end_time 0 osd_hits) (osd_run hash_map btf osd_hits (osd_initial hash_map))
osd_run-OsdInv_example =
    osd_run-OsdInv hash_map btf osd_hits 0
      (omega arith, omega arith, (omega arith, omega arith, tt))

mds_run-MdsInv_example :
    MdsInv hash_map (kfs_end_time 0 mds_hits) (mds_run hash_map mds_hits (mds_initial hash_map))
mds_run-MdsInv_example = mds_run-MdsInv hash_map mds_hits 0 (
  omega arith,
  omega arith,
  (omega arith, omega arith, (omega arith, omega arith, (omega arith, omega arith, tt))),
)

abbrev key_7_7 : RequestKey
key_7_7 = record { client_id = 7; tid = 7 }

-- A state in which every key has the same entry.
abbrev waiting_state : MdsSide hash_map
waiting_state = record {
  pending_mds_requests = λ _. some (record zero_mds_event { submit_time = 1000; attempts = 1 });
  mds_rb = [];
}

abbrev resent_hits : List (MdsProbe × KHit)
resent_hits = (prepare_send, kernel_hit 0 1500) ∷ (mds_dispatch, kernel_hit 0 2000) ∷ []

mds_step-Lifecycle_example :
    Lifecycle hash_map
      (kernel_hit 1 3000)
      waiting_state
      (mds_step hash_map mds_dispatch (kernel_hit 1 3000) waiting_state)
      (mds_target mds_dispatch (kernel_hit 1 3000))
mds_step-Lifecycle_example =
    mds_step-Lifecycle hash_map mds_dispatch (kernel_hit 1 3000) waiting_state

pending_request-IsReported_example :
    let before = mds_run hash_map resent_hits waiting_state in
    IsReported
      (kernel_hit 1 3000)
      7
      (resends RequestKey_discrete key_7_7 resent_hits)
      (record zero_mds_event { submit_time = 1000; attempts = 1 })
      before.mds_rb
      (mds_step hash_map mds_dispatch (kernel_hit 1 3000) before).mds_rb
unfolding mds_target
pending_request-IsReported_example =
    pending_request-IsReported hash_map key_7_7 resent_hits waiting_state
      (record zero_mds_event { submit_time = 1000; attempts = 1 }) mds_dispatch (kernel_hit 1 3000)
      1 7 refl (omega arith) (tt, ((λ _. refl), tt)) refl (omega arith) refl

abbrev sent_requests : OsdSide hash_map
sent_requests = record {
  pending_requests = λ _. some (record zero_event { start_time = 1000; attempts = 1 });
  rb = [];
}

osd_dispatch_effect_example :
    DispatchOutcome hash_map
      (kernel_hit 0 2000)
      (dispatch_key (kernel_hit 0 2000) 7)
      sent_requests
      (trace_osd_dispatch hash_map (kernel_hit 0 2000) sent_requests)
      (request_of hash_map sent_requests (dispatch_key (kernel_hit 0 2000) 7))
osd_dispatch_effect_example = osd_dispatch_effect hash_map (kernel_hit 0 2000) sent_requests 7 refl
