-- ===== src/Kfs/Run.antt =====
-- src/kfstrace.bpf.c as a whole: runs over the hits of the kprobes on either side. A hit is one step.
pub mod Mds
pub mod Reported
pub mod Osd
use cephtrace.Base.{ℕ, ◌≤◌, ◌<◌, List, [], ◌∷◌, u64_mod}
use cephtrace.Kfs.Types.{
  RequestKey, KernelTraceEvent, MdsTraceEvent, KHit, Btf, HashMap, OsdSide, MdsSide,
}
use cephtrace.Kfs.Osd.{trace_send_request, trace_osd_dispatch}
use cephtrace.Kfs.Mds.{trace_prepare_send_request, trace_mds_dispatch}

pub data OsdProbe : Type 0 where
  send_request osd_dispatch : OsdProbe

pub data MdsProbe : Type 0 where
  prepare_send mds_dispatch : MdsProbe

-- The hits come in the order of the clock, the first no earlier than t.
abbrev pub KTimed : {P : Type 0} → ℕ → List (P × KHit) → Type 0
KTimed t [] = Unit {0}
KTimed t ((p, c) ∷ hits) = (t ≤ c.now) × (c.now < u64_mod) × KTimed c.now hits

abbrev pub kfs_end_time : {P : Type 0} → ℕ → List (P × KHit) → ℕ
kfs_end_time t [] = t
kfs_end_time t ((p, c) ∷ hits) = kfs_end_time c.now hits

module _ (k : HashMap RequestKey KernelTraceEvent) where
  abbrev pub osd_initial : OsdSide k
  osd_initial = record { pending_requests = k.base.empty; rb = [] }

  abbrev pub osd_step : Btf → OsdProbe → KHit → OsdSide k → OsdSide k
  osd_step b send_request c s = trace_send_request k b c s
  osd_step b osd_dispatch c s = trace_osd_dispatch k c s

  unfoldable pub osd_run : Btf → List (OsdProbe × KHit) → OsdSide k → OsdSide k
  osd_run b [] s = s
  osd_run b ((p, c) ∷ hits) s = osd_run b hits (osd_step b p c s)

module _ (k : HashMap RequestKey MdsTraceEvent) where
  abbrev pub mds_initial : MdsSide k
  mds_initial = record { pending_mds_requests = k.base.empty; mds_rb = [] }

  abbrev pub mds_step : MdsProbe → KHit → MdsSide k → MdsSide k
  mds_step prepare_send c s = trace_prepare_send_request k c s
  mds_step mds_dispatch c s = trace_mds_dispatch k c s

  unfoldable pub mds_run : List (MdsProbe × KHit) → MdsSide k → MdsSide k
  mds_run [] s = s
  mds_run ((p, c) ∷ hits) s = mds_run hits (mds_step p c s)
