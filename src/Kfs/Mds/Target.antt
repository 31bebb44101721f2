-- ===== src/Kfs/Mds/Target.antt =====
-- What a hit asks of the tracker of MDS requests: which request it names, and what happened to it.
use cephtrace.Base.{ℕ, ◌≡◌, arith, Option, none, some, not, ◌==◌, if◌then◌else◌}
use cephtrace.Bpf.Queue.{require, or_zero}
use cephtrace.Kfs.Types.{
  RequestKey, MdsTraceEvent, r_tid, con_private, hdr_tid, hdr_type, r_op, s_mds, front_iov_base,
  head_safe, head_result, KHit, HashMap, MdsSide, nonnull,
}
use cephtrace.Kfs.Mds.{
  prepare_key, reply_key, track_mds_request, trace_prepare_send_request, handle_reply,
  trace_mds_dispatch,
}
use cephtrace.Kfs.Run.{MdsProbe, prepare_send, mds_dispatch, mds_step}

-- A request is sent to a rank, or answered with a safe flag and a result.
pub data Reaction : Type 0 where
  sent replied : ℕ → ℕ → Reaction

-- The request that a hit names, if all that identifies it can be read.
unfoldable pub mds_target : MdsProbe → KHit → Option (RequestKey × Reaction)
mds_target prepare_send c =
    let mds_rank = if c.parm1 == 0 then 0 else or_zero (c.core_read c.parm1 s_mds) in
    if c.parm2 == 0
    then none
    else require (c.core_read c.parm2 r_tid) none λ tid.
      require (c.core_read c.parm2 r_op) none λ op. some (prepare_key c tid, sent op mds_rank)
mds_target mds_dispatch c = require (c.core_read c.parm2 hdr_type) none λ msg_type.
    if not (msg_type == 26)
    then none
    else require (c.core_read c.parm2 hdr_tid) none λ tid.
      require (nonnull (c.core_read c.parm1 con_private)) none λ session.
        require (c.core_read c.parm2 front_iov_base) none λ head.
          require (c.core_read head head_safe) none λ flag.
            require (c.core_read head head_result) none
              λ result. some (reply_key c session tid, replied flag result)

module _ (k : HashMap RequestKey MdsTraceEvent) where
  -- What the tracker does about it.
  unfoldable pub react : KHit → MdsSide k → Option (RequestKey × Reaction) → MdsSide k
  react c s none = s
  react c s (some (key, sent op mds_rank)) = track_mds_request k c key op mds_rank s
  react c s (some (key, replied flag result)) =
      require (k.base.lookup s.pending_mds_requests key) s λ e. handle_reply k c key e flag result s

  prepare-react :
      (c : KHit) (s : MdsSide k)
      → trace_prepare_send_request k c s ≡ react c s (mds_target prepare_send c)
  unfolding trace_prepare_send_request mds_target react
  prepare-react c s = ground arith

  dispatch-react :
      (c : KHit) (s : MdsSide k) → trace_mds_dispatch k c s ≡ react c s (mds_target mds_dispatch c)
  unfolding trace_mds_dispatch mds_target react
  dispatch-react c s = ground arith

  pub step-react :
      (p : MdsProbe) (c : KHit) (s : MdsSide k) → mds_step k p c s ≡ react c s (mds_target p c)
  step-react prepare_send c s = prepare-react c s
  step-react mds_dispatch c s = dispatch-react c s
