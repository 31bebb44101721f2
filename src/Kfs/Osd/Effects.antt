-- ===== src/Kfs/Osd/Effects.antt =====
-- What a reply of an OSD, and a request that is sent again, do to the map and the ring buffer.
use cephtrace.Base.{◌≡◌, ◌≢◌, refl, Option, none, some, ◌∷◌, if◌then◌else◌, ◌+◌, ◌%◌, u32_mod, ℕ}
use cephtrace.Bpf.Rules.{require_some, require_none}
use cephtrace.Kfs.Types.{
  RequestKey, KernelTraceEvent, KHit, Btf, HashMap, OsdSide, r_tid, r_osd, o_osd, hdr_tid,
}
use cephtrace.Kfs.Osd.{
  completed, retried, send_key, dispatch_key, track_request, trace_send_request, trace_osd_dispatch,
}

module _ (k : HashMap RequestKey KernelTraceEvent) where
  abbrev pub request_of : OsdSide k → RequestKey → Option KernelTraceEvent
  request_of s j = k.base.lookup s.pending_requests j

  -- The request under the key has become `new`, no other has changed.
  pub record Replaced (key : RequestKey) (new : Option KernelTraceEvent) (s u : OsdSide k)
      : Type 0 where
    pub named : request_of u key ≡ new
    pub others : (j : RequestKey) → j ≢ key → request_of u j ≡ request_of s j

  abbrev pub DispatchOutcome :
      KHit → RequestKey → OsdSide k → OsdSide k → Option KernelTraceEvent → Type 0
  DispatchOutcome c key s u none = u ≡ s
  DispatchOutcome c key s u (some info) =
      Replaced key none s u × (u.rb ≡ (if c.has_room then completed c.now info ∷ s.rb else s.rb))

  module _ (c : KHit) (s : OsdSide k) where
    dispatch_outcome :
        (tid : ℕ) (old : Option KernelTraceEvent)
        → c.core_read c.parm2 hdr_tid ≡ some tid
        → request_of s (dispatch_key c tid) ≡ old
        → DispatchOutcome c (dispatch_key c tid) s (trace_osd_dispatch k c s) old
    unfolding trace_osd_dispatch
    dispatch_outcome tid none read found =
        require_some (λ u. u ≡ s) _ tid _ _ read (require_none (λ u. u ≡ s) _ _ _ found refl)
    dispatch_outcome tid (some info) read found =
        let key = dispatch_key c tid in
        let P = λ (u : OsdSide k). DispatchOutcome c key s u (some info) in
        require_some P _ tid _ _ read (
          require_some P _ info _ _ found (
            record {
              named = k.base.lookup-delete_self s.pending_requests key;
              others = λ j n. k.base.lookup-delete_ne s.pending_requests key j n;
            },
            refl,
          ))

    -- A reply whose tid can be read: if its request is pending, the request becomes an event with its
    -- end and its latency, or is lost if the ring buffer is full, and is removed in both cases, no
    -- other request changing; if it is not pending, the state is unchanged.
    pub osd_dispatch_effect :
        (tid : ℕ)
        → c.core_read c.parm2 hdr_tid ≡ some tid
        → DispatchOutcome c
            (dispatch_key c tid)
            s
            (trace_osd_dispatch k c s)
            (request_of s (dispatch_key c tid))
    osd_dispatch_effect tid read = dispatch_outcome tid _ read refl

  module _ (b : Btf) (c : KHit) (s : OsdSide k) where
    track_again :
        (key : RequestKey) (primary_osd : ℕ) (info : KernelTraceEvent)
        → request_of s key ≡ some info
        → Replaced key (some (retried info)) s (track_request k b c key primary_osd s)
    unfolding track_request
    track_again key primary_osd info found =
        require_some (Replaced key (some (retried info)) s) _ info _ _ found (record {
          named = k.base.lookup-write_self s.pending_requests key (retried info) info found;
          others = λ j n. k.base.lookup-write_ne s.pending_requests key j (retried info) n;
        })

    -- A request that is pending is sent again: its entry differs in the number of attempts only, which
    -- goes up by one modulo 2 ^ 32, and no other entry changes.
    pub send_again_effect :
        (tid osd primary_osd : ℕ) (info : KernelTraceEvent)
        → c.core_read c.parm1 r_tid ≡ some tid
        → c.core_read c.parm1 r_osd ≡ some osd
        → c.core_read osd o_osd ≡ some primary_osd
        → request_of s (send_key c tid) ≡ some info
        → Replaced
            (send_key c tid)
            (some (record info { attempts = (info.attempts + 1) % u32_mod }))
            s
            (trace_send_request k b c s)
    unfolding trace_send_request
    send_again_effect tid osd primary_osd info read read' read'' found =
        let P = Replaced (send_key c tid) (some (retried info)) s in
        require_some P _ tid _ _ read (
          require_some P _ osd _ _ read' (
            require_some P _ primary_osd _ _ read''
              (track_again (send_key c tid) primary_osd info found)))
