-- ===== src/Kfs/Run/Osd.antt =====
-- The invariant of the pending OSD requests and of the ring buffer of their events.
use cephtrace.Base.{
  ℕ, ◌-◌, ◌/◌, ◌≤◌, ◌<◌, ◌≡◌, subst, ap, arith, List, [], ◌∷◌, u64_mod, sub64, All, All-imp,
}
use cephtrace.Bpf.Rules.{if_rule, require_rule, require_cases}
use cephtrace.Bpf.Maps.{
  Entries, updated_value, Others-update, Entries-fill, Entries-missing, Entries-write,
  Entries-delete,
}
use cephtrace.Kfs.Types.{
  RequestKey, KernelTraceEvent, zero_event, KHit, Btf, HashMap, OsdSide, r_tid, r_osd, o_osd,
  hdr_tid,
}
use cephtrace.Kfs.Osd.{
  completed, retried, fill_request, send_key, dispatch_key, track_request, trace_send_request,
  trace_osd_dispatch,
}
use cephtrace.Kfs.Osd.Shape.{IsRequest, IsBounded, fill_request-IsRequest, fill_request-IsBounded}
use cephtrace.Kfs.Run.{
  OsdProbe, send_request, osd_dispatch, osd_initial, osd_step, osd_run, KTimed, kfs_end_time,
}

pub record IsPending (t : ℕ) (key : RequestKey) (v : KernelTraceEvent) : Type 0 where
  pub request : IsRequest t key v
  pub bounded : IsBounded v

-- A request that was answered by t.
pub record IsCompleted (t : ℕ) (v : KernelTraceEvent) : Type 0 where
  pub ordered : v.start_time ≤ v.end_time
  pub ended : v.end_time ≤ t
  pub latency : v.latency_us ≡ (v.end_time - v.start_time) / 1000
  pub bounded : IsBounded v

IsPending-mono :
    (t u : ℕ) (key : RequestKey) (v : KernelTraceEvent)
    → t ≤ u
    → IsPending t key v
    → IsPending u key v
IsPending-mono t u key v h p = record {
  request = record {
    same_client = p.request.same_client;
    same_tid = p.request.same_tid;
    started = omega (arith, p.request.started);
    not_ended = p.request.not_ended;
  };
  bounded = p.bounded;
}

IsCompleted-mono : (t u : ℕ) (v : KernelTraceEvent) → t ≤ u → IsCompleted t v → IsCompleted u v
IsCompleted-mono t u v h p = record {
  ordered = p.ordered;
  ended = omega (arith, p.ended);
  latency = p.latency;
  bounded = p.bounded;
}

-- The two updates of an entry keep its bounds.
retried-IsBounded : (v : KernelTraceEvent) → IsBounded v → IsBounded (retried v)
retried-IsBounded v p = record {
  acting_bound = p.acting_bound;
  name_bound = p.name_bound;
  ops_bound = p.ops_bound;
  ops_length = p.ops_length;
  cls_ops_length = p.cls_ops_length;
  one_direction = p.one_direction;
}

completed-IsBounded : (t : ℕ) (v : KernelTraceEvent) → IsBounded v → IsBounded (completed t v)
unfolding completed
completed-IsBounded t v p = record {
  acting_bound = p.acting_bound;
  name_bound = p.name_bound;
  ops_bound = p.ops_bound;
  ops_length = p.ops_length;
  cls_ops_length = p.cls_ops_length;
  one_direction = p.one_direction;
}

retried-IsPending :
    (t : ℕ) (key : RequestKey) (v : KernelTraceEvent)
    → IsPending t key v
    → IsPending t key (retried v)
retried-IsPending t key v p = record {
  request = record {
    same_client = p.request.same_client;
    same_tid = p.request.same_tid;
    started = p.request.started;
    not_ended = p.request.not_ended;
  };
  bounded = retried-IsBounded v p.bounded;
}

elapsed-request : (t s : ℕ) → s ≤ t → t < u64_mod → sub64 t s / 1000 ≡ (t - s) / 1000
elapsed-request t s h small = ap (λ d. d / 1000) (omega arith)

completed-IsCompleted :
    (t : ℕ) (key : RequestKey) (v : KernelTraceEvent)
    → t < u64_mod
    → IsPending t key v
    → IsCompleted t (completed t v)
unfolding completed
completed-IsCompleted t key v small p = record {
  ordered = p.request.started;
  ended = omega arith;
  latency = elapsed-request t v.start_time p.request.started small;
  bounded = completed-IsBounded t v p.bounded;
}

module _ (k : HashMap RequestKey KernelTraceEvent) where
  pub record OsdInv (t : ℕ) (s : OsdSide k) : Type 0 where
    pub waiting : Entries k.base (IsPending t) s.pending_requests
    pub done : All (IsCompleted t) s.rb

  OsdInv-mono : (t u : ℕ) (s : OsdSide k) → t ≤ u → OsdInv t s → OsdInv u s
  OsdInv-mono t u s h p = record {
    waiting = λ key v e. IsPending-mono t u key v h (p.waiting key v e);
    done = All-imp _ _ (λ v. IsCompleted-mono t u v h) s.rb p.done;
  }

  module _ (b : Btf) (c : KHit) (s : OsdSide k) (p : OsdInv c.now s) where
    fill-IsPending :
        (key : RequestKey) (primary_osd : ℕ)
        → IsPending c.now key (fill_request b c c.parm1 key primary_osd zero_event)
    fill-IsPending key primary_osd = record {
      request = fill_request-IsRequest b c c.parm1 key primary_osd;
      bounded = fill_request-IsBounded b c c.parm1 key primary_osd;
    }

    track-OsdInv :
        (key : RequestKey) (primary_osd : ℕ) → OsdInv c.now (track_request k b c key primary_osd s)
    unfolding track_request
    track-OsdInv key primary_osd =
        let P = OsdInv c.now in
        let m = k.base.update s.pending_requests key zero_event in
        let others = Others-update k.base s.pending_requests key zero_event p.waiting in
        require_cases P (k.base.lookup s.pending_requests key) _ _
          (λ _.
            require_cases P (k.base.lookup m key) _ _
              (λ gone. record { waiting = Entries-missing k.base m key gone others; done = p.done })
              λ info found.
                let zero : zero_event ≡ info =
                  updated_value k.base s.pending_requests key zero_event info
                    (k.base.lookup-update_self s.pending_requests key zero_event) found in
                record {
                  waiting =
                      Entries-fill k.base m key _ info found
                        (subst
                          (λ z. IsPending c.now key (fill_request b c c.parm1 key primary_osd z))
                          zero (fill-IsPending key primary_osd))
                        others;
                  done = p.done;
                })
          λ existing found. record {
            waiting =
                Entries-write k.base s.pending_requests key (retried existing) existing found
                  (retried-IsPending c.now key existing (p.waiting key existing found)) p.waiting;
            done = p.done;
          }

    send_request-OsdInv : OsdInv c.now (trace_send_request k b c s)
    unfolding trace_send_request
    send_request-OsdInv =
        let P = OsdInv c.now in
        require_rule P (c.core_read c.parm1 r_tid) _ _ p λ tid _.
          require_rule P (c.core_read c.parm1 r_osd) _ _ p λ osd _.
            require_rule P (c.core_read osd o_osd) _ _ p
              λ primary_osd _. track-OsdInv (send_key c tid) primary_osd

    osd_dispatch-OsdInv : c.now < u64_mod → OsdInv c.now (trace_osd_dispatch k c s)
    unfolding trace_osd_dispatch
    osd_dispatch-OsdInv small =
        let P = OsdInv c.now in
        require_rule P (c.core_read c.parm2 hdr_tid) _ _ p λ tid _.
          let key = dispatch_key c tid in
          require_rule P (k.base.lookup s.pending_requests key) _ _ p λ info found. record {
            waiting = Entries-delete k.base s.pending_requests key p.waiting;
            done =
                if_rule (All (IsCompleted c.now)) c.has_room _ _
                  (λ _.
                    (completed-IsCompleted c.now key info small (p.waiting key info found), p.done))
                  (λ _. p.done);
          }

  osd_step-OsdInv :
      (b : Btf) (p : OsdProbe) (c : KHit) (s : OsdSide k)
      → c.now < u64_mod
      → OsdInv c.now s
      → OsdInv c.now (osd_step k b p c s)
  osd_step-OsdInv b send_request c s small v = send_request-OsdInv b c s v
  osd_step-OsdInv b osd_dispatch c s small v = osd_dispatch-OsdInv b c s v small

  osd_run_from-OsdInv :
      (b : Btf) (hits : List (OsdProbe × KHit)) (t : ℕ) (s : OsdSide k)
      → KTimed t hits
      → OsdInv t s
      → OsdInv (kfs_end_time t hits) (osd_run k b hits s)
  unfolding osd_run
  osd_run_from-OsdInv b [] t s timed v = v
  osd_run_from-OsdInv b ((p, c) ∷ hits) t s (h, small, timed) v =
      osd_run_from-OsdInv b hits c.now _ timed
        (osd_step-OsdInv b p c s small (OsdInv-mono t c.now s h v))

  -- Whatever hits the two OSD kprobes see in the order of a 64-bit clock: every pending request
  -- carries the client and the tid of its key, started no later than the last reading of the clock
  -- and has no end; every event submitted ended between its start and that reading, with the
  -- microseconds between them as latency; and in both the acting set, the object name and the ops
  -- stay within their arrays, and none is both a read and a write.
  pub osd_run-OsdInv :
      (b : Btf) (hits : List (OsdProbe × KHit)) (t : ℕ)
      → KTimed t hits
      → OsdInv (kfs_end_time t hits) (osd_run k b hits (osd_initial k))
  osd_run-OsdInv b hits t timed =
      osd_run_from-OsdInv b hits t _ timed
        (record { waiting = λ j v h. cc (k.base.lookup-empty j); done = tt })
