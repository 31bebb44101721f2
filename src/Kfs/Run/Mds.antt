-- ===== src/Kfs/Run/Mds.antt =====
-- The invariant of the pending MDS requests and of the ring buffer of their events.
use cephtrace.Base.{
  ℕ, ◌-◌, ◌/◌, ◌≤◌, ◌<◌, ◌≡◌, ◌⊎◌, inl, inr, refl, sym, subst, ap, arith, true, false, List, [],
  ◌∷◌, Option, none, some, ◌==◌, u64_mod, sub64, All, All-imp,
}
use cephtrace.Bpf.Rules.{if_rule}
use cephtrace.Kfs.Types.{RequestKey, MdsTraceEvent, zero_mds_event, KHit, HashMap, MdsSide}
use cephtrace.Kfs.Name.{get_mds_op_name, is_mds_write_op}
use cephtrace.Kfs.Mds.{fill_mds_request, mds_retried, safe_reply, unsafe_reply}
use cephtrace.Kfs.Mds.Target.{Reaction, sent, replied}
use cephtrace.Kfs.Mds.Lifecycle.{
  Transition, refused, tracked, resent, unknown, acknowledged, finished, reported, pending,
  Lifecycle, mds_step-Lifecycle,
}
use cephtrace.Kfs.Run.{MdsProbe, mds_initial, mds_run, KTimed, kfs_end_time}

-- The unsafe reply: none yet, or one between the request and t, with its latency.
abbrev pub UnsafeBy : ℕ → MdsTraceEvent → Type 0
UnsafeBy t e =
    ((e.got_unsafe_reply ≡ false) × (e.unsafe_reply_time ≡ 0) × (e.unsafe_latency_us ≡ 0))
    ⊎ ((e.got_unsafe_reply ≡ true)
        × (e.submit_time ≤ e.unsafe_reply_time)
        × (e.unsafe_reply_time ≤ t)
        × (e.unsafe_latency_us ≡ (e.unsafe_reply_time - e.submit_time) / 1000))

-- What is known of the operation.
pub record IsNamed (e : MdsTraceEvent) : Type 0 where
  pub name : e.op_name ≡ get_mds_op_name e.op
  pub writes : e.is_write_op ≡ is_mds_write_op e.op

-- A request that was submitted by t and has no safe reply.
pub record IsWaiting (t : ℕ) (key : RequestKey) (e : MdsTraceEvent) : Type 0 where
  pub same_client : e.client_id ≡ key.client_id
  pub same_tid : e.tid ≡ key.tid
  pub submitted : e.submit_time ≤ t
  pub unfinished : e.got_safe_reply ≡ false
  pub unsafe_by : UnsafeBy t e
  pub named : IsNamed e

-- An event of a request that got its safe reply by t, after its unsafe reply if it had one.
pub record IsAnswered (t : ℕ) (e : MdsTraceEvent) : Type 0 where
  pub got_safe : e.got_safe_reply ≡ true
  pub ordered : e.submit_time ≤ e.safe_reply_time
  pub answered : e.safe_reply_time ≤ t
  pub latency : e.safe_latency_us ≡ (e.safe_reply_time - e.submit_time) / 1000
  pub unsafe_by : UnsafeBy e.safe_reply_time e
  pub named : IsNamed e

UnsafeBy-mono : (t u : ℕ) (e : MdsTraceEvent) → t ≤ u → UnsafeBy t e → UnsafeBy u e
UnsafeBy-mono t u e h (inl p) = inl p
UnsafeBy-mono t u e h (inr (a, b, c, d)) = inr (a, b, omega arith, d)

IsWaiting-mono :
    (t u : ℕ) (key : RequestKey) (e : MdsTraceEvent) → t ≤ u → IsWaiting t key e → IsWaiting u key e
IsWaiting-mono t u key e h p = record {
  same_client = p.same_client;
  same_tid = p.same_tid;
  submitted = omega (arith, p.submitted);
  unfinished = p.unfinished;
  unsafe_by = UnsafeBy-mono t u e h p.unsafe_by;
  named = p.named;
}

IsAnswered-mono : (t u : ℕ) (e : MdsTraceEvent) → t ≤ u → IsAnswered t e → IsAnswered u e
IsAnswered-mono t u e h p = record {
  got_safe = p.got_safe;
  ordered = p.ordered;
  answered = omega (arith, p.answered);
  latency = p.latency;
  unsafe_by = p.unsafe_by;
  named = p.named;
}

sub64-ordered : (a b : ℕ) → b ≤ a → a < u64_mod → sub64 a b ≡ a - b
sub64-ordered a b h g = omega arith

module _ (c : KHit) (key : RequestKey) (e : MdsTraceEvent) where
  fill-IsWaiting :
      (op mds_rank : ℕ) → IsWaiting c.now key (fill_mds_request c c.parm2 key op mds_rank e)
  unfolding fill_mds_request
  fill-IsWaiting op mds_rank = record {
    same_client = refl;
    same_tid = refl;
    submitted = omega arith;
    unfinished = refl;
    unsafe_by = inl (refl, refl, refl);
    named = record { name = refl; writes = refl };
  }

  module _ (p : IsWaiting c.now key e) where
    retried-IsWaiting : IsWaiting c.now key (mds_retried e)
    retried-IsWaiting = record {
      same_client = p.same_client;
      same_tid = p.same_tid;
      submitted = p.submitted;
      unfinished = p.unfinished;
      unsafe_by = p.unsafe_by;
      named = record { name = p.named.name; writes = p.named.writes };
    }

    module _ (result : ℕ) (small : c.now < u64_mod) where
      elapsed : sub64 c.now e.submit_time / 1000 ≡ (c.now - e.submit_time) / 1000
      elapsed = ap (λ d. d / 1000) (sub64-ordered c.now e.submit_time p.submitted small)

      unsafe-IsWaiting : IsWaiting c.now key (unsafe_reply c.now result e)
      unfolding unsafe_reply
      unsafe-IsWaiting = record {
        same_client = p.same_client;
        same_tid = p.same_tid;
        submitted = p.submitted;
        unfinished = p.unfinished;
        unsafe_by = inr (refl, p.submitted, omega arith, elapsed);
        named = record { name = p.named.name; writes = p.named.writes };
      }

      safe-IsAnswered : IsAnswered c.now (safe_reply c.now result e)
      unfolding safe_reply
      safe-IsAnswered = record {
        got_safe = refl;
        ordered = p.submitted;
        answered = omega arith;
        latency = elapsed;
        unsafe_by = p.unsafe_by;
        named = record { name = p.named.name; writes = p.named.writes };
      }

same-IsWaiting :
    (t : ℕ) (key : RequestKey) (a b : MdsTraceEvent)
    → IsWaiting t key a
    → some a ≡ some b
    → IsWaiting t key b
same-IsWaiting t key a b p e = subst (IsWaiting t key) (cc) p

Transition-IsWaiting :
    (c : KHit) (key : RequestKey) (r : Reaction) (old new : Option MdsTraceEvent)
    → c.now < u64_mod
    → Transition c key r old new
    → ((e : MdsTraceEvent) → old ≡ some e → IsWaiting c.now key e)
    → (e : MdsTraceEvent) → new ≡ some e
    → IsWaiting c.now key e
Transition-IsWaiting c key _ _ _ small (refused op rank) known e h = cc
Transition-IsWaiting c key _ _ _ small (tracked op rank) known e h =
    same-IsWaiting c.now key _ e (fill-IsWaiting c key zero_mds_event op rank) h
Transition-IsWaiting c key _ _ _ small (resent op rank v) known e h =
    same-IsWaiting c.now key _ e (retried-IsWaiting c key v (known v refl)) h
Transition-IsWaiting c key _ _ _ small (unknown flag result) known e h = cc
Transition-IsWaiting c key _ _ _ small (acknowledged flag result v z) known e h =
    same-IsWaiting c.now key _ e (unsafe-IsWaiting c key v (known v refl) result small) h
Transition-IsWaiting c key _ _ _ small (finished flag result v n) known e h = cc

reported-IsAnswered :
    (c : KHit) (key : RequestKey) (r : Reaction) (old : Option MdsTraceEvent)
    (rb : List MdsTraceEvent)
    → c.now < u64_mod
    → ((e : MdsTraceEvent) → old ≡ some e → IsWaiting c.now key e)
    → All (IsAnswered c.now) rb
    → All (IsAnswered c.now) (reported c r old rb)
reported-IsAnswered c key (sent op rank) old rb small known all = all
reported-IsAnswered c key (replied flag result) none rb small known all = all
reported-IsAnswered c key (replied flag result) (some e) rb small known all =
    let P = All (IsAnswered c.now) in
    if_rule P (flag == 0) _ _ (λ _. all)
      λ _.
        if_rule P c.has_room _ _ (λ _. (safe-IsAnswered c key e (known e refl) result small, all))
          (λ _. all)

module _ (k : HashMap RequestKey MdsTraceEvent) where
  pub record MdsInv (t : ℕ) (s : MdsSide k) : Type 0 where
    pub waiting : (j : RequestKey) (e : MdsTraceEvent) → pending k s j ≡ some e → IsWaiting t j e
    pub answered : All (IsAnswered t) s.mds_rb

  MdsInv-mono : (t u : ℕ) (s : MdsSide k) → t ≤ u → MdsInv t s → MdsInv u s
  MdsInv-mono t u s h p = record {
    waiting = λ j e f. IsWaiting-mono t u j e h (p.waiting j e f);
    answered = All-imp _ _ (λ e. IsAnswered-mono t u e h) s.mds_rb p.answered;
  }

  Lifecycle-MdsInv :
      (c : KHit) (s u : MdsSide k) (target : Option (RequestKey × Reaction))
      → c.now < u64_mod
      → Lifecycle k c s u target
      → MdsInv c.now s
      → MdsInv c.now u
  Lifecycle-MdsInv c s u none small e p = subst (MdsInv c.now) (sym e) p
  Lifecycle-MdsInv c s u (some (key, r)) small f p = record {
    waiting = λ j e h. elim (k.base.same_key j key) [
      | yes same ↦
          subst (λ i. IsWaiting c.now i e) (sym same)
            (Transition-IsWaiting c key r _ _ small f.named (p.waiting key) e
              (subst (λ i. pending k u i ≡ some e) same h))
      | no n ↦ p.waiting j e (cc (f.others j n))
    ];
    answered =
        subst (All (IsAnswered c.now)) (sym f.emitted)
          (reported-IsAnswered c key r (pending k s key) s.mds_rb small (p.waiting key) p.answered);
  }

  mds_run_from-MdsInv :
      (hits : List (MdsProbe × KHit)) (t : ℕ) (s : MdsSide k)
      → KTimed t hits
      → MdsInv t s
      → MdsInv (kfs_end_time t hits) (mds_run k hits s)
  unfolding mds_run
  mds_run_from-MdsInv [] t s timed v = v
  mds_run_from-MdsInv ((p, c) ∷ hits) t s (h, small, timed) v =
      mds_run_from-MdsInv hits c.now _ timed
        (Lifecycle-MdsInv c s _ _ small (mds_step-Lifecycle k p c s) (MdsInv-mono t c.now s h v))

  -- Whatever hits the two MDS kprobes see in the order of a 64-bit clock: every pending request
  -- carries the client and the tid of its key and has no safe reply; every event submitted has one,
  -- no earlier than the request, with the latency in microseconds between them; an unsafe reply, if
  -- there was one, lies between the request and the safe reply, with its latency; and the name and
  -- the write flag are those of the operation.
  pub mds_run-MdsInv :
      (hits : List (MdsProbe × KHit)) (t : ℕ)
      → KTimed t hits
      → MdsInv (kfs_end_time t hits) (mds_run k hits (mds_initial k))
  mds_run-MdsInv hits t timed =
      mds_run_from-MdsInv hits t _ timed
        (record { waiting = λ j e h. cc (k.base.lookup-empty j); answered = tt })
