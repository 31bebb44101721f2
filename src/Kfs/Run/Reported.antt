-- ===== src/Kfs/Run/Reported.antt =====
-- A pending MDS request is reported when its safe reply comes.
use mathlib.Core.Logic.{ite, if_pos, if_neg}
use cephtrace.Base.{
  ℕ, ◌+◌, ◌%◌, ◌<◌, ◌≡◌, ◌≢◌, refl, sym, subst, ap, ◌∙◌, arith, true, List, [], ◌∷◌, Option, none,
  some, u32_mod, All,
}
use cephtrace.Kfs.Types.{RequestKey, MdsTraceEvent, KHit, HashMap, MdsSide}
use cephtrace.Kfs.Mds.{mds_retried, safe_reply, unsafe_reply}
use cephtrace.Kfs.Mds.Target.{Reaction, sent, replied, mds_target}
use cephtrace.Kfs.Mds.Lifecycle.{
  Transition, refused, tracked, resent, unknown, acknowledged, finished, reported, pending,
  Lifecycle, mds_step-Lifecycle,
}
use cephtrace.Kfs.Run.{MdsProbe, mds_step, mds_run}

-- The hit does not end the request: it is not a safe reply to it.
abbrev pub NotLast : RequestKey → Option (RequestKey × Reaction) → Type 0
NotLast key none = Unit {0}
NotLast key (some (i, sent op mds_rank)) = Unit {0}
NotLast key (some (i, replied flag result)) = i ≡ key → flag ≡ 0

-- How often the hits send the request.
abbrev pub is_sending : Reaction → ℕ
is_sending (sent op mds_rank) = 1
is_sending (replied flag result) = 0

abbrev pub sends : Discrete RequestKey → RequestKey → Option (RequestKey × Reaction) → ℕ
sends d key none = 0
sends d key (some (i, r)) = ite (d key i) (is_sending r) 0

abbrev pub resends : Discrete RequestKey → RequestKey → List (MdsProbe × KHit) → ℕ
resends d key [] = 0
resends d key ((p, c) ∷ hits) = sends d key (mds_target p c) + resends d key hits

-- The same request, after n more attempts.
pub record IsLater (n : ℕ) (e v : MdsTraceEvent) : Type 0 where
  pub same_client : v.client_id ≡ e.client_id
  pub same_tid : v.tid ≡ e.tid
  pub same_submit_time : v.submit_time ≡ e.submit_time
  pub same_op : v.op ≡ e.op
  pub same_pid : v.pid ≡ e.pid
  pub same_rank : v.mds_rank ≡ e.mds_rank
  pub same_path : v.path ≡ e.path
  pub counted : v.attempts ≡ (e.attempts + n) % u32_mod

-- The newest event is that of the request, with the time and the result of the reply.
pub record IsReported (c : KHit) (result n : ℕ) (e : MdsTraceEvent) (old new : List MdsTraceEvent)
    : Type 0 where
  pub event : MdsTraceEvent
  pub newest : new ≡ event ∷ old
  pub later : IsLater n e event
  pub safe : event.got_safe_reply ≡ true
  pub at : event.safe_reply_time ≡ c.now
  pub result_is : event.result ≡ result

IsLater-trans :
    (m n : ℕ) (e v w : MdsTraceEvent) → IsLater m e v → IsLater n v w → IsLater (m + n) e w
IsLater-trans m n e v w p q = record {
  same_client = q.same_client ∙ p.same_client;
  same_tid = q.same_tid ∙ p.same_tid;
  same_submit_time = q.same_submit_time ∙ p.same_submit_time;
  same_op = q.same_op ∙ p.same_op;
  same_pid = q.same_pid ∙ p.same_pid;
  same_rank = q.same_rank ∙ p.same_rank;
  same_path = q.same_path ∙ p.same_path;
  counted = omega (arith, p.counted, q.counted);
}

IsLater-same : (e : MdsTraceEvent) → e.attempts < u32_mod → IsLater 0 e e
IsLater-same e h = record {
  same_client = refl;
  same_tid = refl;
  same_submit_time = refl;
  same_op = refl;
  same_pid = refl;
  same_rank = refl;
  same_path = refl;
  counted = omega arith;
}

retried-IsLater : (e : MdsTraceEvent) → IsLater 1 e (mds_retried e)
retried-IsLater e = record {
  same_client = refl;
  same_tid = refl;
  same_submit_time = refl;
  same_op = refl;
  same_pid = refl;
  same_rank = refl;
  same_path = refl;
  counted = refl;
}

module _ (t result : ℕ) (e : MdsTraceEvent) (small : e.attempts < u32_mod) where
  unsafe-IsLater : IsLater 0 e (unsafe_reply t result e)
  unfolding unsafe_reply
  unsafe-IsLater = record {
    same_client = refl;
    same_tid = refl;
    same_submit_time = refl;
    same_op = refl;
    same_pid = refl;
    same_rank = refl;
    same_path = refl;
    counted = omega arith;
  }

safe-IsLater :
    (t result n : ℕ) (e v : MdsTraceEvent) → IsLater n e v → IsLater n e (safe_reply t result v)
unfolding safe_reply
safe-IsLater t result n e v later = record {
  same_client = later.same_client;
  same_tid = later.same_tid;
  same_submit_time = later.same_submit_time;
  same_op = later.same_op;
  same_pid = later.same_pid;
  same_rank = later.same_rank;
  same_path = later.same_path;
  counted = later.counted;
}

-- There is an entry, the request's own after n more attempts.
abbrev Remains : ℕ → MdsTraceEvent → Option MdsTraceEvent → Type 0
Remains n e o = (v : MdsTraceEvent) × (o ≡ some v) × IsLater n e v

Transition-Remains :
    (c : KHit) (key : RequestKey) (r : Reaction) (e : MdsTraceEvent)
    (old new : Option MdsTraceEvent)
    → e.attempts < u32_mod
    → Transition c key r old new
    → old ≡ some e
    → NotLast key (some (key, r))
    → Remains (is_sending r) e new
Transition-Remains c key _ e _ _ small (refused op rank) found last = cc
Transition-Remains c key _ e _ _ small (tracked op rank) found last = cc
Transition-Remains c key _ e _ _ small (resent op rank v) found last =
    (mds_retried v, refl, subst (λ z. IsLater 1 z (mds_retried v)) (cc) (retried-IsLater v))
Transition-Remains c key _ e _ _ small (unknown flag result) found last = cc
Transition-Remains c key _ e _ _ small (acknowledged flag result v z) found last =
    let same : e ≡ v = cc in
    (
      unsafe_reply c.now result v,
      refl,
      subst (λ z. IsLater 0 z (unsafe_reply c.now result v)) (sym same)
          (unsafe-IsLater c.now result v (subst (λ z. z.attempts < u32_mod) same small)),
    )
Transition-Remains c key _ e _ _ small (finished flag result v n) found last =
    absurd (n (last refl))

module _ (k : HashMap RequestKey MdsTraceEvent) (key : RequestKey) where
  -- One hit.
  step-Remains :
      (c : KHit) (s u : MdsSide k) (target : Option (RequestKey × Reaction)) (e : MdsTraceEvent)
      → e.attempts < u32_mod
      → Lifecycle k c s u target
      → NotLast key target
      → pending k s key ≡ some e
      → Remains (sends k.base.same_key key target) e (pending k u key)
  step-Remains c s u none e small f last found =
      (e, ap (λ s. pending k s key) f ∙ found, IsLater-same e small)
  step-Remains c s u (some (i, r)) e small f last found = elim (k.base.same_key key i) [
    | yes same ↦ rw (if_pos (k.base.same_key key i) same) (
        subst (λ j. Remains (is_sending r) e (pending k u j)) (sym same)
          (Transition-Remains c i r e _ _ small f.named
            (subst (λ j. pending k s j ≡ some e) same found)
            (subst (λ j. NotLast j (some (i, r))) same last)))
    | no n ↦ rw (if_neg (k.base.same_key key i) n) (e, f.others key n ∙ found, IsLater-same e small)
  ]

  run-Remains :
      (hits : List (MdsProbe × KHit)) (s : MdsSide k) (e : MdsTraceEvent)
      → e.attempts < u32_mod
      → All (λ h. NotLast key (mds_target h.0 h.1)) hits
      → pending k s key ≡ some e
      → Remains (resends k.base.same_key key hits) e (pending k (mds_run k hits s) key)
  unfolding mds_run
  run-Remains [] s e small last found = (e, found, IsLater-same e small)
  run-Remains ((p, c) ∷ hits) s e small (last, lasts) found =
      let (v, found', later) =
        step-Remains c s _ _ e small (mds_step-Lifecycle k p c s) last found in
      let (w, found'', later') =
        run-Remains hits (mds_step k p c s) v (omega (arith, later.counted)) lasts found' in
      (w, found'', IsLater-trans _ _ e v w later later')

  reported-IsReported :
      (c : KHit) (flag result n : ℕ) (e v : MdsTraceEvent) (old : Option MdsTraceEvent)
      (rb : List MdsTraceEvent)
      → flag ≢ 0
      → c.has_room ≡ true
      → old ≡ some v
      → IsLater n e v
      → IsReported c result n e rb (reported c (replied flag result) old rb)
  unfolding safe_reply
  reported-IsReported c flag result n e v none rb nonzero room found later = cc
  reported-IsReported c flag result n e v (some w) rb nonzero room found later =
      let same : v ≡ w = cc in
      record {
        event = safe_reply c.now result w;
        newest = ground arith;
        later = safe-IsLater c.now result n e w (subst (IsLater n e) same later);
        safe = refl;
        at = refl;
        result_is = refl;
      }

  Lifecycle-IsReported :
      (c : KHit) (flag result n : ℕ) (e v : MdsTraceEvent) (s u : MdsSide k)
      (target : Option (RequestKey × Reaction))
      → flag ≢ 0
      → c.has_room ≡ true
      → pending k s key ≡ some v
      → IsLater n e v
      → target ≡ some (key, replied flag result)
      → Lifecycle k c s u target
      → IsReported c result n e s.mds_rb u.mds_rb
  Lifecycle-IsReported c flag result n e v s u target nonzero room found later aim f =
      let g = subst (Lifecycle k c s u) aim f in
      subst (IsReported c result n e s.mds_rb) (sym g.emitted) (
        reported-IsReported c flag result n e v (pending k s key) s.mds_rb nonzero room found later)

  -- A pending request, any hits none of which is a safe reply to it, and then a safe reply to it for
  -- which the ring buffer has room: the reply submits the event of the request, with the client, the
  -- tid, the time of submission, the operation, the process, the rank and the path that it had at
  -- first, the time and the result of the reply, and one more attempt for each time that the hits
  -- sent it again, modulo 2 ^ 32.
  pub pending_request-IsReported :
      (hits : List (MdsProbe × KHit)) (s : MdsSide k) (e : MdsTraceEvent) (p : MdsProbe) (c : KHit)
      (flag result : ℕ)
      → pending k s key ≡ some e
      → e.attempts < u32_mod
      → All (λ h. NotLast key (mds_target h.0 h.1)) hits
      → mds_target p c ≡ some (key, replied flag result)
      → flag ≢ 0
      → c.has_room ≡ true
      → let before = mds_run k hits s in
        IsReported c result
          (resends k.base.same_key key hits)
          e
          before.mds_rb
          (mds_step k p c before).mds_rb
  pending_request-IsReported hits s e p c flag result found small last aim nonzero room =
      let (v, found', later) = run-Remains hits s e small last found in
      Lifecycle-IsReported c flag result _ e v _ _ (mds_target p c) nonzero room found' later aim
        (mds_step-Lifecycle k p c (mds_run k hits s))
