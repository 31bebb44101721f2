-- ===== src/Kfs/Mds/Lifecycle.antt =====
-- The life of an MDS request in the tracker, as a transition system on the entry of one request.
use cephtrace.Base.{
  ℕ, ◌≡◌, ◌≢◌, inl, inr, refl, sym, subst, ◌∙◌, arith, List, ◌∷◌, Option, none, some, ◌==◌,
  if◌then◌else◌, Option-cases,
}
use cephtrace.Bpf.Rules.{require_some, require_none, require_cases, if_rule}
use cephtrace.Bpf.Maps.{updated_value}
use cephtrace.Kfs.Types.{RequestKey, MdsTraceEvent, zero_mds_event, KHit, HashMap, MdsSide}
use cephtrace.Kfs.Mds.{
  fill_mds_request, mds_retried, safe_reply, unsafe_reply, track_mds_request, acknowledge,
  finish_request, handle_reply,
}
use cephtrace.Kfs.Mds.Target.{Reaction, sent, replied, mds_target, react, step-react}
use cephtrace.Kfs.Run.{MdsProbe, mds_step}

-- What a hit that names a request may do to its entry. A new entry is written, unless the map is
-- full; a resend counts; an unsafe reply is noted; a safe one ends the tracking.
pub data Transition (c : KHit) (key : RequestKey)
    : Reaction → Option MdsTraceEvent → Option MdsTraceEvent → Type 0 where
  refused : (op mds_rank : ℕ) → Transition c key (sent op mds_rank) none none
  tracked :
      (op mds_rank : ℕ)
      → Transition c key
          (sent op mds_rank)
          none
          (some (fill_mds_request c c.parm2 key op mds_rank zero_mds_event))
  resent :
      (op mds_rank : ℕ) (e : MdsTraceEvent)
      → Transition c key (sent op mds_rank) (some e) (some (mds_retried e))
  unknown : (flag result : ℕ) → Transition c key (replied flag result) none none
  acknowledged :
      (flag result : ℕ) (e : MdsTraceEvent)
      → flag ≡ 0
      → Transition c key (replied flag result) (some e) (some (unsafe_reply c.now result e))
  finished :
      (flag result : ℕ) (e : MdsTraceEvent)
      → flag ≢ 0
      → Transition c key (replied flag result) (some e) none

-- The ring buffer after a hit that names a request with the entry e: only a safe reply adds an event.
abbrev pub reported :
    KHit → Reaction → Option MdsTraceEvent → List MdsTraceEvent → List MdsTraceEvent
reported c (sent op mds_rank) o rb = rb
reported c (replied flag result) none rb = rb
reported c (replied flag result) (some e) rb =
    if flag == 0 then rb else if c.has_room then safe_reply c.now result e ∷ rb else rb

module _ (k : HashMap RequestKey MdsTraceEvent) where
  abbrev pub pending : MdsSide k → RequestKey → Option MdsTraceEvent
  pending s j = k.base.lookup s.pending_mds_requests j

  -- The step of the state is the transition of the entry that the hit names, and no other entry
  -- changes; the ring buffer gets the event of a request that has ended.
  pub record Follows (c : KHit) (key : RequestKey) (r : Reaction) (s u : MdsSide k) : Type 0 where
    pub named : Transition c key r (pending s key) (pending u key)
    pub others : (j : RequestKey) → j ≢ key → pending u j ≡ pending s j
    pub emitted : u.mds_rb ≡ reported c r (pending s key) s.mds_rb

  abbrev pub Lifecycle : KHit → MdsSide k → MdsSide k → Option (RequestKey × Reaction) → Type 0
  Lifecycle c s u none = u ≡ s
  Lifecycle c s u (some (key, r)) = Follows c key r s u

  module _ (c : KHit) (key : RequestKey) (s : MdsSide k) where
    fresh-others :
        (v : MdsTraceEvent) (j : RequestKey)
        → j ≢ key
        → k.base.lookup
            (k.base.write (k.base.update s.pending_mds_requests key zero_mds_event) key v)
            j
          ≡ pending s j
    fresh-others v j n =
        k.base.lookup-write_ne _ key j v n
        ∙ k.no_eviction s.pending_mds_requests key j zero_mds_event n

    track-fresh :
        (op mds_rank : ℕ)
        → pending s key ≡ none
        → Follows c key (sent op mds_rank) s (track_mds_request k c key op mds_rank s)
    unfolding track_mds_request
    track-fresh op mds_rank gone =
        let P = Follows c key (sent op mds_rank) s in
        let m = k.base.update s.pending_mds_requests key zero_mds_event in
        let step : Option MdsTraceEvent → Option MdsTraceEvent → Type 0 =
          λ o n. Transition c key (sent op mds_rank) o n in
        require_none P _ _ _ gone (
          require_cases P (k.base.lookup m key) _ _
            (λ full. record {
              named =
                  subst (λ o. step o (k.base.lookup m key)) (sym gone)
                    (subst (step none) (sym full) (refused op mds_rank));
              others = λ j n. k.no_eviction s.pending_mds_requests key j zero_mds_event n;
              emitted = refl;
            })
            λ e found.
              let zero : zero_mds_event ≡ e =
                updated_value k.base s.pending_mds_requests key zero_mds_event e
                  (k.base.lookup-update_self s.pending_mds_requests key zero_mds_event) found in
              let v = fill_mds_request c c.parm2 key op mds_rank in
              record {
                named =
                    subst (λ o. step o (k.base.lookup (k.base.write m key (v e)) key)) (sym gone)
                      (subst (step none) (sym (k.base.lookup-write_self m key (v e) e found))
                        (subst (λ z. step none (some (v z))) zero (tracked op mds_rank)));
                others = fresh-others (v e);
                emitted = refl;
              })

    module _ (e : MdsTraceEvent) (found : pending s key ≡ some e) where
      -- An entry that is there and the one that takes its place.
      moved :
          (r : Reaction) (new now : Option MdsTraceEvent)
          → Transition c key r (some e) new
          → now ≡ new
          → Transition c key r (pending s key) now
      moved r new now t e' =
          subst (λ o. Transition c key r o now) (sym found)
            (subst (Transition c key r (some e)) (sym e') t)

      track-resent :
          (op mds_rank : ℕ)
          → Follows c key (sent op mds_rank) s (track_mds_request k c key op mds_rank s)
      unfolding track_mds_request
      track-resent op mds_rank =
          require_some (Follows c key (sent op mds_rank) s) _ e _ _ found (record {
            named =
                moved (sent op mds_rank) (some (mds_retried e)) _ (resent op mds_rank e)
                  (k.base.lookup-write_self s.pending_mds_requests key (mds_retried e) e found);
            others = λ j n. k.base.lookup-write_ne s.pending_mds_requests key j (mds_retried e) n;
            emitted = refl;
          })

      acknowledge-pending : (v : MdsTraceEvent) → pending (acknowledge k c key v s) key ≡ some v
      unfolding acknowledge
      acknowledge-pending v =
          let written = k.base.lookup-write_self s.pending_mds_requests key v e found in
          elim (k.lookup-update_exist_self _ key v v written) [ inl h ↦ h | inr h ↦ h ]

      acknowledge-others :
          (v : MdsTraceEvent) (j : RequestKey)
          → j ≢ key
          → pending (acknowledge k c key v s) j ≡ pending s j
      unfolding acknowledge
      acknowledge-others v j n =
          k.lookup-update_exist_ne _ key j v n ∙ k.base.lookup-write_ne _ key j v n

      finish-pending : (v : MdsTraceEvent) → pending (finish_request k c key v s) key ≡ none
      unfolding finish_request
      finish-pending v = k.base.lookup-delete_self _ key

      finish-others :
          (v : MdsTraceEvent) (j : RequestKey)
          → j ≢ key
          → pending (finish_request k c key v s) j ≡ pending s j
      unfolding finish_request
      finish-others v j n = k.base.lookup-delete_ne _ key j n ∙ k.base.lookup-write_ne _ key j v n

      acknowledge-reported :
          (flag result : ℕ)
          → flag ≡ 0
          → (acknowledge k c key (unsafe_reply c.now result e) s).mds_rb
            ≡ reported c (replied flag result) (pending s key) s.mds_rb
      unfolding acknowledge
      acknowledge-reported flag result z = rw found (ground arith)

      finish-reported :
          (flag result : ℕ)
          → flag ≢ 0
          → (finish_request k c key (safe_reply c.now result e) s).mds_rb
            ≡ reported c (replied flag result) (pending s key) s.mds_rb
      unfolding finish_request
      finish-reported flag result n = rw found (ground arith)

      acknowledge-Follows :
          (flag result : ℕ)
          → flag ≡ 0
          → Follows c key
              (replied flag result)
              s
              (acknowledge k c key (unsafe_reply c.now result e) s)
      acknowledge-Follows flag result z = record {
        named =
            moved (replied flag result) _ _ (acknowledged flag result e z) (acknowledge-pending _);
        others = acknowledge-others _;
        emitted = acknowledge-reported flag result z;
      }

      finish-Follows :
          (flag result : ℕ)
          → flag ≢ 0
          → Follows c key
              (replied flag result)
              s
              (finish_request k c key (safe_reply c.now result e) s)
      finish-Follows flag result n = record {
        named = moved (replied flag result) _ _ (finished flag result e n) (finish-pending _);
        others = finish-others _;
        emitted = finish-reported flag result n;
      }

      reply-Follows :
          (flag result : ℕ)
          → Follows c key (replied flag result) s (handle_reply k c key e flag result s)
      reply-Follows flag result =
          if_rule (Follows c key (replied flag result) s) (flag == 0) _ _
            (λ h. acknowledge-Follows flag result (ground arith))
            (λ h. finish-Follows flag result (ground arith))

  react-Lifecycle :
      (c : KHit) (s : MdsSide k) (target : Option (RequestKey × Reaction))
      → Lifecycle c s (react k c s target) target
  unfolding react
  react-Lifecycle c s none = refl
  react-Lifecycle c s (some (key, sent op mds_rank)) = elim (Option-cases (pending s key)) [
    | inl gone ↦ track-fresh c key s op mds_rank gone
    | inr (e, found) ↦ track-resent c key s e found op mds_rank
  ]
  react-Lifecycle c s (some (key, replied flag result)) =
      require_cases (Follows c key (replied flag result) s) (pending s key) _ _
        (λ gone. record {
          named =
              subst (λ o. Transition c key (replied flag result) o o) (sym gone)
                (unknown flag result);
          others = λ j n. refl;
          emitted =
              subst (λ o. s.mds_rb ≡ reported c (replied flag result) o s.mds_rb) (sym gone) refl;
        })
        λ e found. reply-Follows c key s e found flag result

  -- Every step of the tracker of MDS requests: a hit that names no request changes nothing; of a
  -- request that it names, the entry makes one of the transitions (an unknown request is tracked or,
  -- if the map is full, refused; a known one counts a resend, notes an unsafe reply, or ends with a
  -- safe reply), the entries of all other requests stay as they are, and the ring buffer gets one
  -- event if the reply is safe and there is room, and none otherwise.
  pub mds_step-Lifecycle :
      (p : MdsProbe) (c : KHit) (s : MdsSide k) → Lifecycle c s (mds_step k p c s) (mds_target p c)
  mds_step-Lifecycle p c s =
      subst (λ u. Lifecycle c s u (mds_target p c)) (sym (step-react k p c s))
        (react-Lifecycle c s (mds_target p c))
