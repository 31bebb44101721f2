-- ===== src/Select/Args/Modes.antt =====
-- The modes that the command line can choose, and that the probes attached and the events handled in
-- them agree.
use cephtrace.Base.{
  ℕ, ◌-◌, ◌≡◌, ◌⊎◌, inl, inr, refl, sym, subst, arith, Bool, false, not, ◌&&◌, ◌||◌, List, [], ◌∷◌,
  Option, none, some, ◌==◌, any, same_bytes, codes, minus_one, u32_mod, bit_and, All,
}
use Prim.Native.Nat.{bit_or}
use cephtrace.Bpf.Queue.{require}
use cephtrace.Bpf.Rules.{require_rule, if_rule}
use cephtrace.Select.Process.{insert}
use cephtrace.Select.OsdId.{stoi}
use cephtrace.Select.Args.{
  op_single_probe, op_full_probe, bluestore_probe, skip_version_check, list, list_embedded, version,
  all, single, bluestore, usage, no_argument, id, latency, json_out, json_in, timeout, pid, Opt,
  Settings, initial_settings, ArgsResult, proceeds, fails, throws, exits, insert_ids, insert_pids,
  apply_opt, and_then, parse_args, AttachEntry, is_enabled, enabled_probes, is_negative,
  comma_tokens,
}
use cephtrace.Report.Events.{handles_op, handles_bluestore}

-- The modes that options lead to: single or full, with or without BlueStore.
abbrev pub modes : List ℕ
modes = 1 ∷ 2 ∷ 5 ∷ 6 ∷ []

abbrev pub IsMode : ℕ → Type 0
IsMode m = (m ≡ 1) ⊎ ((m ≡ 2) ⊎ ((m ≡ 5) ⊎ (m ≡ 6)))

-- The settings that the program goes on with.
pub record IsValid (s : Settings) : Type 0 where
  pub mode : IsMode s.probe_mode
  pub ids : All (λ i. is_negative i ≡ false) s.requested_osd_ids
  pub time : (s.timeout_s ≡ minus_one) ⊎ ((s.timeout_s == 0 || is_negative s.timeout_s) ≡ false)

-- A result that goes on does so with valid settings.
abbrev GoesOn : ArgsResult → Type 0
GoesOn (proceeds s) = IsValid s
GoesOn fails = Unit {0}
GoesOn throws = Unit {0}
GoesOn (exits code) = Unit {0}

insert-All : (P : ℕ → Type 0) (n : ℕ) (ms : List ℕ) → P n → All P ms → All P (insert n ms)
unfolding insert
insert-All P n [] p h = (p, tt)
insert-All P n (m ∷ ms) p (h, hs) = ground (arith, insert-All P n ms p hs)

abbrev AllPlain : Option (List ℕ) → Type 0
AllPlain none = Unit {0}
AllPlain (some ids) = All (λ i. is_negative i ≡ false) ids

insert_ids-AllPlain :
    (tokens : List (List ℕ)) (ids : List ℕ)
    → All (λ i. is_negative i ≡ false) ids
    → AllPlain (insert_ids tokens ids)
unfolding insert_ids
insert_ids-AllPlain [] ids h = h
insert_ids-AllPlain (token ∷ tokens) ids h = require_rule AllPlain (stoi token) none _ tt λ i e.
    if_rule AllPlain (is_negative i) _ _ (λ _. tt)
      λ n. insert_ids-AllPlain tokens (insert i ids) (insert-All _ i ids n h)

-- What -s and -b do to a mode.
single-IsMode :
    (m : ℕ) → IsMode m → IsMode (bit_or (bit_and m (u32_mod - 1 - op_full_probe)) op_single_probe)
single-IsMode m (inl e) = rw e (inl refl)
single-IsMode m (inr (inl e)) = rw e (inl refl)
single-IsMode m (inr (inr (inl e))) = rw e (inr (inr (inl refl)))
single-IsMode m (inr (inr (inr e))) = rw e (inr (inr (inl refl)))

bluestore-IsMode : (m : ℕ) → IsMode m → IsMode (bit_or m bluestore_probe)
bluestore-IsMode m (inl e) = rw e (inr (inr (inl refl)))
bluestore-IsMode m (inr (inl e)) = rw e (inr (inr (inr refl)))
bluestore-IsMode m (inr (inr (inl e))) = rw e (inr (inr (inl refl)))
bluestore-IsMode m (inr (inr (inr e))) = rw e (inr (inr (inr refl)))

module _ (s : Settings) (h : IsValid s) where
  -- Settings that differ in other fields only.
  same-IsValid :
      (u : Settings)
      → u.probe_mode ≡ s.probe_mode
      → u.requested_osd_ids ≡ s.requested_osd_ids
      → u.timeout_s ≡ s.timeout_s
      → IsValid u
  same-IsValid u e f g = record {
    mode = subst IsMode (sym e) h.mode;
    ids = subst (All (λ i. is_negative i ≡ false)) (sym f) h.ids;
    time = subst (λ t. (t ≡ minus_one) ⊎ ((t == 0 || is_negative t) ≡ false)) (sym g) h.time;
  }

  id-GoesOn : (arg : List ℕ) → GoesOn (apply_opt (id arg) s)
  unfolding apply_opt
  id-GoesOn arg = by_ids (insert_ids (comma_tokens [] arg) s.requested_osd_ids) refl
    where
      by_ids :
          (o : Option (List ℕ))
          → insert_ids (comma_tokens [] arg) s.requested_osd_ids ≡ o
          → GoesOn (require o fails (λ ids. proceeds (record s { requested_osd_ids = ids })))
      by_ids none e = tt
      by_ids (some ids) e = record {
        mode = h.mode;
        ids =
            subst AllPlain e (insert_ids-AllPlain (comma_tokens [] arg) s.requested_osd_ids h.ids);
        time = h.time;
      }

  timeout-GoesOn : (arg : List ℕ) → GoesOn (apply_opt (timeout arg) s)
  unfolding apply_opt
  timeout-GoesOn arg = require_rule GoesOn (stoi arg) (exits 1) _ tt λ t _.
      if_rule GoesOn (t == 0 || is_negative t) _ _ (λ _. tt)
        λ e. record { mode = h.mode; ids = h.ids; time = inr e }

  apply_opt-GoesOn : (opt : Opt) → GoesOn (apply_opt opt s)
  unfolding apply_opt
  apply_opt-GoesOn skip_version_check = same-IsValid _ refl refl refl
  apply_opt-GoesOn list = same-IsValid _ refl refl refl
  apply_opt-GoesOn list_embedded = same-IsValid _ refl refl refl
  apply_opt-GoesOn version = tt
  apply_opt-GoesOn all = same-IsValid _ refl refl refl
  apply_opt-GoesOn single = record {
    mode = single-IsMode s.probe_mode h.mode;
    ids = h.ids;
    time = h.time;
  }
  apply_opt-GoesOn bluestore = record {
    mode = bluestore-IsMode s.probe_mode h.mode;
    ids = h.ids;
    time = h.time;
  }
  apply_opt-GoesOn usage = tt
  apply_opt-GoesOn no_argument = tt
  apply_opt-GoesOn (id arg) = id-GoesOn arg
  apply_opt-GoesOn (latency arg) =
      require_rule GoesOn (stoi arg) throws _ tt (λ ms _. same-IsValid _ refl refl refl)
  apply_opt-GoesOn (json_out arg) = same-IsValid _ refl refl refl
  apply_opt-GoesOn (json_in arg) = same-IsValid _ refl refl refl
  apply_opt-GoesOn (timeout arg) = timeout-GoesOn arg
  apply_opt-GoesOn (pid arg) =
      require_rule GoesOn (insert_pids (comma_tokens [] arg) s.process_ids) fails _ tt
        (λ pids _. same-IsValid _ refl refl refl)

and_then-GoesOn :
    (r : ArgsResult) (f : Settings → ArgsResult)
    → GoesOn r
    → ((s : Settings) → IsValid s → GoesOn (f s))
    → GoesOn (and_then r f)
and_then-GoesOn (proceeds s) f h g = g s h
and_then-GoesOn fails f h g = tt
and_then-GoesOn throws f h g = tt
and_then-GoesOn (exits code) f h g = tt

parse_args-GoesOn : (opts : List Opt) (s : Settings) → IsValid s → GoesOn (parse_args opts s)
unfolding parse_args
parse_args-GoesOn [] s h = h
parse_args-GoesOn (opt ∷ opts) s h =
    and_then-GoesOn (apply_opt opt s) (parse_args opts) (apply_opt-GoesOn s h opt)
      (λ u. parse_args-GoesOn opts u)

-- The probes that submit events of ops, and of BlueStore's latencies.
abbrev pub submits_op : AttachEntry → Bool
submits_op e =
    same_bytes e.func (codes "PrimaryLogPG::log_op_stats")
    || same_bytes e.func (codes "ReplicatedBackend::repop_commit")

abbrev pub submits_bluestore : AttachEntry → Bool
submits_bluestore e =
    same_bytes e.func (codes "BlueStore::log_latency")
    || same_bytes e.func (codes "BlueStore::log_latency_fn")

-- The guards that an op event passes before it is reported.
abbrev pub reports_op : ℕ → Bool
reports_op mode =
    handles_op mode && (mode == op_single_probe || not (bit_and mode op_full_probe == 0))

-- Events of either kind are reported exactly if a probe that submits them is attached.
pub record Agrees (mode : ℕ) : Type 0 where
  pub op_events : any submits_op (enabled_probes mode) ≡ reports_op mode
  pub bluestore_events : any submits_bluestore (enabled_probes mode) ≡ handles_bluestore mode

mode-Agrees : (m : ℕ) → IsMode m → Agrees m
unfolding is_enabled handles_op handles_bluestore
mode-Agrees m (inl e) = rw e (record { op_events = refl; bluestore_events = refl })
mode-Agrees m (inr (inl e)) = rw e (record { op_events = refl; bluestore_events = refl })
mode-Agrees m (inr (inr (inl e))) = rw e (record { op_events = refl; bluestore_events = refl })
mode-Agrees m (inr (inr (inr e))) = rw e (record { op_events = refl; bluestore_events = refl })

-- If the command line is accepted, the mode is single or full, with or without BlueStore, the OSD ids
-- are not negative, and the timeout is positive or not set; and in that mode op events are reported
-- exactly if a probe that submits them is attached, and so are BlueStore's.
pub parse_args-IsValid :
    (opts : List Opt) (s : Settings)
    → parse_args opts initial_settings ≡ proceeds s
    → IsValid s × Agrees s.probe_mode
parse_args-IsValid opts s e =
    let initial : IsValid initial_settings = record {
      mode = inr (inl refl);
      ids = tt;
      time = inl refl;
    } in
    let valid : IsValid s = subst GoesOn e (parse_args-GoesOn opts initial_settings initial) in
    (valid, mode-Agrees s.probe_mode valid.mode)
