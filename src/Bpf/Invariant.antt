-- ===== src/Bpf/Invariant.antt =====
-- What holds of the tracer's state at time t, and the rules by which the probes keep it.
pub mod Queue
pub mod Store
pub mod Reply
pub mod Notes
use cephtrace.Base.{
  ℕ, ◌+◌, ◌≤◌, ◌≡◌, arith, refl, sym, subst, some, List, [], ◌∷◌, All, true, false, if◌then◌else◌,
}
use cephtrace.Bpf.Types.{OpKey, OpValue}
use cephtrace.Bpf.Maps.{Entries, Entries-delete, Entries-write, Entries-update}
use cephtrace.Bpf.Tracer.{
  Hit, Config, Kernel, Tracer, Event, op_event, bluestore_event, submit, count_rb_drop,
}
use cephtrace.Bpf.Fetch.{read_hprobe_varfield}
use cephtrace.Bpf.Queue.{require, or_zero, find_op, write_op, delete_op, with_key}
use cephtrace.Bpf.Rules.{require_rule, if_rule}
use cephtrace.Bpf.Entry.{HasStages, IsTracked, IsTracked-mono}

-- An emitted op has its stages in order, up to its reply, and the reply is no later than t.
abbrev pub IsEmitted : ℕ → Event → Type 0
IsEmitted t (op_event v) = HasStages v.reply_stamp v × (v.reply_stamp ≤ t)
IsEmitted t (bluestore_event v) = Unit {0}

IsEmitted-mono : (t u : ℕ) (e : Event) → t ≤ u → IsEmitted t e → IsEmitted u e
IsEmitted-mono t u (op_event v) h p = (p.0, omega arith)
IsEmitted-mono t u (bluestore_event v) h p = tt

All-IsEmitted-mono :
    (t u : ℕ) (es : List Event) → t ≤ u → All (IsEmitted t) es → All (IsEmitted u) es
All-IsEmitted-mono t u [] h p = tt
All-IsEmitted-mono t u (e ∷ es) h p = (IsEmitted-mono t u e h p.0, All-IsEmitted-mono t u es h p.1)

pub record Inv (k : Kernel) (t : ℕ) (s : Tracer k) : Type 0 where
  pub tracked : Entries k.ops (IsTracked t) s.ops
  pub emitted : All (IsEmitted t) s.rb

module _ (k : Kernel) (t : ℕ) where
  pub Inv-mono : (u : ℕ) (s : Tracer k) → t ≤ u → Inv k t s → Inv k u s
  Inv-mono u s h p = record {
    tracked = λ key v e. IsTracked-mono t u key v h (p.tracked key v e);
    emitted = All-IsEmitted-mono t u s.rb h p.emitted;
  }

  pub Inv-write :
      (s : Tracer k) (key : OpKey) (v w : OpValue)
      → find_op k s key ≡ some v
      → IsTracked t key w
      → Inv k t s
      → Inv k t (write_op k s key w)
  Inv-write s key v w e q p = record {
    tracked = Entries-write k.ops s.ops key w v e q p.tracked;
    emitted = p.emitted;
  }

  pub Inv-delete : (s : Tracer k) (key : OpKey) → Inv k t s → Inv k t (delete_op k s key)
  Inv-delete s key p = record {
    tracked = Entries-delete k.ops s.ops key p.tracked;
    emitted = p.emitted;
  }

  pub Inv-submit :
      (c : Hit) (e : Event) (s : Tracer k) → IsEmitted t e → Inv k t s → Inv k t (submit c e s)
  Inv-submit c e s q p =
      if_rule (Inv k t) c.has_room _ _
        (λ _. record { tracked = p.tracked; emitted = (q, p.emitted) })
        (λ _. record { tracked = p.tracked; emitted = p.emitted })

  -- The invariant reads `ops` and `rb` alone.
  pub Inv-same : (s u : Tracer k) → u.ops ≡ s.ops → u.rb ≡ s.rb → Inv k t s → Inv k t u
  Inv-same s u o r p = record {
    tracked = subst (Entries k.ops (IsTracked t)) (sym o) p.tracked;
    emitted = subst (All (IsEmitted t)) (sym r) p.emitted;
  }

  -- The guards that read the key of an op.
  pub with_key_rule :
      (g : Config) (c : Hit) (varid : ℕ) (s : Tracer k) (f : OpKey → Tracer k)
      → Inv k t s
      → ((key : OpKey) → Inv k t (f key))
      → Inv k t (with_key k g c varid s f)
  with_key_rule g c varid s f p next =
      require_rule (Inv k t) (read_hprobe_varfield g c (varid + 1) 8) _ _ p λ tid _. next _

  -- An entry is found, and the probe assigns to it.
  pub Inv-edit :
      (s : Tracer k) (key : OpKey) (f : OpValue → OpValue)
      → ((v : OpValue) → IsTracked t key v → IsTracked t key (f v))
      → Inv k t s
      → Inv k t (require (find_op k s key) s (λ v. write_op k s key (f v)))
  Inv-edit s key f keep p =
      require_rule (Inv k t) (find_op k s key) _ _ p
        λ v found. Inv-write s key v (f v) found (keep v (p.tracked key v found)) p
