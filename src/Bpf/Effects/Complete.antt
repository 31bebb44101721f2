-- ===== src/Bpf/Effects/Complete.antt =====
-- The probes that complete an op: one event or one counted loss for an op that is tracked, and
-- nothing for any other.
use mathlib.Core.Logic.{ite, if_pos, if_neg}
use cephtrace.Base.{ℕ, ◌+◌, ◌≡◌, arith, refl, ◌∙◌, Option, none, some, ◌∷◌, if◌then◌else◌}
use cephtrace.Bpf.Types.{OpKey, OpValue}
use cephtrace.Bpf.Tracer.{Hit, Config, Kernel, Tracer, op_event, submit}
use cephtrace.Bpf.Fetch.{read_hprobe_varfield}
use cephtrace.Bpf.Queue.{find_op, write_op, delete_op, key_read}
use cephtrace.Bpf.Reply.{complete, repop_name, uprobe_log_op_stats, uprobe_repop_commit}
use cephtrace.Bpf.Rules.{require_some, require_none}

-- The entry under the key is gone, and every other is as it was.
abbrev pub Drops : (k : Kernel) → OpKey → Tracer k → Tracer k → Type 0
Drops k key s u = (j : OpKey) → find_op k u j ≡ ite (k.ops.same_key j key) none (find_op k s j)

-- The entry under the key has become the event w: submitted if the ring buffer has room, and
-- counted as dropped if not.
pub record Answered (k : Kernel) (c : Hit) (key : OpKey) (w : OpValue) (s u : Tracer k)
    : Type 0 where
  pub drops : Drops k key s u
  pub sent : u.rb ≡ (if c.has_room then op_event w ∷ s.rb else s.rb)
  pub lost : u.rb_drops ≡ (if c.has_room then s.rb_drops else s.rb_drops + 1)

-- Nothing is emitted, and no entry is left under the key.
pub record Ignored (k : Kernel) (key : OpKey) (s u : Tracer k) : Type 0 where
  pub drops : Drops k key s u
  pub silent : (u.rb ≡ s.rb) × (u.rb_drops ≡ s.rb_drops)

module _ (k : Kernel) where
  delete-Drops : (key : OpKey) (s : Tracer k) → Drops k key s (delete_op k s key)
  delete-Drops key s j = elim (k.ops.same_key j key) [
    | yes e ↦ rw (if_pos _ e) (rw e (k.ops.lookup-delete_self s.ops key))
    | no n ↦ rw (if_neg _ n) (k.ops.lookup-delete_ne s.ops key j n)
  ]

  write-delete-Drops :
      (key : OpKey) (w : OpValue) (s : Tracer k)
      → Drops k key s (delete_op k (write_op k s key w) key)
  write-delete-Drops key w s j = elim (k.ops.same_key j key) [
    | yes e ↦ rw (if_pos _ e) (rw e (k.ops.lookup-delete_self _ key))
    | no n ↦
        rw (if_neg _ n) (k.ops.lookup-delete_ne _ key j n ∙ k.ops.lookup-write_ne s.ops key j w n)
  ]

  delete-Ignored : (key : OpKey) (s : Tracer k) → Ignored k key s (delete_op k s key)
  delete-Ignored key s = record { drops = delete-Drops key s; silent = (refl, refl) }

module _ (k : Kernel) (c : Hit) where
  submit-ops : (w : OpValue) (s : Tracer k) → (submit c (op_event w) s).ops ≡ s.ops
  submit-ops w s = ground arith

  complete-Answered :
      (key : OpKey) (w : OpValue) (s : Tracer k) → Answered k c key w s (complete k c key w s)
  complete-Answered key w s = record {
    drops = λ j. rw (submit-ops w (write_op k s key w)) (write-delete-Drops k key w s j);
    sent = ground arith;
    lost = ground arith;
  }

-- After `uprobe_log_op_stats`, by the entry that it found.
abbrev pub OpOutcome : (k : Kernel) → Hit → OpKey → Tracer k → Tracer k → Option OpValue → Type 0
OpOutcome k c key s u none = Ignored k key s u
OpOutcome k c key s u (some v) =
    Answered k c key (record v { reply_stamp = c.now; wb = c.parm3; rb = c.parm4 }) s u

-- After `uprobe_repop_commit`, by the entry that it found and the length that it read.
abbrev pub RepopOutcome :
    (k : Kernel) → Config → Hit → OpKey → Tracer k → Tracer k → Option OpValue → Option ℕ → Type 0
RepopOutcome k g c key s u none len = u ≡ s
RepopOutcome k g c key s u (some v) none = Ignored k key s u
RepopOutcome k g c key s u (some v) (some len) =
    Answered k c key (repop_name g c (record v { wb = len; reply_stamp = c.now })) s u

module _ (k : Kernel) (g : Config) (c : Hit) (s : Tracer k) (tid : ℕ) where
  op_outcome :
      (old : Option OpValue)
      → read_hprobe_varfield g c 91 8 ≡ some tid
      → find_op k s (key_read g c 90 tid) ≡ old
      → OpOutcome k c (key_read g c 90 tid) s (uprobe_log_op_stats k g c s) old
  unfolding uprobe_log_op_stats
  op_outcome none read found =
      let P = Ignored k (key_read g c 90 tid) s in
      require_some P _ tid _ _ read (require_none P _ _ _ found (delete-Ignored k _ s))
  op_outcome (some v) read found =
      let P =
        Answered k c (key_read g c 90 tid)
          (record v { reply_stamp = c.now; wb = c.parm3; rb = c.parm4 }) s in
      require_some P _ tid _ _ read (require_some P _ v _ _ found (complete-Answered k c _ _ s))

  -- A client op that completes, when its tid can be read: if it is tracked, its entry, with the
  -- sizes and the reply stamp set, becomes one event or one counted loss and is gone; if it is not,
  -- nothing is emitted. No other entry changes.
  pub log_op_stats_effect :
      read_hprobe_varfield g c 91 8 ≡ some tid
      → OpOutcome k c
          (key_read g c 90 tid)
          s
          (uprobe_log_op_stats k g c s)
          (find_op k s (key_read g c 90 tid))
  log_op_stats_effect read = op_outcome _ read refl

  repop_outcome :
      (old : Option OpValue) (len : Option ℕ)
      → read_hprobe_varfield g c 171 8 ≡ some tid
      → find_op k s (key_read g c 170 tid) ≡ old
      → read_hprobe_varfield g c 172 8 ≡ len
      → RepopOutcome k g c (key_read g c 170 tid) s (uprobe_repop_commit k g c s) old len
  unfolding uprobe_repop_commit
  repop_outcome none len read found sized =
      let P = λ (u : Tracer k). u ≡ s in
      require_some P _ tid _ _ read (require_none P _ _ _ found refl)
  repop_outcome (some v) none read found sized =
      let P = Ignored k (key_read g c 170 tid) s in
      require_some P _ tid _ _ read
        (require_some P _ v _ _ found (require_none P _ _ _ sized (delete-Ignored k _ s)))
  repop_outcome (some v) (some len) read found sized =
      let w : OpValue = repop_name g c (record v { wb = len; reply_stamp = c.now }) in
      let P = Answered k c (key_read g c 170 tid) w s in
      require_some P _ tid _ _ read (
        require_some P _ v _ _ found (require_some P _ len _ _ sized (complete-Answered k c _ w s)))

  -- A replica op that commits, when its tid can be read. If it is tracked and its length can be
  -- read, its entry, with the length, the reply stamp and the object's name set, becomes one event
  -- or one counted loss and is gone; if the length cannot be read, the entry is dropped and nothing
  -- emitted. If it is not tracked, the state is unchanged. No other entry changes.
  pub repop_commit_effect :
      read_hprobe_varfield g c 171 8 ≡ some tid
      → RepopOutcome k g c
          (key_read g c 170 tid)
          s
          (uprobe_repop_commit k g c s)
          (find_op k s (key_read g c 170 tid))
          (read_hprobe_varfield g c 172 8)
  repop_commit_effect read = repop_outcome _ _ read refl refl
