-- ===== src/Rados/Effects.antt =====
-- What the end of a client op does to the map and the ring buffer.
use mathlib.Core.Logic.{ite, if_pos, if_neg}
use cephtrace.Base.{◌≡◌, ◌≢◌, arith, refl, ◌∙◌, Option, none, some, ◌∷◌, if◌then◌else◌, ◌==◌}
use cephtrace.Bpf.Tracer.{Hit}
use cephtrace.Bpf.Fetch.{fetch_register}
use cephtrace.Bpf.Rules.{require_some, require_none, if_rule}
use cephtrace.Rados.Types.{ClientOpKey, ClientOpValue, ClientConfig, ClientOps, Client}
use cephtrace.Rados.Probes.{client_key, uprobe_finish_op}

-- The entry is gone, no other has changed, and the op, with its finish stamp, has become an event if
-- the ring buffer has room.
pub record Finished (k : ClientOps) (c : Hit) (key : ClientOpKey) (v : ClientOpValue)
    (s u : Client k) : Type 0 where
  pub drops : (j : ClientOpKey) → k.lookup u.ops j ≡ ite (k.same_key j key) none (k.lookup s.ops j)
  pub sent : u.rb ≡ (if c.has_room then record v { finish_stamp = c.now } ∷ s.rb else s.rb)

-- After `uprobe_finish_op`, by the entry that it found.
abbrev pub FinishOutcome :
    (k : ClientOps) → Hit → ClientOpKey → Client k → Client k → Option ClientOpValue → Type 0
FinishOutcome k c key s u none = u ≡ s
FinishOutcome k c key s u (some v) = Finished k c key v s u

-- The key of the op that ends.
abbrev pub finish_key : ClientConfig → Hit → ClientOpKey
finish_key g c = client_key g c (fetch_register c.regs g.fin_op_reg) g.fin_this_reg

module _ (k : ClientOps) (g : ClientConfig) (c : Hit) (s : Client k) where
  write-delete-lookup :
      (key j : ClientOpKey) (w : ClientOpValue)
      → k.lookup (k.delete (k.write s.ops key w) key) j
        ≡ ite (k.same_key j key) none (k.lookup s.ops j)
  write-delete-lookup key j w = elim (k.same_key j key) [
    | yes e ↦ rw (if_pos _ e) (rw e (k.lookup-delete_self _ key))
    | no n ↦ rw (if_neg _ n) (k.lookup-delete_ne _ key j n ∙ k.lookup-write_ne s.ops key j w n)
  ]

  finish_outcome :
      (old : Option ClientOpValue)
      → fetch_register c.regs g.fin_op_reg ≢ 0
      → k.lookup s.ops (finish_key g c) ≡ old
      → FinishOutcome k c (finish_key g c) s (uprobe_finish_op k g c s) old
  unfolding uprobe_finish_op
  finish_outcome none op found =
      let P = λ (u : Client k). u ≡ s in
      if_rule P (fetch_register c.regs g.fin_op_reg == 0) _ _ (λ _. refl)
        λ _. require_none P _ _ _ found refl
  finish_outcome (some v) op found =
      let P = Finished k c (finish_key g c) v s in
      if_rule P (fetch_register c.regs g.fin_op_reg == 0) _ _ (λ e. absurd (ground arith))
        λ _.
          require_some P _ v _ _ found
            (record { drops = λ j. write-delete-lookup (finish_key g c) j _; sent = refl })

  -- The end of an op whose address is not null: if the op was sent, its entry becomes an event with
  -- the finish stamp, or is lost if the ring buffer is full, and is gone in both cases; if it was
  -- not, the state is unchanged. No other entry changes.
  pub finish_op_effect :
      fetch_register c.regs g.fin_op_reg ≢ 0
      → FinishOutcome k c
          (finish_key g c)
          s
          (uprobe_finish_op k g c s)
          (k.lookup s.ops (finish_key g c))
  finish_op_effect op = finish_outcome _ op refl
