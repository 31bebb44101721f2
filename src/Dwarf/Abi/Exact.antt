-- ===== src/Dwarf/Abi/Exact.antt =====
-- The slots of parameters as long as the offsets do not wrap around.
use cephtrace.Base.{
  ℕ, ◌+◌, ◌*◌, ◌/◌, ◌<◌, ◌≡◌, refl, ◌∙◌, ap, arith, true, false, List, [], ◌∷◌, map, Option, none,
  ltb, if◌then◌else◌, u64_mod,
}
use cephtrace.Dwarf.Types.{Libdw}
use cephtrace.Dwarf.Abi.{
  AbiClass, integer, memory, unhandled, is_unhandled, round_up8, Slot, slot_of, regs_after,
  stack_after, Formal, param_slot, formal_of, classify_param,
}

-- The eightbytes of a parameter, without bounds.
unfoldable pub exact_round : ℕ → ℕ
exact_round size = (size + 7) / 8 * 8

abbrev pub exact_after : AbiClass → ℕ → ℕ → ℕ
exact_after integer int_regs_used stack_off =
    if ltb int_regs_used 6 then stack_off else stack_off + 8
exact_after (memory size) int_regs_used stack_off = stack_off + exact_round size
exact_after unhandled int_regs_used stack_off = stack_off

unfoldable pub exact_slot : List Formal → ℕ → ℕ → Option Slot
exact_slot [] int_regs_used stack_off = none
exact_slot (p ∷ ps) int_regs_used stack_off =
    let rest =
      exact_slot ps (regs_after p.class int_regs_used)
        (exact_after p.class int_regs_used stack_off) in
    if is_unhandled p.class
    then none
    else if p.is_target
    then slot_of p.class int_regs_used stack_off
    else rest

-- The most that parameters of these classes take of the stack.
abbrev pub frame_bytes : List AbiClass → ℕ
frame_bytes [] = 0
frame_bytes (integer ∷ cs) = 8 + frame_bytes cs
frame_bytes (memory size ∷ cs) = size + 7 + frame_bytes cs
frame_bytes (unhandled ∷ cs) = frame_bytes cs

-- A parameter that the loop passes by.
abbrev pub IsPassed : Formal → Type 0
IsPassed p = (is_unhandled p.class ≡ false) × (p.is_target ≡ false)

pub exact_slot-here :
    (p : Formal) (after : List Formal) (u m : ℕ)
    → is_unhandled p.class ≡ false
    → p.is_target ≡ true
    → exact_slot (p ∷ after) u m ≡ slot_of p.class u m
unfolding exact_slot
exact_slot-here p after u m h t = rw (h, t)

pub exact_slot-there :
    (p : Formal) (ps : List Formal) (u m : ℕ)
    → IsPassed p
    → exact_slot (p ∷ ps) u m ≡ exact_slot ps (regs_after p.class u) (exact_after p.class u m)
unfolding exact_slot
exact_slot-there p ps u m (h, t) = rw (h, t)

-- Below 2^64 nothing wraps around.
stack_after-exact :
    (c : AbiClass) (cs : List AbiClass) (u o : ℕ)
    → o + frame_bytes (c ∷ cs) < u64_mod
    → (stack_after c u o ≡ exact_after c u o) × (exact_after c u o + frame_bytes cs < u64_mod)
unfolding round_up8 exact_round
stack_after-exact integer cs u o h = (ground arith, ground arith)
stack_after-exact (memory size) cs u o h = (omega arith, omega arith)
stack_after-exact unhandled cs u o h = (refl, omega arith)

module _ (dw : Libdw) (fuel target_off : ℕ) where
  pub param_slot-exact :
      (ds : List dw.Die) (u o : ℕ)
      → o + frame_bytes (map (classify_param dw fuel) ds) < u64_mod
      → param_slot (map (formal_of dw fuel target_off) ds) u o
        ≡ exact_slot (map (formal_of dw fuel target_off) ds) u o
  unfolding param_slot exact_slot
  param_slot-exact [] u o h = refl
  param_slot-exact (d ∷ ds) u o h =
      let c = classify_param dw fuel d in
      let ps = map (formal_of dw fuel target_off) ds in
      let (same, bound) = stack_after-exact c (map (classify_param dw fuel) ds) u o h in
      let rest : param_slot ps (regs_after c u) (stack_after c u o)
          ≡ exact_slot ps (regs_after c u) (exact_after c u o) =
        ap (param_slot ps (regs_after c u)) same
        ∙ param_slot-exact ds (regs_after c u) (exact_after c u o) bound in
      ap
        (λ r.
          if is_unhandled c
          then none
          else if (formal_of dw fuel target_off d).is_target
          then slot_of c u o
          else r)
        rest
