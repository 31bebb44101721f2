-- ===== src/Dwarf/Abi/Apart.antt =====
-- The slots of two parameters of one function do not overlap.
use cephtrace.Base.{
  ℕ, zero, suc, ◌+◌, ◌≤◌, ◌<◌, ◌≡◌, ◌≢◌, ◌⊎◌, map, filter, inl, inr, refl, sym, subst, ap, ◌∙◌,
  arith, Bool, false, List, [], ◌∷◌, some, ltb, ◌==◌, if◌then◌else◌, get_or, u64_mod, Bool-cases,
  lt→ltb,
}
use cephtrace.Dwarf.Types.{Libdw}
use cephtrace.Dwarf.Abi.{
  AbiClass, integer, memory, unhandled, is_unhandled, int_arg_regs, Slot, in_register, at_offset,
  slot_of, regs_after, Formal, param_slot, formals, formal_of, is_formal, classify_param,
}
use cephtrace.Dwarf.Abi.Exact.{
  exact_round, exact_after, exact_slot, frame_bytes, exact_slot-here, exact_slot-there,
  param_slot-exact,
}

-- The class of the target.
abbrev pub target_class : List Formal → AbiClass
target_class [] = unhandled
target_class (p ∷ ps) = let rest = target_class ps in if p.is_target then p.class else rest

abbrev pub bytes_of : AbiClass → ℕ
bytes_of integer = 8
bytes_of (memory size) = size
bytes_of unhandled = 0

-- Two parameters of these classes do not share a register or a byte of the stack.
abbrev pub AreApart : AbiClass → Slot → AbiClass → Slot → Type 0
AreApart c (in_register r) d (in_register q) = r ≢ q
AreApart c (in_register r) d (at_offset b) = Unit
AreApart c (at_offset a) d (in_register q) = Unit
AreApart c (at_offset a) d (at_offset b) = (a + bytes_of c ≤ b) ⊎ (b + bytes_of d ≤ a)

AreApart-sym : (c d : AbiClass) (s t : Slot) → AreApart c s d t → AreApart d t c s
AreApart-sym c d (in_register r) (in_register q) h = λ e. h (sym e)
AreApart-sym c d (in_register r) (at_offset b) h = tt
AreApart-sym c d (at_offset a) (in_register q) h = tt
AreApart-sym c d (at_offset a) (at_offset b) (inl h) = inr h
AreApart-sym c d (at_offset a) (at_offset b) (inr h) = inl h

-- A slot that is given when u registers and o bytes of the stack are taken.
abbrev IsLater : ℕ → ℕ → Slot → Type 0
IsLater u o (in_register r) = (k : ℕ) × (u ≤ k) × (k < 6) × (r ≡ get_or int_arg_regs k 0)
IsLater u o (at_offset b) = o ≤ b

some_inj : (s t : Slot) → some s ≡ some t → s ≡ t
some_inj s t h = cc

-- The slot of a parameter of class INTEGER.
slot_of-integer :
    (u o : ℕ) (s : Slot)
    → slot_of integer u o ≡ some s
    → ((u < 6) × (in_register (get_or int_arg_regs u 0) ≡ s)) ⊎ ((6 ≤ u) × (at_offset o ≡ s))
unfolding slot_of
slot_of-integer u o s h = elim (Bool-cases (ltb u 6)) [
  | inl e ↦ inl (ground arith, some_inj _ _ (sym (rw e refl) ∙ h))
  | inr e ↦ inr (ground arith, some_inj _ _ (sym (rw e refl) ∙ h))
]

slot_of-IsLater : (c : AbiClass) (u o : ℕ) (s : Slot) → slot_of c u o ≡ some s → IsLater u o s
unfolding slot_of
slot_of-IsLater integer u o s h = elim (slot_of-integer u o s h) [
  | inl (l, e) ↦ subst (IsLater u o) e (u, omega arith, l, refl)
  | inr (g, e) ↦ subst (IsLater u o) e (omega arith)
]
slot_of-IsLater (memory size) u o s h =
    subst (IsLater u o) (some_inj (at_offset o) s h) (omega arith)
slot_of-IsLater unhandled u o s h = absurd (ground arith)

weaken : (u v o n : ℕ) (s : Slot) → u ≤ v → o ≤ n → IsLater v n s → IsLater u o s
weaken u v o n (in_register r) h g (k, a, b, e) = (k, omega arith, b, e)
weaken u v o n (at_offset b) h g l = omega arith

regs_after-le : (c : AbiClass) (u : ℕ) → u ≤ regs_after c u
regs_after-le integer u = ground arith
regs_after-le (memory size) u = omega arith
regs_after-le unhandled u = omega arith

exact_after-le : (c : AbiClass) (u o : ℕ) → o ≤ exact_after c u o
exact_after-le integer u o = ground arith
exact_after-le (memory size) u o = omega arith
exact_after-le unhandled u o = omega arith

-- A head of the list that decides the result.
exact_slot-IsLater :
    (ps : List Formal) (u o : ℕ) (s : Slot) → exact_slot ps u o ≡ some s → IsLater u o s
unfolding exact_slot
exact_slot-IsLater [] u o s h = absurd (ground arith)
exact_slot-IsLater (p ∷ ps) u o s h = elim (Bool-cases (is_unhandled p.class)) [
  | inl bad ↦ absurd (ground arith)
  | inr good ↦ elim (Bool-cases p.is_target) [
    | inl t ↦ slot_of-IsLater p.class u o s (sym (exact_slot-here p ps u o good t) ∙ h)
    | inr f ↦
        weaken u (regs_after p.class u) o (exact_after p.class u o) s (regs_after-le p.class u)
          (exact_after-le p.class u o)
          (exact_slot-IsLater ps (regs_after p.class u) (exact_after p.class u o) s
            (sym (exact_slot-there p ps u o (good, f)) ∙ h))
  ]
]

-- Where a register stands in the order of the convention.
position : ℕ → ℕ
position r =
    if r == 5
    then 0
    else if r == 4
    then 1
    else if r == 1
    then 2
    else if r == 2
    then 3
    else if r == 8
    then 4
    else 5

position-reg : (k : ℕ) → k < 6 → position (get_or int_arg_regs k 0) ≡ k
unfolding position
position-reg zero h = refl
position-reg (suc zero) h = refl
position-reg (suc (suc zero)) h = refl
position-reg (suc (suc (suc zero))) h = refl
position-reg (suc (suc (suc (suc zero)))) h = refl
position-reg (suc (suc (suc (suc (suc zero))))) h = refl
position-reg (suc (suc (suc (suc (suc (suc k)))))) h = absurd (omega arith)

reg_ne : (u k r : ℕ) → u < k → k < 6 → r ≡ get_or int_arg_regs k 0 → get_or int_arg_regs u 0 ≢ r
reg_ne u k r h g e f =
    absurd
      (omega (arith, sym (position-reg u (omega arith)) ∙ ap position (f ∙ e) ∙ position-reg k g))

-- What comes after a register, or after bytes of the stack, is apart from them.
register_apart :
    (d : AbiClass) (u o : ℕ) (t : Slot)
    → u < 6
    → IsLater (suc u) o t
    → AreApart integer (in_register (get_or int_arg_regs u 0)) d t
register_apart d u o (in_register r) h (k, a, b, e) = reg_ne u k r (omega arith) b e
register_apart d u o (at_offset b) h l = tt

offset_apart :
    (c d : AbiClass) (u a n : ℕ) (t : Slot)
    → a + bytes_of c ≤ n
    → IsLater u n t
    → AreApart c (at_offset a) d t
offset_apart c d u a n (in_register r) h l = tt
offset_apart c d u a n (at_offset b) h l = inl (omega arith)

abbrev LaterIf : Bool → ℕ → ℕ → Slot → Type 0
LaterIf b u o t = IsLater (if b then suc u else u) (if b then o else o + 8) t

not_ltb : (u : ℕ) → 6 ≤ u → ltb u 6 ≡ false
not_ltb u h = ground arith

apart_later :
    (c d : AbiClass) (u o : ℕ) (s t : Slot)
    → slot_of c u o ≡ some s
    → IsLater (regs_after c u) (exact_after c u o) t
    → AreApart c s d t
unfolding slot_of exact_round
apart_later integer d u o s t h l = elim (slot_of-integer u o s h) [
  | inl (b, e) ↦
      subst (λ z. AreApart integer z d t) e
        (register_apart d u o t b (subst (λ z. LaterIf z u o t) (lt→ltb u 6 b) l))
  | inr (b, e) ↦
      subst (λ z. AreApart integer z d t) e
        (offset_apart integer d u o (o + 8) t (omega arith)
          (subst (λ z. LaterIf z u o t) (not_ltb u b) l))
]
apart_later (memory size) d u o s t h l =
    subst (λ z. AreApart (memory size) z d t) (some_inj (at_offset o) s h)
      (offset_apart (memory size) d u o (o + exact_round size) t (omega arith) l)
apart_later unhandled d u o s t h l = absurd (ground arith)

module _ (dw : Libdw) (fuel a b : ℕ) (a_ne_b : a ≢ b) where
  -- The two targets in the parameters from some point on.
  targets_apart :
      (ds : List dw.Die) (u o : ℕ) (s t : Slot)
      → exact_slot (map (formal_of dw fuel a) ds) u o ≡ some s
      → exact_slot (map (formal_of dw fuel b) ds) u o ≡ some t
      → AreApart
          (target_class (map (formal_of dw fuel a) ds))
          s
          (target_class (map (formal_of dw fuel b) ds))
          t
  unfolding exact_slot
  targets_apart [] u o s t h g = absurd (ground arith)
  targets_apart (d ∷ ds) u o s t h g =
      let c : AbiClass = classify_param dw fuel d in
      let p : Formal = formal_of dw fuel a d in
      let q : Formal = formal_of dw fuel b d in
      let ps : List Formal = map (formal_of dw fuel a) ds in
      let qs : List Formal = map (formal_of dw fuel b) ds in
      elim (Bool-cases (is_unhandled c)) [
        | inl bad ↦ absurd (ground arith)
        | inr good ↦ elim (Bool-cases (dw.dieoffset d == a)) [
          | inl at_a ↦ elim (Bool-cases (dw.dieoffset d == b)) [
            | inl at_b ↦ absurd (ground arith)
            | inr not_b ↦
                rw (at_a, not_b)
                  (apart_later c (target_class qs) u o s t
                    (sym (exact_slot-here p ps u o good at_a) ∙ h)
                    (exact_slot-IsLater qs (regs_after c u) (exact_after c u o) t
                      (sym (exact_slot-there q qs u o (good, not_b)) ∙ g)))
          ]
          | inr not_a ↦ elim (Bool-cases (dw.dieoffset d == b)) [
            | inl at_b ↦
                rw (not_a, at_b)
                  (AreApart-sym c (target_class ps) t s (
                    apart_later c (target_class ps) u o t s
                      (sym (exact_slot-here q qs u o good at_b) ∙ g)
                      (exact_slot-IsLater ps (regs_after c u) (exact_after c u o) s
                        (sym (exact_slot-there p ps u o (good, not_a)) ∙ h))))
            | inr not_b ↦
                rw (not_a, not_b)
                  (targets_apart ds (regs_after c u) (exact_after c u o) s t
                    (sym (exact_slot-there p ps u o (good, not_a)) ∙ h)
                    (sym (exact_slot-there q qs u o (good, not_b)) ∙ g))
          ]
        ]
      ]

  -- Of two parameters of one function that are told apart by their entries, if both can be placed
  -- and the sizes of all parameters, with seven bytes for each to round it up, sum to less than 2^64:
  -- they are not in the same register, and on the stack the bytes of the one are below those of the
  -- other.
  pub slots-AreApart :
      (children : List dw.Die) (s t : Slot)
      → frame_bytes
          (map (classify_param dw fuel) (filter (λ child. is_formal (dw.tag child)) children))
        < u64_mod
      → param_slot (formals dw fuel a children) 0 0 ≡ some s
      → param_slot (formals dw fuel b children) 0 0 ≡ some t
      → AreApart
          (target_class (formals dw fuel a children))
          s
          (target_class (formals dw fuel b children))
          t
  slots-AreApart children s t bound h g =
      let ds = filter (λ child. is_formal (dw.tag child)) children in
      targets_apart ds 0 0 s t (sym (param_slot-exact dw fuel a ds 0 0 (omega arith)) ∙ h)
        (sym (param_slot-exact dw fuel b ds 0 0 (omega arith)) ∙ g)
