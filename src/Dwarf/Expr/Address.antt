-- ===== src/Dwarf/Expr/Address.antt =====
-- The address that a location expression of one operation stands for, and its translation.
use cephtrace.Base.{
  ℕ, zero, suc, ◌+◌, ◌≤◌, ◌<◌, ◌≡◌, ◌∙◌, ap, arith, Bool, true, false, [], ◌∷◌, Option, some,
}
use cephtrace.Bpf.Types.{VarLocation}
use cephtrace.Dwarf.Types.{Libdw, DwarfOp, to_int, no_location}
use cephtrace.Dwarf.Expr.{
  Translated, located, or_fail, first_op, frame_op, on_stack, kind_of, AtomKind, breg, bregx, fbreg,
  call_frame_cfa, cfa_op, expr_at, translate_kind, translate_expr, dw_op_breg0, dw_op_bregx,
  dw_op_fbreg, dw_op_call_frame_cfa,
}

module _ (dw : Libdw) (fb : Option dw.Attr) (pc : ℕ) where
  -- An operation stands for the contents of a register plus an offset: directly, or through the
  -- frame base, or through the canonical frame address, in so many steps. The last argument says
  -- whether the frame base was used.
  pub data Address : ℕ → DwarfOp → ℕ → ℕ → Bool → Type 0 where
    of_register :
        (op : DwarfOp) (r : ℕ) → r < 32 → op.atom ≡ dw_op_breg0 + r → Address 1 op r op.number false
    of_any_register :
        (op : DwarfOp) → op.atom ≡ dw_op_bregx → Address 1 op op.number op.number2 false
    of_frame :
        (op base : DwarfOp) (a : dw.Attr) (k r n : ℕ) (s : Bool)
        → op.atom ≡ dw_op_fbreg
        → fb ≡ some a
        → dw.getlocation_addr a pc ≡ some (base ∷ [])
        → Address k base r n s
        → Address (suc k) op r (n + op.number) true
    of_cfa :
        (op cfa : DwarfOp) (k r n : ℕ) (s : Bool)
        → op.atom ≡ dw_op_call_frame_cfa
        → cfa_op dw pc ≡ some cfa
        → Address k cfa r n s
        → Address (suc k) op r n s

  abbrev pub location_of : ℕ → ℕ → Bool → VarLocation
  location_of r n s = record { reg = to_int r; offset = to_int n; stack = s }

  kind_of-breg : (atom r : ℕ) → r < 32 → atom ≡ dw_op_breg0 + r → kind_of atom ≡ breg r
  unfolding kind_of
  kind_of-breg atom r h e = ground arith

  kind_of-bregx : (atom : ℕ) → atom ≡ dw_op_bregx → kind_of atom ≡ bregx
  unfolding kind_of
  kind_of-bregx atom e = rw e

  kind_of-fbreg : (atom : ℕ) → atom ≡ dw_op_fbreg → kind_of atom ≡ fbreg
  unfolding kind_of
  kind_of-fbreg atom e = rw e

  kind_of-cfa : (atom : ℕ) → atom ≡ dw_op_call_frame_cfa → kind_of atom ≡ call_frame_cfa
  unfolding kind_of
  kind_of-cfa atom e = rw e

  -- One round, for an operation of a known kind.
  translate_expr-kind :
      (fuel : ℕ) (op : DwarfOp) (l : VarLocation) (k : AtomKind)
      → kind_of op.atom ≡ k
      → translate_expr dw (suc fuel) fb pc op l
        ≡ translate_kind dw (λ o. translate_expr dw fuel fb pc o l) fb pc op l k
  unfolding translate_expr
  translate_expr-kind fuel op l k e =
      ap (translate_kind dw (λ o. translate_expr dw fuel fb pc o l) fb pc op l) e

  translate_kind-fbreg :
      (again : DwarfOp → Translated) (op base : DwarfOp) (l : VarLocation) (a : dw.Attr)
      → fb ≡ some a
      → dw.getlocation_addr a pc ≡ some (base ∷ [])
      → translate_kind dw again fb pc op l fbreg ≡ on_stack op.number (again base)
  unfolding translate_kind expr_at
  translate_kind-fbreg again op base l a f g =
      ap (λ b. or_fail (frame_op dw b pc) (λ o. on_stack op.number (again o))) f
      ∙ ap (λ z. or_fail (first_op dw z) (λ o. on_stack op.number (again o))) g

  translate_kind-cfa :
      (again : DwarfOp → Translated) (op cfa : DwarfOp) (l : VarLocation)
      → cfa_op dw pc ≡ some cfa
      → translate_kind dw again fb pc op l call_frame_cfa ≡ again cfa
  unfolding translate_kind
  translate_kind-cfa again op cfa l f = ap (λ z. or_fail z again) f

  on_stack-location :
      (r n m : ℕ) (s : Bool)
      → on_stack m (located (location_of r n s)) ≡ located (location_of r (n + m) true)
  on_stack-location r n m s =
      ap (λ o. located (record { reg = to_int r; offset = o; stack = true })) (omega arith)

  -- An operation that stands for a register and an offset in k steps is translated, with fuel for
  -- k rounds or more, to that register and that offset as an `int`, and `stack` is set exactly if
  -- the frame base was used.
  pub translate_expr-Address :
      (fuel k : ℕ) (op : DwarfOp) (r n : ℕ) (s : Bool)
      → Address k op r n s
      → k ≤ fuel
      → translate_expr dw fuel fb pc op no_location ≡ located (location_of r n s)
  unfolding translate_kind
  translate_expr-Address zero _ op r n s (of_register _ _ h e) le = absurd (omega arith)
  translate_expr-Address zero _ op r n s (of_any_register _ e) le = absurd (omega arith)
  translate_expr-Address zero _ op r n s (of_frame _ base a k _ m t e f g d) le =
      absurd (omega arith)
  translate_expr-Address zero _ op r n s (of_cfa _ cfa k _ _ _ e f d) le = absurd (omega arith)
  translate_expr-Address (suc fuel) _ op r n s (of_register _ _ h e) le =
      translate_expr-kind fuel op no_location (breg r) (kind_of-breg op.atom r h e)
      ∙ ap (λ q. located (record { reg = q; offset = to_int n; stack = false })) (omega arith)
  translate_expr-Address (suc fuel) _ op r n s (of_any_register _ e) le =
      translate_expr-kind fuel op no_location bregx (kind_of-bregx op.atom e)
  translate_expr-Address (suc fuel) _ op r n s (of_frame _ base a k _ m t e f g d) le =
      translate_expr-kind fuel op no_location fbreg (kind_of-fbreg op.atom e)
      ∙ translate_kind-fbreg _ op base no_location a f g
      ∙ ap (on_stack op.number) (translate_expr-Address fuel k base r m t d (omega arith))
      ∙ on_stack-location r m op.number t
  translate_expr-Address (suc fuel) _ op r n s (of_cfa _ cfa k _ _ _ e f d) le =
      translate_expr-kind fuel op no_location call_frame_cfa (kind_of-cfa op.atom e)
      ∙ translate_kind-cfa _ op cfa no_location f
      ∙ translate_expr-Address fuel k cfa r n s d (omega arith)
