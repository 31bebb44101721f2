-- ===== src/Rados/Report/Ops.antt =====
-- The list of ops in a row of radostrace, and what an opcode without a name does to it.
use mathlib.Core.List.{append_assoc, append-nil}
use cephtrace.Base.{
  ℕ, zero, suc, ◌+◌, ◌-◌, ◌≡◌, refl, sym, subst, ap, ◌∙◌, arith, Bool, true, false, List, [], ◌∷◌,
  ◌++◌, Option, none, some, ltb, ◌==◌, if◌then◌else◌, codes, Option-cases, inl, inr,
}
use cephtrace.Rados.Types.{ClientOpValue}
use cephtrace.Select.OsdId.Spelled.{decimal}
use cephtrace.Rados.Report.{
  Stream, insert_text, insert_pointer, client_op_text, shown_ops, list_ops, more_ops, ops_text,
}

-- The texts of the ops; `none` is an opcode without a name.
abbrev pub op_items : ClientOpValue → ℕ → ℕ → List (Option (List ℕ))
op_items v zero i = []
op_items v (suc rounds) i = client_op_text v i ∷ op_items v rounds (i + 1)

abbrev pub all_named : List (Option (List ℕ)) → Bool
all_named [] = true
all_named (none ∷ items) = false
all_named (some t ∷ items) = all_named items

-- The texts with spaces between them, up to the first that is missing.
abbrev pub space_between : Bool → List ℕ
space_between first = if first then [] else codes " "

abbrev pub joined_items : Bool → List (Option (List ℕ)) → List ℕ
joined_items first [] = []
joined_items first (none ∷ items) = space_between first
joined_items first (some t ∷ items) = space_between first ++ (t ++ joined_items false items)

-- What follows if there are more ops than are shown.
abbrev pub more_text : ClientOpValue → List ℕ
more_text v =
    if ltb (shown_ops v) v.ops_size
    then space_between (shown_ops v == 0) ++ (codes "...+" ++ decimal 20 (v.ops_size - shown_ops v))
    else []

abbrev stream : List ℕ → Bool → Stream
stream t good = record { text = t; good = good }

not_first : (i : ℕ) → ((i + 1) == 0) ≡ false
not_first i = ground arith

module _ (v : ClientOpValue) where
  spaced :
      (first : Bool) (t : List ℕ)
      → (if first then stream t true else insert_text (codes " ") (stream t true))
        ≡ stream (t ++ space_between first) true
  unfolding insert_text
  spaced true t = ap (λ u. stream u true) (sym (append-nil t))
  spaced false t = refl

  list_ops-failed :
      (rounds i : ℕ) (t : List ℕ) → list_ops v rounds i (stream t false) ≡ stream t false
  unfolding list_ops insert_text insert_pointer
  list_ops-failed zero i t = refl
  list_ops-failed (suc rounds) i t = elim (Option-cases (client_op_text v i)) [
    | inl e ↦ ground (arith, list_ops-failed rounds (i + 1) t)
    | inr (u, e) ↦ ground (arith, list_ops-failed rounds (i + 1) t)
  ]

  regrouped : (t space u rest : List ℕ) → ((t ++ space) ++ u) ++ rest ≡ t ++ (space ++ (u ++ rest))
  regrouped t space u rest = append_assoc (t ++ space) u rest ∙ append_assoc t space (u ++ rest)

  -- One round, and the rest of them by what is known of it.
  one_round :
      (rounds i : ℕ) (t : List ℕ) (first : Bool) (o : Option (List ℕ))
      → let its = op_items v rounds (i + 1) in
        ((u : List ℕ)
          → list_ops v rounds (i + 1) (stream u true)
            ≡ stream (u ++ joined_items false its) (all_named its))
        → list_ops v rounds (i + 1) (
            insert_pointer o
              (if first then stream t true else insert_text (codes " ") (stream t true)))
          ≡ stream (t ++ joined_items first (o ∷ its)) (all_named (o ∷ its))
  unfolding insert_pointer insert_text
  one_round rounds i t first none later =
      ap (λ s. list_ops v rounds (i + 1) (insert_pointer none s)) (spaced first t)
      ∙ list_ops-failed rounds (i + 1) (t ++ space_between first)
  one_round rounds i t first (some u) later =
      let its = op_items v rounds (i + 1) in
      ap (λ s. list_ops v rounds (i + 1) (insert_pointer (some u) s)) (spaced first t)
      ∙ later ((t ++ space_between first) ++ u)
      ∙ ap (λ z. stream z (all_named its))
          (regrouped t (space_between first) u (joined_items false its))

  list_ops-joined :
      (rounds i : ℕ) (t : List ℕ)
      → list_ops v rounds i (stream t true)
        ≡ stream
            (t ++ joined_items (i == 0) (op_items v rounds i))
            (all_named (op_items v rounds i))
  unfolding list_ops
  list_ops-joined zero i t = ap (λ u. stream u true) (sym (append-nil t))
  list_ops-joined (suc rounds) i t =
      let its = op_items v rounds (i + 1) in
      one_round rounds i t (i == 0) (client_op_text v i) λ u.
        subst
          (λ b.
            list_ops v rounds (i + 1) (stream u true)
            ≡ stream (u ++ joined_items b its) (all_named its))
          (not_first i) (list_ops-joined rounds (i + 1) u)

  -- The end of the list, behind all of the ops or behind one without a name.
  ended :
      (t : List ℕ) (good : Bool)
      → (insert_text (codes "]") (more_ops v (stream t good))).text
        ≡ t ++ (if good then more_text v ++ codes "]" else [])
  unfolding insert_text more_ops
  ended t true =
      let more = codes "...+" ++ decimal 20 (v.ops_size - shown_ops v) in
      ground (
        arith,
        append_assoc t more (codes "]"),
        regrouped t (codes " ") more (codes "]"),
        append_assoc (codes " ") more (codes "]"),
      )
  ended t false = ground (arith, append-nil t)

  -- The list of ops in a row: if each of the ops shown has a name, their texts with spaces between
  -- them and the number of further ops, in brackets; if one has none, which inserts a null pointer
  -- into the stream, the list ends before it, without the further ops and the closing bracket.
  pub ops_text-cut :
      let items = op_items v (shown_ops v) 0 in
      ops_text v
      ≡ codes "["
        ++ (joined_items true items ++ (if all_named items then more_text v ++ codes "]" else []))
  unfolding ops_text
  ops_text-cut =
      let items = op_items v (shown_ops v) 0 in
      ap (λ s. (insert_text (codes "]") (more_ops v s)).text)
        (list_ops-joined (shown_ops v) 0 (codes "["))
      ∙ ended (codes "[" ++ joined_items true items) (all_named items)
