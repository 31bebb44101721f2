-- ===== src/Dwarf/Fields/Lowered.antt =====
-- What `translate_fields` and `find_class_member` return, and when they do not.
use mathlib.Core.List.{append-nil, append_assoc}
use cephtrace.Base.{
  ℕ, zero, suc, ◌≡◌, refl, sym, subst, ap, ◌∙◌, Bool, true, false, ◌||◌, List, [], ◌∷◌, ◌++◌,
  Option, none, some, if◌then◌else◌, inl, inr, length, All, is_empty, Bool-cases,
}
use cephtrace.Bpf.Types.{Field}
use cephtrace.Dwarf.Types.{Libdw, At}
use cephtrace.Dwarf.Abi.{is_wrapper, type_ref}
use cephtrace.Dwarf.Members.{is_aggregate}
use cephtrace.Select.Embedded.{Named}
use cephtrace.Dwarf.Fields.{
  ClassMember, out_of_rounds, missing, at_member, is_cast, is_pointer, is_reference, Fields,
  no_fuel, refused, fields, field_cons, is_class_member, base_classes, scan_class, search_classes,
  find_class_member, die_type_or, dwarf_die_type, add_field, member_step, class_step, resolved_step,
  fields_step, translate_tokens, translate_fields, first_field,
}

-- The tokens that name a member.
abbrev pub names : List (List ℕ) → ℕ
names [] = 0
names (token ∷ tokens) = if is_cast token then names tokens else suc (names tokens)

abbrev pub Counted : ℕ → Fields → Type 0
Counted n no_fuel = Unit
Counted n refused = Unit
Counted n (fields fs) = length fs ≡ n

field_cons-Counted :
    (n : ℕ) (f : Field) (r : Fields) → Counted n r → Counted (suc n) (field_cons f r)
field_cons-Counted n f no_fuel h = tt
field_cons-Counted n f refused h = tt
field_cons-Counted n f (fields fs) h = ap suc h

module _ (dw : Libdw) where
  -- The bases that the children of a class add to the queue, in order.
  abbrev pub bases : List dw.Die → List dw.Die
  bases [] = []
  bases (child ∷ children) = base_classes dw child ++ bases children

  scan_class-none :
      (again : List dw.Die → ClassMember dw.Die dw.Attr) (name : List ℕ) (children q : List dw.Die)
      → All (λ c. is_class_member dw name c ≡ false) children
      → scan_class dw again name children q ≡ again (q ++ bases children)
  unfolding scan_class
  scan_class-none again name [] q h = ap again (sym (append-nil q))
  scan_class-none again name (child ∷ children) q (h, hs) = rw h (
      scan_class-none again name children (q ++ base_classes dw child) hs
      ∙ ap again (append_assoc q (base_classes dw child) (bases children)))

  search_classes-empty :
      (rounds : ℕ) (name : List ℕ) (d : dw.Die) (q : List dw.Die)
      → dw.children d ≡ []
      → search_classes dw (suc rounds) name (d ∷ q) ≡ missing
  unfolding search_classes
  search_classes-empty rounds name d q h = rw h refl

  -- If a class has children, none of them a member of the name, and the first of its base classes
  -- has no children, then no member is found, whatever the other base classes have.
  pub find_class_member-stops :
      (rounds : ℕ) (typedie base : dw.Die) (others : List dw.Die) (name : List ℕ)
      → is_empty (dw.children typedie) ≡ false
      → All (λ c. is_class_member dw name c ≡ false) (dw.children typedie)
      → bases (dw.children typedie) ≡ base ∷ others
      → dw.children base ≡ []
      → find_class_member dw (suc (suc rounds)) typedie name ≡ missing
  unfolding find_class_member search_classes
  find_class_member-stops rounds typedie base others name e h b n = rw e (
      scan_class-none (λ r. search_classes dw (suc rounds) name r) name (dw.children typedie) [] h
      ∙ ap (λ r. search_classes dw (suc rounds) name r) b
      ∙ search_classes-empty rounds name base others n)

module _ (dw : Libdw) (rounds expr_fuel pc : ℕ) (cache : List (List (List (Named dw.Die)))) where
  abbrev translate : ℕ → dw.Die → Bool → List (List ℕ) → Fields
  translate fuel t pointer tokens =
      translate_tokens dw rounds expr_fuel pc cache fuel t pointer tokens

  -- A type of const, volatile, restrict or typedef that names no type, as in `const void`.
  tokens-diverge :
      (fuel : ℕ) (t : dw.Die) (pointer : Bool) (token : List ℕ) (tokens : List (List ℕ))
      → is_wrapper (dw.tag t) ≡ true
      → type_ref dw t ≡ none
      → translate fuel t pointer (token ∷ tokens) ≡ no_fuel
  unfolding translate_tokens fields_step dwarf_die_type
  tokens-diverge zero t pointer token tokens h e = refl
  tokens-diverge (suc fuel) t pointer token tokens h e = rw h (
      ap (λ o. translate fuel (die_type_or dw t o) pointer (token ∷ tokens)) e
      ∙ tokens-diverge fuel t pointer token tokens h e)

  -- A path of a member behind a parameter of a type of const, volatile, restrict or typedef that
  -- names no type, as `const void`: no number of rounds ends the loop.
  pub translate_fields-diverges :
      (fuel : ℕ) (t : dw.Die) (param token : List ℕ) (tokens : List (List ℕ))
      → is_wrapper (dw.tag t) ≡ true
      → type_ref dw t ≡ none
      → translate_fields dw rounds expr_fuel pc cache fuel t (param ∷ token ∷ tokens) ≡ no_fuel
  unfolding translate_fields
  translate_fields-diverges fuel t param token tokens h e =
      ap (field_cons first_field) (tokens-diverge fuel t false token tokens h e)

  module _ (n : ℕ) where
    add_field-Counted :
        (pointer : Bool) (t m : dw.Die) (again : dw.Die → Fields) (o : Option ℕ)
        → ((u : dw.Die) → Counted n (again u))
        → Counted (suc n) (add_field dw rounds expr_fuel pc cache pointer t again m o)
    add_field-Counted pointer t m again none h = tt
    add_field-Counted pointer t m again (some off) h =
        field_cons-Counted n (record { offset = off; pointer = pointer }) _
          (h (dwarf_die_type dw m t))

    member_step-Counted :
        (pointer : Bool) (t : dw.Die) (again : dw.Die → Fields) (c : ClassMember dw.Die dw.Attr)
        → ((u : dw.Die) → Counted n (again u))
        → Counted (suc n) (member_step dw rounds expr_fuel pc cache pointer t again c)
    member_step-Counted pointer t again out_of_rounds h = tt
    member_step-Counted pointer t again missing h = tt
    member_step-Counted pointer t again (at_member m a) h = add_field-Counted pointer t m again _ h

    class_step-Counted :
        (pointer : Bool) (name : List ℕ) (again : dw.Die → Fields) (o : Option dw.Die)
        → ((u : dw.Die) → Counted n (again u))
        → Counted (suc n) (class_step dw rounds expr_fuel pc cache pointer name again o)
    class_step-Counted pointer name again none h = tt
    class_step-Counted pointer name again (some t) h = member_step-Counted pointer t again _ h

    resolved_step-Counted :
        (again : dw.Die → Fields) (o : Option dw.Die)
        → ((u : dw.Die) → Counted n (again u))
        → Counted n (resolved_step dw rounds expr_fuel pc cache again o)
    resolved_step-Counted again none h = tt
    resolved_step-Counted again (some t) h = h t

  fields_step-Counted :
      (skip go_on : dw.Die → Bool → Fields) (t : dw.Die) (pointer : Bool) (token : List ℕ)
      (tokens : List (List ℕ))
      → ((u : dw.Die) (p : Bool) → Counted (names (token ∷ tokens)) (skip u p))
      → ((u : dw.Die) (p : Bool) → Counted (names tokens) (go_on u p))
      → Counted
          (names (token ∷ tokens))
          (fields_step dw rounds expr_fuel pc cache skip go_on t pointer token)
  unfolding fields_step
  fields_step-Counted skip go_on t pointer token tokens f g =
      elim (Bool-cases (is_wrapper (dw.tag t))) [
        | inl w ↦ rw w (f _ _)
        | inr w ↦ elim (Bool-cases (is_cast token)) [
          | inl c ↦ elim (Bool-cases (is_pointer (dw.tag t) || is_reference (dw.tag t))) [
            | inl p ↦
                rw (w, c, p)
                  (resolved_step-Counted (names tokens) (λ u. go_on u true) _ (λ u. g u true))
            | inr p ↦ rw (w, c, p) tt
          ]
          | inr c ↦ elim (Bool-cases (is_reference (dw.tag t))) [
            | inl r ↦
                rw (w, c, r)
                  (subst
                    (λ b.
                      Counted (if b then names tokens else suc (names tokens))
                        (skip (dwarf_die_type dw t t) true))
                    c (f _ true))
            | inr r ↦ elim (Bool-cases (is_pointer (dw.tag t))) [
              | inl p ↦ elim (Bool-cases (dw.hasattr_integrate t At.type)) [
                | inl a ↦
                    rw (w, c, r, p, a)
                      (subst
                        (λ b.
                          Counted (if b then names tokens else suc (names tokens))
                            (skip (dwarf_die_type dw t t) true))
                        c (f _ true))
                | inr a ↦ rw (w, c, r, p, a) tt
              ]
              | inr p ↦ elim (Bool-cases (is_aggregate (dw.tag t))) [
                | inl a ↦
                    rw (w, c, r, p, a)
                      (class_step-Counted (names tokens) pointer token (λ u. go_on u false) _
                        (λ u. g u false))
                | inr a ↦ rw (w, c, r, p, a) tt
              ]
            ]
          ]
        ]
      ]

  tokens-Counted :
      (fuel : ℕ) (t : dw.Die) (pointer : Bool) (tokens : List (List ℕ))
      → Counted (names tokens) (translate fuel t pointer tokens)
  unfolding translate_tokens
  tokens-Counted zero t pointer [] = refl
  tokens-Counted (suc fuel) t pointer [] = refl
  tokens-Counted zero t pointer (token ∷ tokens) = tt
  tokens-Counted (suc fuel) t pointer (token ∷ tokens) =
      fields_step-Counted _ _ t pointer token tokens
        (λ u p. tokens-Counted fuel u p (token ∷ tokens)) (λ u p. tokens-Counted fuel u p tokens)

  -- If a path is translated, its fields are the unused first one and one for each token behind the
  -- name of the parameter that names a member, that is, for each that is not a cast.
  pub translate_fields-Counted :
      (fuel : ℕ) (t : dw.Die) (param : List ℕ) (tokens : List (List ℕ))
      → Counted
          (suc (names tokens))
          (translate_fields dw rounds expr_fuel pc cache fuel t (param ∷ tokens))
  unfolding translate_fields
  translate_fields-Counted fuel t param tokens =
      field_cons-Counted (names tokens) first_field (translate fuel t false tokens)
        (tokens-Counted fuel t false tokens)
