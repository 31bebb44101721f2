-- ===== src/Dwarf/Members/Search.antt =====
-- The search for a member finds one that stands in the type, and misses none.
use cephtrace.Base.{
  ℕ, zero, suc, ◌+◌, ◌<◌, ◌≡◌, ◌⊎◌, inl, inr, refl, arith, true, false, List, [], ◌∷◌, ◌++◌, Option,
  none, some, All, Any, add64, Bool-cases, Option-cases, ◌≢◌,
}
use cephtrace.Dwarf.Types.{Libdw}
use cephtrace.Dwarf.Abi.{is_wrapper}
use cephtrace.Dwarf.Members.{
  Inner, untyped, unfinished, unwrapped, attr_die, strip_type_wrappers, Found, out_of_fuel, absent,
  unusable, found, Scanned, returned, continued, inner_type, transparent, is_sought, finish,
  member_byte_offset,
}

-- The sum of a measure.
abbrev pub weigh : {A : Type 0} → (A → ℕ) → List (A × ℕ) → ℕ
weigh weight [] = 0
weigh weight ((a, n) ∷ q) = weight a + weigh weight q

module _ (dw : Libdw) (wrappers : ℕ) where
  abbrev Part : Type 0
  Part = dw.Die × ℕ

  abbrev pub or_nil : Option (List (dw.Die × ℕ)) → List (dw.Die × ℕ)
  or_nil none = []
  or_nil (some q) = q

  abbrev pub part_of : dw.Die → ℕ → List (dw.Die × ℕ)
  part_of child base = or_nil (transparent dw wrappers child base)

  abbrev pub parts_of : List dw.Die → ℕ → List (dw.Die × ℕ)
  parts_of [] base = []
  parts_of (child ∷ children) base = part_of child base ++ parts_of children base

  -- A measure that falls along the wrappers of a type, and is below the fuel for them: no typedef
  -- leads back to itself.
  pub record Unwinds (depth : dw.Die → ℕ) : Type 0 where
    pub shorter :
        (d e : dw.Die) → is_wrapper (dw.tag d) ≡ true → attr_die dw d ≡ some e → depth e < depth d
    pub deep : (d : dw.Die) → depth d < wrappers

  module _ (depth : dw.Die → ℕ) (unwinds : Unwinds depth) where
    -- The loop over the wrappers ends, at a type that is none or that leads nowhere.
    pub strip_type_wrappers-ends :
        (fuel : ℕ) (d : dw.Die)
        → depth d < fuel
        → (t : dw.Die) × (strip_type_wrappers dw fuel d ≡ some t)
    unfolding strip_type_wrappers
    strip_type_wrappers-ends zero d h = absurd (omega arith)
    strip_type_wrappers-ends (suc n) d h = elim (Bool-cases (is_wrapper (dw.tag d))) [
      | inr bare ↦ rw bare (d, refl)
      | inl w ↦ elim (Option-cases (attr_die dw d)) [
        | inl last ↦ rw (w, last) (d, refl)
        | inr (e, more) ↦
            rw (w, more) (strip_type_wrappers-ends n e (omega (arith, unwinds.shorter d e w more)))
      ]
    ]

    IsFinished : Inner dw.Die → Type 0
    IsFinished i = i ≢ unfinished

  -- The type itself, at its base, and the types whose members are its members: its base classes
  -- and its aggregates without a name, at their offsets, and what is in these.
  pub data Inside : dw.Die × ℕ → dw.Die → ℕ → Type 0 where
    itself : (d : dw.Die) (base : ℕ) → Inside (d, base) d base
    within :
        (d e : dw.Die) (base at : ℕ) (part : dw.Die × ℕ)
        → Any (λ p. part ≡ p) (parts_of (dw.children d) base)
        → Inside part e at
        → Inside (d, base) e at

  -- A member of the name in a type: where it stands, its offset and its type.
  pub record MemberAt (name : List ℕ) (p : dw.Die × ℕ) (offset : ℕ) (t : dw.Die) : Type 0 where
    pub owner : dw.Die
    pub base : ℕ
    pub inside : Inside p owner base
    pub child : dw.Die
    pub listed : Any (λ c. child ≡ c) (dw.children owner)
    pub sought : is_sought dw wrappers name child ≡ true
    pub own_offset : ℕ
    pub placed : member_byte_offset dw child ≡ some own_offset
    pub typed : inner_type dw wrappers child ≡ unwrapped t
    pub sum : offset ≡ add64 base own_offset

  -- A member of the name that has no byte offset, or no type.
  pub record Unusable (name : List ℕ) (p : dw.Die × ℕ) : Type 0 where
    pub owner : dw.Die
    pub base : ℕ
    pub inside : Inside p owner base
    pub child : dw.Die
    pub listed : Any (λ c. child ≡ c) (dw.children owner)
    pub sought : is_sought dw wrappers name child ≡ true
    pub lacks : (member_byte_offset dw child ≡ none) ⊎ (inner_type dw wrappers child ≡ untyped)

  abbrev pub NoMember : List ℕ → dw.Die × ℕ → Type 0
  NoMember name p =
      (e : dw.Die) (at : ℕ)
      → Inside p e at
      → All (λ c. is_sought dw wrappers name c ≡ false) (dw.children e)

  -- What is known after a search through a queue.
  abbrev pub Outcome : List ℕ → List (dw.Die × ℕ) → Found dw.Die → Type 0
  Outcome name q out_of_fuel = ⊥
  Outcome name q absent = All (NoMember name) q
  Outcome name q unusable = Any (Unusable name) q
  Outcome name q (found offset t) = Any (λ p. MemberAt name p offset t) q

  module _ (name : List ℕ) where
    -- What one pass over children ended with.
    abbrev Scan : List dw.Die → ℕ → List (dw.Die × ℕ) → Scanned dw.Die → Type 0
    Scan children base q (returned r) =
        (child : dw.Die) × Any (λ c. child ≡ c) children
        × (is_sought dw wrappers name child ≡ true)
        × (r ≡ finish dw wrappers base child)
    Scan children base q (continued q') =
        All (λ c. is_sought dw wrappers name c ≡ false) children
        × (q' ≡ q ++ parts_of children base)
