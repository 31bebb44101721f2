-- ===== src/Dwarf/Fields.antt =====
-- src/dwarf_parser.cc: `find_class_member` and `translate_fields`, which lower a path of members of a
-- parameter to the offsets that a probe follows.
pub mod Lowered
use cephtrace.Base.{
  ℕ, zero, suc, Bool, true, false, not, ◌&&◌, ◌||◌, List, [], ◌∷◌, ◌++◌, Option, none, some,
  if◌then◌else◌, same_bytes, is_empty, codes, take, drop,
}
use cephtrace.Bpf.Types.{VarLocation, Field}
use cephtrace.Dwarf.Types.{
  Tag, At, Libdw, no_location, pointer_type, reference_type, rvalue_reference_type, structure_type,
  class_type, union_type, member, inheritance,
}
use cephtrace.Dwarf.Expr.{Translated, out_of_fuel, failed, located, expr_at, translate_expr}
use cephtrace.Dwarf.Abi.{is_wrapper, type_ref}
use cephtrace.Dwarf.Members.{is_aggregate, is_inheritance, is_member, is_name, attr_die}
use cephtrace.Dwarf.Cache.{resolve_typedecl, resolve_type_name}
use cephtrace.Select.Embedded.{Named}

-- The result of `find_class_member`: the search has ended without a member, or with one and the
-- attribute of its location, if it has one.
pub data ClassMember (D A : Type 0) : Type 0 where
  out_of_rounds : ClassMember D A
  missing : ClassMember D A
  at_member : D → Option A → ClassMember D A

abbrev pub cast_prefix : List ℕ
cast_prefix = codes "cast:"

unfoldable pub is_cast : List ℕ → Bool
is_cast token = same_bytes (take 5 token) cast_prefix

unfoldable pub is_pointer : Tag → Bool
is_pointer pointer_type = true
is_pointer _ = false

unfoldable pub is_reference : Tag → Bool
is_reference reference_type = true
is_reference rvalue_reference_type = true
is_reference _ = false

-- The result of `translate_fields`: with no fuel left, `false`, or `res` behind its first entry.
pub data Fields : Type 0 where
  no_fuel : Fields
  refused : Fields
  fields : List Field → Fields

-- `res` starts with an unused entry.
abbrev pub first_field : Field
first_field = record { offset = 0; pointer = false }

abbrev pub field_cons : Field → Fields → Fields
field_cons f no_fuel = no_fuel
field_cons f refused = refused
field_cons f (fields fs) = fields (f ∷ fs)

module _ (dw : Libdw) where
  unfoldable pub is_class_member : List ℕ → dw.Die → Bool
  is_class_member name child = is_member (dw.tag child) && is_name name (dw.diename child)

  abbrev base_of : Option dw.Die → List dw.Die
  base_of none = []
  base_of (some d) = d ∷ []

  -- What a child adds to the queue: a base class.
  unfoldable pub base_classes : dw.Die → List dw.Die
  base_classes child = if is_inheritance (dw.tag child) then base_of (attr_die dw child) else []

  -- The attribute DW_AT_data_member_location of the member; without it, the search fails.
  unfoldable pub location_attr : dw.Die → Option dw.Attr
  location_attr d =
      if dw.hasattr_integrate d At.data_member_location
      then dw.attr_integrate d At.data_member_location
      else none

  -- The loop over the children, before the loop over the rest of the queue.
  unfoldable pub scan_class :
      (List dw.Die → ClassMember dw.Die dw.Attr)
      → List ℕ
      → List dw.Die
      → List dw.Die
      → ClassMember dw.Die dw.Attr
  scan_class again name [] q = again q
  scan_class again name (child ∷ children) q =
      let rest = scan_class again name children (q ++ base_classes child) in
      if is_class_member name child then at_member child (location_attr child) else rest

  -- The loop over the queue. A queued class without children ends the search.
  unfoldable pub search_classes : ℕ → List ℕ → List dw.Die → ClassMember dw.Die dw.Attr
  search_classes zero name q = out_of_rounds
  search_classes (suc rounds) name [] = missing
  search_classes (suc rounds) name (d ∷ q) =
      let found = scan_class (λ r. search_classes rounds name r) name (dw.children d) q in
      if is_empty (dw.children d) then missing else found

  unfoldable pub find_class_member : ℕ → dw.Die → List ℕ → ClassMember dw.Die dw.Attr
  find_class_member rounds typedie name = search_classes rounds name (typedie ∷ [])

  -- `dwarf_die_type`: without a type, the entry stays as it was.
  abbrev pub die_type_or : dw.Die → Option dw.Die → dw.Die
  die_type_or old none = old
  die_type_or old (some t) = t

  unfoldable pub dwarf_die_type : dw.Die → dw.Die → dw.Die
  dwarf_die_type die old = die_type_or old (type_ref dw die)

module _ (dw : Libdw) (rounds expr_fuel pc : ℕ) (cache : List (List (List (Named dw.Die)))) where
  -- A declaration is replaced by its definition.
  unfoldable pub defined : dw.Die → Option dw.Die
  defined t = if dw.hasattr t At.declaration then resolve_typedecl dw cache t else some t

  abbrev offset_of : Translated → Option ℕ
  offset_of out_of_fuel = none
  offset_of failed = none
  offset_of (located l) = some l.offset

  -- The offset that the attribute of a member's location gives.
  unfoldable pub member_offset : Option dw.Attr → Option ℕ
  member_offset none = none
  member_offset (some a) = elim (expr_at dw a pc) [
    | none ↦ none
    | some op ↦ offset_of (translate_expr dw expr_fuel none pc op no_location)
  ]

  -- A member of a class: its field, and the rest of the path from its type.
  abbrev pub add_field : Bool → dw.Die → (dw.Die → Fields) → dw.Die → Option ℕ → Fields
  add_field pointer t again m none = refused
  add_field pointer t again m (some off) =
      field_cons (record { offset = off; pointer = pointer }) (again (dwarf_die_type dw m t))

  abbrev pub member_step : Bool → dw.Die → (dw.Die → Fields) → ClassMember dw.Die dw.Attr → Fields
  member_step pointer t again out_of_rounds = no_fuel
  member_step pointer t again missing = refused
  member_step pointer t again (at_member m a) = add_field pointer t again m (member_offset a)

  abbrev pub class_step : Bool → List ℕ → (dw.Die → Fields) → Option dw.Die → Fields
  class_step pointer name again none = refused
  class_step pointer name again (some t) =
      member_step pointer t again (find_class_member dw rounds t name)

  abbrev pub resolved_step : (dw.Die → Fields) → Option dw.Die → Fields
  resolved_step again none = refused
  resolved_step again (some t) = again t

  -- A round of the loop over the tokens behind the first, at a type, with `field.pointer`. `skip`
  -- repeats it with another type and flag, and `go_on` goes on to the next token.
  unfoldable pub fields_step :
      (dw.Die → Bool → Fields) → (dw.Die → Bool → Fields) → dw.Die → Bool → List ℕ → Fields
  fields_step skip go_on t pointer token =
      if is_wrapper (dw.tag t)
      then skip (dwarf_die_type dw t t) pointer
      else if is_cast token
      then if is_pointer (dw.tag t) || is_reference (dw.tag t)
        then resolved_step (λ u. go_on u true) (resolve_type_name dw cache (drop 5 token))
        else refused
      else if is_reference (dw.tag t)
      then skip (dwarf_die_type dw t t) true
      else if is_pointer (dw.tag t)
      then if dw.hasattr_integrate t At.type then skip (dwarf_die_type dw t t) true else refused
      else if is_aggregate (dw.tag t)
      then class_step pointer token (λ u. go_on u false) (defined t)
      else refused

  unfoldable pub translate_tokens : ℕ → dw.Die → Bool → List (List ℕ) → Fields
  translate_tokens fuel t pointer [] = fields []
  translate_tokens zero t pointer (token ∷ tokens) = no_fuel
  translate_tokens (suc fuel) t pointer (token ∷ tokens) =
      fields_step (λ u p. translate_tokens fuel u p (token ∷ tokens))
        (λ u p. translate_tokens fuel u p tokens) t pointer token

  -- The first token is the name of the parameter.
  unfoldable pub translate_fields : ℕ → dw.Die → List (List ℕ) → Fields
  translate_fields fuel typedie tokens =
      field_cons first_field (translate_tokens fuel typedie false (drop 1 tokens))
