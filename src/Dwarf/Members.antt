-- ===== src/Dwarf/Members.antt =====
-- src/dwarf_parser.cc: the offset of a member within a type (`dwarf_attr_die`,
-- `strip_type_wrappers`, `member_byte_offset`, `find_member_offset_in`, `resolve_member_offset`),
-- the types that the parser keeps by name, and the offsets that it was asked for.
pub mod Search
use cephtrace.Base.{
  ℕ, zero, suc, ◌+◌, ◌%◌, Bool, true, false, not, ◌&&◌, ◌||◌, List, [], ◌∷◌, ◌++◌, Option, none,
  some, ltb, if◌then◌else◌, same_bytes, add64, u32_mod, minus_one, is_empty,
}
use cephtrace.Bpf.Queue.{require}
use cephtrace.Dwarf.Types.{
  Tag, At, Libdw, inheritance, member, structure_type, class_type, union_type, type_unit,
}
use cephtrace.Dwarf.Abi.{is_wrapper, type_ref, ref_of}

unfoldable pub is_aggregate : Tag → Bool
is_aggregate structure_type = true
is_aggregate union_type = true
is_aggregate class_type = true
is_aggregate _ = false

unfoldable pub is_inheritance : Tag → Bool
is_inheritance inheritance = true
is_inheritance _ = false

unfoldable pub is_member : Tag → Bool
is_member member = true
is_member _ = false

unfoldable pub is_type_unit : Tag → Bool
is_type_unit type_unit = true
is_type_unit _ = false

abbrev pub first_or : {A : Type 0} → A → List A → A
first_or a [] = a
first_or a (x ∷ xs) = x

abbrev pub is_name : List ℕ → Option (List ℕ) → Bool
is_name n none = false
is_name n (some m) = same_bytes n m

abbrev pub is_none : {A : Type 0} → Option A → Bool
is_none none = true
is_none (some a) = false

module _ (dw : Libdw) where
  -- An entry of a type unit stands for the unit's type, which is its first child.
  abbrev type_in_unit : dw.Die → dw.Die
  type_in_unit d = if is_type_unit (dw.tag d) then first_or d (dw.children d) else d

  -- An attribute DW_AT_signature leads to another entry.
  abbrev follow_signature : dw.Die → Option dw.Attr → Option dw.Die
  follow_signature d none = some (type_in_unit d)
  follow_signature d (some sig) = elim (dw.formref_die sig) [
    | none ↦ none
    | some e ↦ some (type_in_unit e)
  ]

  -- `dwarf_attr_die` for DW_AT_type.
  unfoldable pub attr_die : dw.Die → Option dw.Die
  attr_die d = elim (type_ref dw d) [
    | none ↦ none
    | some e ↦ follow_signature e (dw.attr e At.signature)
  ]

  -- `strip_type_wrappers`, with fuel for the number of wrappers: `none` if there are more.
  unfoldable pub strip_type_wrappers : ℕ → dw.Die → Option dw.Die
  strip_type_wrappers zero d = if is_wrapper (dw.tag d) then none else some d
  strip_type_wrappers (suc n) d =
      let rest : Option dw.Die = elim (attr_die d) [
        | none ↦ some d
        | some e ↦ strip_type_wrappers n e
      ] in
      if is_wrapper (dw.tag d) then rest else some d

  abbrev constant_of : Option dw.Attr → Option ℕ
  constant_of none = none
  constant_of (some a) = dw.formudata a

  unfoldable pub member_byte_offset : dw.Die → Option ℕ
  member_byte_offset d =
      if dw.hasattr_integrate d At.data_bit_offset
      then none
      else if not (dw.hasattr_integrate d At.data_member_location)
      then some 0
      else constant_of (dw.attr_integrate d At.data_member_location)

-- The type of an entry without its wrappers, if it has one and the fuel is enough.
pub data Inner (D : Type 0) : Type 0 where
  untyped : Inner D
  unfinished : Inner D
  unwrapped : D → Inner D

abbrev pub inner_of : {D : Type 0} → Option D → Inner D
inner_of none = unfinished
inner_of (some t) = unwrapped t

-- What the search for a member found: its offset and the entry of its type.
pub data Found (D : Type 0) : Type 0 where
  out_of_fuel : Found D
  absent : Found D
  unusable : Found D
  found : ℕ → D → Found D

-- One pass over the children of a queued type ends the search, or it leaves the queue.
pub data Scanned (D : Type 0) : Type 0 where
  returned : Found D → Scanned D
  continued : List (D × ℕ) → Scanned D

module _ (dw : Libdw) (wrappers : ℕ) where
  abbrev pub inner_from : Option dw.Die → Inner dw.Die
  inner_from none = untyped
  inner_from (some t) = inner_of (strip_type_wrappers dw wrappers t)

  -- The type of a member or of a base class, without its wrappers.
  unfoldable pub inner_type : dw.Die → Inner dw.Die
  inner_type child = inner_from (attr_die dw child)

  -- What is queued: `none` if the fuel for wrappers is out.
  abbrev pub queued : ℕ → Option ℕ → Inner dw.Die → Option (List (dw.Die × ℕ))
  queued base none t = some []
  queued base (some off) untyped = some []
  queued base (some off) unfinished = none
  queued base (some off) (unwrapped t) = some ((t, add64 base off) ∷ [])

  abbrev pub only_aggregate : Inner dw.Die → Inner dw.Die
  only_aggregate untyped = untyped
  only_aggregate unfinished = unfinished
  only_aggregate (unwrapped t) = if is_aggregate (dw.tag t) then unwrapped t else untyped

  -- What a child adds to the queue: a base class, or an aggregate without a name.
  unfoldable pub transparent : dw.Die → ℕ → Option (List (dw.Die × ℕ))
  transparent child base =
      if is_inheritance (dw.tag child)
      then queued base (member_byte_offset dw child) (inner_type child)
      else if is_member (dw.tag child) && is_none (dw.diename child)
      then queued base (member_byte_offset dw child) (only_aggregate (inner_type child))
      else some []

  unfoldable pub is_sought : List ℕ → dw.Die → Bool
  is_sought name child = is_member (dw.tag child) && is_name name (dw.diename child)

  abbrev pub found_at : ℕ → Option ℕ → Inner dw.Die → Found dw.Die
  found_at base none t = unusable
  found_at base (some off) untyped = unusable
  found_at base (some off) unfinished = out_of_fuel
  found_at base (some off) (unwrapped t) = found (add64 base off) t

  -- The end of the search at a child of the name.
  unfoldable pub finish : ℕ → dw.Die → Found dw.Die
  finish base child = found_at base (member_byte_offset dw child) (inner_type child)

  -- The loop over the children.
  unfoldable pub scan_children : List ℕ → ℕ → List dw.Die → List (dw.Die × ℕ) → Scanned dw.Die
  scan_children name base [] q = continued q
  scan_children name base (child ∷ children) q =
      let rest =
        require (transparent child base) (returned out_of_fuel)
          λ parts. scan_children name base children (q ++ parts) in
      if is_sought name child then returned (finish base child) else rest

  abbrev pub search_next : (List (dw.Die × ℕ) → Found dw.Die) → Scanned dw.Die → Found dw.Die
  search_next again (returned r) = r
  search_next again (continued q) = again q

  -- The loop over the queue; one round of fuel for each type that is taken from it.
  unfoldable pub search_queue : ℕ → List ℕ → List (dw.Die × ℕ) → Found dw.Die
  search_queue zero name q = out_of_fuel
  search_queue (suc fuel) name [] = absent
  search_queue (suc fuel) name ((d, base) ∷ q) =
      search_next (λ r. search_queue fuel name r) (scan_children name base (dw.children d) q)

  unfoldable pub find_member_offset_in : ℕ → dw.Die → List ℕ → Found dw.Die
  find_member_offset_in fuel parent name = search_queue fuel name ((parent, 0) ∷ [])
