-- ===== src/Dwarf/Cache/Path.antt =====
-- The offset that is resolved for a path of members.
use cephtrace.Base.{ℕ, ◌≤◌, ◌<◌, ◌≡◌, List, [], ◌∷◌, Option, some, add64, u32_mod, minus_one}
use cephtrace.Dwarf.Types.{Libdw}
use cephtrace.Dwarf.Members.{untyped, unwrapped}
use cephtrace.Dwarf.Members.Search.{MemberAt, Unusable, NoMember}
use cephtrace.Select.Embedded.{Named}
use cephtrace.Dwarf.Cache.{Walk, tired, lost, walked, find_cached_type}

module _ (dw : Libdw) (wrappers : ℕ) where
  -- A path of members, each in the type of the one before; the offsets are added up.
  pub data PathFrom : dw.Die → List (List ℕ) → ℕ → ℕ → Type 0 where
    ends : (d : dw.Die) (n : ℕ) → PathFrom d [] n n
    via :
        (d t : dw.Die) (name : List ℕ) (path : List (List ℕ)) (off n m : ℕ)
        → MemberAt dw wrappers name (d, 0) off t
        → PathFrom t path (add64 n off) m
        → PathFrom d (name ∷ path) n m

  -- A path that leads to a name which the type reached has no member of, or none with an offset
  -- and a type.
  pub data Broken : dw.Die → List (List ℕ) → Type 0 where
    no_member :
        (d : dw.Die) (name : List ℕ) (path : List (List ℕ))
        → NoMember dw wrappers name (d, 0)
        → Broken d (name ∷ path)
    no_offset :
        (d : dw.Die) (name : List ℕ) (path : List (List ℕ))
        → Unusable dw wrappers name (d, 0)
        → Broken d (name ∷ path)
    later :
        (d t : dw.Die) (name : List ℕ) (path : List (List ℕ)) (off : ℕ)
        → MemberAt dw wrappers name (d, 0) off t
        → Broken t path
        → Broken d (name ∷ path)

  abbrev Walked : dw.Die → List (List ℕ) → ℕ → Walk → Type 0
  Walked d path n tired = ⊥
  Walked d path n lost = Broken d path
  Walked d path n (walked m) = PathFrom d path n m

  -- What `resolve_member_offset` returns for a path in a type.
  pub data Resolved (types : List (List (Named dw.Die))) (type_name : List ℕ) (path : List (List ℕ))
      (r : Option ℕ) : Type 0 where
    empty_path : path ≡ [] → r ≡ some minus_one → Resolved types type_name path r
    no_type :
        find_cached_type dw wrappers types type_name ≡ untyped
        → r ≡ some minus_one
        → Resolved types type_name path r
    broken :
        (d : dw.Die)
        → find_cached_type dw wrappers types type_name ≡ unwrapped d
        → Broken d path
        → r ≡ some minus_one
        → Resolved types type_name path r
    too_large :
        (d : dw.Die) (n : ℕ)
        → find_cached_type dw wrappers types type_name ≡ unwrapped d
        → PathFrom d path 0 n
        → u32_mod ≤ n
        → r ≡ some minus_one
        → Resolved types type_name path r
    reached :
        (d : dw.Die) (n : ℕ)
        → find_cached_type dw wrappers types type_name ≡ unwrapped d
        → PathFrom d path 0 n
        → n < u32_mod
        → r ≡ some n
        → Resolved types type_name path r
