-- ===== src/Dwarf/Json/Tables.antt =====
-- One of the maps, stored module by module, holds what it was stored from.
use cephtrace.Base.{
  ℕ, ◌≡◌, refl, sym, ap, ◌∙◌, arith, Bool, true, false, ◌||◌, List, [], ◌∷◌, Option, none, some,
  inl, inr, if◌then◌else◌, same_bytes, eq_of_same_bytes, All, Bool-cases, Option-cases,
}
use cephtrace.Select.Embedded.{Named}
use cephtrace.Select.Embedded.Import.{lookup_name, put_name, put_all, entries_of, DwarfMaps}
use cephtrace.Select.Embedded.Import.Last.{
  lookup_name-put_name, lookup_in, or_earlier, last_named, entries_of-lookup, lookup_in-put_all,
}
use cephtrace.Dwarf.Json.{IsDistinct, insert_names, module_names}

abbrev is_some : {A : Type 0} → Option A → Bool
is_some none = false
is_some (some a) = true

abbrev pub listed : {A : Type 0} → List ℕ → List (Named A) → Bool
listed name es = is_some (lookup_name name es)

module _ {A : Type 0} where
  or_earlier-none : (o : Option A) → or_earlier o none ≡ o
  or_earlier-none none = refl
  or_earlier-none (some a) = refl

  both_none : (b : Bool) → ◌≡◌ {A = Option A} (if b then none else none) none
  both_none true = refl
  both_none false = refl

  or_earlier_twice :
      (b c : Bool) (x o : Option A)
      → or_earlier (if b then x else none) (or_earlier (if c then x else none) o)
        ≡ or_earlier (if c || b then x else none) o
  or_earlier_twice b c none o = ground arith
  or_earlier_twice b c (some a) o = ground arith

  last_named-lookup :
      (name : List ℕ) (es : List (Named A))
      → IsDistinct es
      → last_named name es ≡ lookup_name name es
  unfolding last_named lookup_name
  last_named-lookup name [] d = refl
  last_named-lookup name (e ∷ es) (d, ds) = elim (Bool-cases (same_bytes name e.name)) [
    | inl h ↦
        rw (h, last_named-lookup name es ds)
          (ap (λ z. or_earlier z (some e.value))
            (ap (λ n. lookup_name n es) (eq_of_same_bytes name e.name h) ∙ d))
    | inr h ↦ rw (h, last_named-lookup name es ds) (or_earlier-none (lookup_name name es))
  ]

  pub All-lookup :
      (P : A → Type 0) (name : List ℕ) (table : List (Named (List (Named A))))
      → All (λ m. All (λ e. P e.value) m.value) table
      → All (λ e. P e.value) (entries_of (lookup_name name table))
  unfolding lookup_name
  All-lookup P name [] h = tt
  All-lookup P name (m ∷ ms) (h, hs) = elim (Bool-cases (same_bytes name m.name)) [
    | inl e ↦ rw e h
    | inr e ↦ rw e (All-lookup P name ms hs)
  ]

  pub IsDistinct-lookup :
      (name : List ℕ) (table : List (Named (List (Named A))))
      → All (λ m. IsDistinct m.value) table
      → IsDistinct (entries_of (lookup_name name table))
  unfolding lookup_name
  IsDistinct-lookup name [] h = tt
  IsDistinct-lookup name (m ∷ ms) (h, hs) = elim (Bool-cases (same_bytes name m.name)) [
    | inl e ↦ rw e h
    | inr e ↦ rw e (IsDistinct-lookup name ms hs)
  ]

  listed-insert :
      (name : List ℕ) (es : List (Named A)) (set : List (Named Bool))
      → listed name (insert_names es set) ≡ (listed name es || listed name set)
  unfolding insert_names lookup_name
  listed-insert name [] set = refl
  listed-insert name (e ∷ es) set = ground (
    arith,
    listed-insert name es (put_name e.name true set),
    lookup_name-put_name e.name name true set,
  )

  -- The modules of a set, stored from a map.
  unfoldable pub store_tables :
      List (Named (List (Named A)))
      → List (Named Bool)
      → List (Named (List (Named A)))
      → List (Named (List (Named A)))
  store_tables table [] t = t
  store_tables table (n ∷ ns) t =
      store_tables table ns (put_all n.name (entries_of (lookup_name n.name table)) t)

  module _ (mod_name name : List ℕ) (table : List (Named (List (Named A)))) where
    abbrev last_in : Option A
    last_in = last_named name (entries_of (lookup_name mod_name table))

    lookup_in-put_module :
        (n : List ℕ) (t : List (Named (List (Named A))))
        → lookup_in mod_name name (put_all n (entries_of (lookup_name n table)) t)
          ≡ or_earlier (if same_bytes mod_name n then last_in else none) (lookup_in mod_name name t)
    lookup_in-put_module n t =
        lookup_in-put_all mod_name name n (entries_of (lookup_name n table)) t
        ∙ (elim (Bool-cases (same_bytes mod_name n)) [
          | inl h ↦
              ap
                (λ z.
                  or_earlier
                    (if same_bytes mod_name n
                      then last_named name (entries_of (lookup_name z table))
                      else none)
                    (lookup_in mod_name name t))
                (sym (eq_of_same_bytes mod_name n h))
          | inr h ↦ rw h refl
        ])

    store_tables-lookup :
        (ns : List (Named Bool)) (t : List (Named (List (Named A))))
        → lookup_in mod_name name (store_tables table ns t)
          ≡ or_earlier (if listed mod_name ns then last_in else none) (lookup_in mod_name name t)
    unfolding store_tables lookup_name
    store_tables-lookup [] t = refl
    store_tables-lookup (n ∷ ns) t =
        store_tables-lookup ns (put_all n.name (entries_of (lookup_name n.name table)) t)
        ∙ ap (or_earlier (if listed mod_name ns then last_in else none))
            (lookup_in-put_module n.name t)
        ∙ or_earlier_twice (listed mod_name ns) (same_bytes mod_name n.name) last_in
            (lookup_in mod_name name t)
        ∙ ap (λ b. or_earlier (if b then last_in else none) (lookup_in mod_name name t))
            (ground arith)

    -- Every name of a set that has the modules of the map.
    pub store_tables-all :
        (ns : List (Named Bool)) (t : List (Named (List (Named A))))
        → All (λ m. IsDistinct m.value) table
        → (listed mod_name table ≡ true → listed mod_name ns ≡ true)
        → lookup_in mod_name name (store_tables table ns t)
          ≡ or_earlier (lookup_in mod_name name table) (lookup_in mod_name name t)
    unfolding last_named
    store_tables-all ns t d h =
        store_tables-lookup ns t
        ∙ ap (λ z. or_earlier z (lookup_in mod_name name t))
            (elim (Option-cases (lookup_name mod_name table)) [
              | inl e ↦ rw e (both_none (listed mod_name ns))
              | inr (es, e) ↦
                  ap (λ b. if b then last_in else none) (h (ap is_some e))
                  ∙ last_named-lookup name (entries_of (lookup_name mod_name table))
                      (IsDistinct-lookup mod_name table d)
                  ∙ entries_of-lookup mod_name name (lookup_name mod_name table)
            ])

-- Every module of a map is in the set.
module _ (maps : DwarfMaps) (mod_name : List ℕ) where
  abbrev IsListed : {A : Type 0} → List (Named (List (Named A))) → Type 0
  IsListed table = listed mod_name table ≡ true → listed mod_name (module_names maps) ≡ true

  names_listed : listed mod_name (module_names maps) ≡ (
      listed mod_name maps.mod_member_offsets
      || (listed mod_name maps.mod_type_sizes
          || (listed mod_name maps.mod_func2vf || (listed mod_name maps.mod_func2pc || false))))
  unfolding module_names lookup_name
  names_listed =
      listed-insert mod_name maps.mod_member_offsets _
      ∙ ap (λ b. listed mod_name maps.mod_member_offsets || b)
          (listed-insert mod_name maps.mod_type_sizes _
            ∙ ap (λ b. listed mod_name maps.mod_type_sizes || b)
                (listed-insert mod_name maps.mod_func2vf _
                  ∙ ap (λ b. listed mod_name maps.mod_func2vf || b)
                      (listed-insert mod_name maps.mod_func2pc [])))

  pub func2pc_listed : IsListed maps.mod_func2pc
  func2pc_listed h = ground (arith, names_listed)

  pub func2vf_listed : IsListed maps.mod_func2vf
  func2vf_listed h = ground (arith, names_listed)

  pub sizes_listed : IsListed maps.mod_type_sizes
  sizes_listed h = ground (arith, names_listed)

  pub offsets_listed : IsListed maps.mod_member_offsets
  offsets_listed h = ground (arith, names_listed)
