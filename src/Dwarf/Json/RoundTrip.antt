-- ===== src/Dwarf/Json/RoundTrip.antt =====
-- What `import_from_json` reads from a file that `export_to_json` wrote.
use mathlib.Core.List.{append_assoc}
use cephtrace.Base.{
  ℕ, ◌<◌, ◌≡◌, refl, sym, subst, ap, ◌∙◌, Bool, true, false, ◌&&◌, ◌||◌, List, [], ◌∷◌, ◌++◌, map,
  Option, none, some, if◌then◌else◌, codes, u32_mod, u64_mod, All, All-imp, is_empty, same_bytes,
  same_bytes_refl, Bool-cases, inl, inr,
}
use cephtrace.Select.Embedded.{Named}
use cephtrace.Select.Embedded.Import.{lookup_name, put_all, entries_of, DwarfMaps}
use cephtrace.Select.Embedded.Import.Last.{lookup_in, or_earlier}
use cephtrace.Select.Process.{get_basename}
use cephtrace.Dwarf.Json.{
  JsonLibrary, IsDistinct, encode, header, assign_all, Attempt, done, thrown, entry, or_none,
  func_json, table_json, id_entry, module_json, text_entry, module_entry, module_names,
  export_to_json, key_of, import_items, import_key, stored_as, then_next, has_key, has_some,
  import_pcs, import_sizes, import_offsets, import_vars, import_module_json, is_module,
  import_entry, import_entries, version_matches, is_expected, cleared_maps, import_parsed,
  import_from_json, read_func,
}
use cephtrace.Dwarf.Json.Keys.{
  map-IsDistinct, assign_all-new, IsModuleName, header-IsDistinct, lookup-header,
}
use cephtrace.Dwarf.Json.Values.{
  IsJson, VarFits, key_of-object, read_func-json, import_items-encode,
}
use cephtrace.Dwarf.Json.Tables.{
  IsDistinct-lookup, All-lookup, store_tables, store_tables-all, func2pc_listed, func2vf_listed,
  sizes_listed, offsets_listed,
}

-- Maps that the parser can hold: keys are distinct, module names have no slash and are not those of
-- metadata, and numbers are in the range of their types.
pub record AreMaps (lib : JsonLibrary) (maps : DwarfMaps) : Type 0 where
  pub names : IsDistinct (module_names maps)
  pub reserved : All (λ n. IsModuleName lib n.name) (module_names maps)
  pub plain : All (λ n. get_basename n.name ≡ n.name) (module_names maps)
  pub pcs : All (λ m. All (λ e. e.value < u64_mod) m.value) maps.mod_func2pc
  pub vars : All (λ m. All (λ e. All VarFits e.value) m.value) maps.mod_func2vf
  pub sizes : All (λ m. All (λ e. e.value < u32_mod) m.value) maps.mod_type_sizes
  pub offsets : All (λ m. All (λ e. e.value < u32_mod) m.value) maps.mod_member_offsets
  pub pc_keys : All (λ m. IsDistinct m.value) maps.mod_func2pc
  pub var_keys : All (λ m. IsDistinct m.value) maps.mod_func2vf
  pub size_keys : All (λ m. IsDistinct m.value) maps.mod_type_sizes
  pub offset_keys : All (λ m. IsDistinct m.value) maps.mod_member_offsets

module _ (lib : JsonLibrary) (laws : IsJson lib) (build_id : List ℕ → Option (List ℕ))
    (maps : DwarfMaps) (are : AreMaps lib maps) where
  -- What a module's object adds to the maps.
  abbrev stored : List ℕ → DwarfMaps → DwarfMaps
  stored key m = record {
    mod_func2pc = put_all key (entries_of (lookup_name key maps.mod_func2pc)) m.mod_func2pc;
    mod_func2vf = put_all key (entries_of (lookup_name key maps.mod_func2vf)) m.mod_func2vf;
    mod_type_sizes =
        put_all key (entries_of (lookup_name key maps.mod_type_sizes)) m.mod_type_sizes;
    mod_member_offsets =
        put_all key (entries_of (lookup_name key maps.mod_member_offsets)) m.mod_member_offsets;
  }

  abbrev stored_all : List (Named Bool) → DwarfMaps → DwarfMaps
  stored_all ns m = record {
    mod_func2pc = store_tables maps.mod_func2pc ns m.mod_func2pc;
    mod_func2vf = store_tables maps.mod_func2vf ns m.mod_func2vf;
    mod_type_sizes = store_tables maps.mod_type_sizes ns m.mod_type_sizes;
    mod_member_offsets = store_tables maps.mod_member_offsets ns m.mod_member_offsets;
  }

  -- One of a module's objects.
  import_key-table :
      {A : Type 0} (read : lib.Json → Option A) (enc : A → lib.Json) (key : List ℕ)
      (table t : List (Named (List (Named A)))) (j : Option lib.Json)
      → j ≡ some (table_json lib enc key table)
      → IsDistinct (entries_of (lookup_name key table))
      → All (λ e. read (enc e.value) ≡ some e.value) (entries_of (lookup_name key table))
      → import_key lib read key j t ≡ done (put_all key (entries_of (lookup_name key table)) t)
  unfolding table_json
  import_key-table read enc key table t j e d h =
      ap (λ o. import_key lib read key o t) e
      ∙ ap (λ es. import_items lib read key es t)
          (laws.items-object _ (map-IsDistinct (encode lib enc) (λ x. refl) _ d))
      ∙ import_items-encode lib laws read enc key (entries_of (lookup_name key table)) t h

  module _ (key : List ℕ) where
    -- The four objects of a module, behind its build id.
    abbrev tables : List (Named lib.Json)
    tables =
        entry lib (codes "func2pc") (table_json lib lib.unsigned key maps.mod_func2pc)
        ∷ entry lib (codes "type_sizes") (table_json lib lib.unsigned key maps.mod_type_sizes)
        ∷ entry lib (codes "member_offsets")
            (table_json lib lib.unsigned key maps.mod_member_offsets)
        ∷ entry lib (codes "func2vf") (table_json lib (func_json lib) key maps.mod_func2vf)
        ∷ []

    -- The build id stands under a name of its own.
    behind_id :
        (o : Option (List ℕ)) (k : List ℕ)
        → same_bytes k (codes "build_id") ≡ false
        → lookup_name k (id_entry lib o ++ tables) ≡ lookup_name k tables
    unfolding lookup_name
    behind_id none k h = refl
    behind_id (some bid) k h = rw h refl

    tables-IsDistinct : (o : Option (List ℕ)) → IsDistinct (id_entry lib o ++ tables)
    unfolding lookup_name
    tables-IsDistinct none = (refl, (refl, (refl, (refl, tt))))
    tables-IsDistinct (some bid) = (refl, (refl, (refl, (refl, (refl, tt)))))

    table_at :
        (k : List ℕ) (j : lib.Json)
        → same_bytes k (codes "build_id") ≡ false
        → lookup_name k tables ≡ some j
        → key_of lib k (module_json lib build_id maps key) ≡ some j
    unfolding module_json
    table_at k j h e =
        key_of-object lib laws k _ (tables-IsDistinct (build_id key))
        ∙ behind_id (build_id key) k h
        ∙ e

    pcs-stored :
        (m : DwarfMaps)
        → import_pcs lib key (module_json lib build_id maps key) m
          ≡ done (record m {
            mod_func2pc = put_all key (entries_of (lookup_name key maps.mod_func2pc)) m.mod_func2pc;
          })
    unfolding import_pcs lookup_name
    pcs-stored m =
        ap (λ a. stored_as a (λ t. record m { mod_func2pc = t }))
          (import_key-table lib.get_uint64 lib.unsigned key maps.mod_func2pc m.mod_func2pc _
            (table_at (codes "func2pc") _ refl refl)
            (IsDistinct-lookup key maps.mod_func2pc are.pc_keys)
            (All-imp _ _ (λ e h. laws.get_uint64-unsigned e.value h) _
              (All-lookup (λ n. n < u64_mod) key maps.mod_func2pc are.pcs)))

    sizes-stored :
        (m : DwarfMaps)
        → import_sizes lib key (module_json lib build_id maps key) m
          ≡ done (record m {
            mod_type_sizes =
                put_all key (entries_of (lookup_name key maps.mod_type_sizes)) m.mod_type_sizes;
          })
    unfolding import_sizes lookup_name
    sizes-stored m =
        ap (λ a. stored_as a (λ t. record m { mod_type_sizes = t }))
          (import_key-table lib.get_uint32 lib.unsigned key maps.mod_type_sizes m.mod_type_sizes _
            (table_at (codes "type_sizes") _ refl refl)
            (IsDistinct-lookup key maps.mod_type_sizes are.size_keys)
            (All-imp _ _ (λ e h. laws.get_uint32-unsigned e.value h) _
              (All-lookup (λ n. n < u32_mod) key maps.mod_type_sizes are.sizes)))

    offsets-stored :
        (m : DwarfMaps)
        → import_offsets lib key (module_json lib build_id maps key) m
          ≡ done (record m {
            mod_member_offsets =
                put_all key
                  (entries_of (lookup_name key maps.mod_member_offsets))
                  m.mod_member_offsets;
          })
    unfolding import_offsets lookup_name
    offsets-stored m =
        ap (λ a. stored_as a (λ t. record m { mod_member_offsets = t }))
          (import_key-table lib.get_uint32 lib.unsigned key maps.mod_member_offsets
            m.mod_member_offsets _ (table_at (codes "member_offsets") _ refl refl)
            (IsDistinct-lookup key maps.mod_member_offsets are.offset_keys)
            (All-imp _ _ (λ e h. laws.get_uint32-unsigned e.value h) _
              (All-lookup (λ n. n < u32_mod) key maps.mod_member_offsets are.offsets)))

    vars-stored :
        (m : DwarfMaps)
        → import_vars lib key (module_json lib build_id maps key) m
          ≡ done (record m {
            mod_func2vf = put_all key (entries_of (lookup_name key maps.mod_func2vf)) m.mod_func2vf;
          })
    unfolding import_vars lookup_name
    vars-stored m =
        ap (λ a. stored_as a (λ t. record m { mod_func2vf = t }))
          (import_key-table (read_func lib) (func_json lib) key maps.mod_func2vf m.mod_func2vf _
            (table_at (codes "func2vf") _ refl refl)
            (IsDistinct-lookup key maps.mod_func2vf are.var_keys)
            (All-imp _ _ (λ e h. read_func-json lib laws e.value h) _
              (All-lookup (λ v. All VarFits v) key maps.mod_func2vf are.vars)))

    import_module_json-stored :
        (m : DwarfMaps)
        → import_module_json lib key (module_json lib build_id maps key) m ≡ done (stored key m)
    unfolding import_module_json
    import_module_json-stored m =
        let j = module_json lib build_id maps key in
        let sizes = import_sizes lib key j in
        let offsets = import_offsets lib key j in
        let vars = import_vars lib key j in
        ap (λ a. then_next (then_next (then_next a sizes) offsets) vars) (pcs-stored m)
        ∙ ap (λ a. then_next (then_next a offsets) vars) (sizes-stored _)
        ∙ ap (λ a. then_next a vars) (offsets-stored _)
        ∙ vars-stored _

    module_json-is_module : is_module lib (module_json lib build_id maps key) ≡ true
    unfolding is_module module_json lookup_name
    module_json-is_module =
        ap
          (λ o.
            lib.is_object (module_json lib build_id maps key)
            && (has_some o || has_key lib (codes "func2vf") (module_json lib build_id maps key)))
          (table_at (codes "func2pc") _ refl refl)
        ∙ ap (λ b. b && true) (laws.object-is_object _)

  import_entry-stored :
      (n : Named Bool) (m : DwarfMaps)
      → get_basename n.name ≡ n.name
      → import_entry lib (module_entry lib build_id maps n) m ≡ done (stored n.name m)
  unfolding import_entry
  import_entry-stored n m h =
      let j = module_json lib build_id maps n.name in
      ap (λ b. if b then import_module_json lib (get_basename n.name) j m else done m)
        (module_json-is_module n.name)
      ∙ ap (λ k. import_module_json lib k j m) h
      ∙ import_module_json-stored n.name m

  after_entry : Attempt DwarfMaps → List (Named lib.Json) → Attempt DwarfMaps
  after_entry a es = if a.completed then import_entries lib es a.value else a

  import_entries-stored :
      (ns : List (Named Bool)) (m : DwarfMaps)
      → All (λ n. get_basename n.name ≡ n.name) ns
      → import_entries lib (map (module_entry lib build_id maps) ns) m ≡ done (stored_all ns m)
  unfolding import_entries after_entry store_tables
  import_entries-stored [] m h = refl
  import_entries-stored (n ∷ ns) m (h, hs) =
      ap (λ a. after_entry a (map (module_entry lib build_id maps) ns)) (import_entry-stored n m h)
      ∙ import_entries-stored ns (stored n.name m) hs

  -- Metadata is passed over.
  text_entry-passed :
      (key value : List ℕ) (es : List (Named lib.Json)) (m : DwarfMaps)
      → import_entries lib (text_entry lib key value ++ es) m ≡ import_entries lib es m
  unfolding import_entries import_entry is_module
  text_entry-passed key value es m = elim (Bool-cases (is_empty value)) [
    | inl e ↦ rw e refl
    | inr e ↦ rw (e, laws.text-is_object value) refl
  ]

  version_matches-own :
      (version arch : List ℕ) (es : List (Named lib.Json))
      → IsDistinct (header lib version arch ++ es)
      → version_matches lib version (lib.object (header lib version arch ++ es)) ≡ true
  unfolding version_matches lookup_name
  version_matches-own version arch es d = elim (Bool-cases (is_empty version)) [
    | inl e ↦ rw e refl
    | inr e ↦
        ap
          (λ b.
            b
            || is_expected lib version (
                or_none (key_of lib (codes "version") (lib.object (header lib version arch ++ es)))
                  lib.get_text))
          e
        ∙ ap (λ o. is_expected lib version (or_none o lib.get_text))
            (key_of-object lib laws (codes "version") (header lib version arch ++ es) d
              ∙ ap
                  (λ b. lookup_name (codes "version") (
                    ((if b then [] else entry lib (codes "version") (lib.text version) ∷ [])
                      ++ text_entry lib (codes "arch") arch)
                    ++ es))
                  e)
        ∙ ap (is_expected lib version) (laws.get_text-text version)
        ∙ same_bytes_refl version
  ]

  -- The keys are assigned one by one, and are new.
  document :
      (version arch : List ℕ)
      → let es = map (module_entry lib build_id maps) (module_names maps) in
        let hs = header lib version arch in
        (assign_all lib es hs ≡ hs ++ es) × IsDistinct (assign_all lib es hs)
  document version arch =
      let es = map (module_entry lib build_id maps) (module_names maps) in
      assign_all-new lib es (header lib version arch) (header-IsDistinct lib version arch)
        (map-IsDistinct (module_entry lib build_id maps) (λ n. refl) (module_names maps) are.names)
        (All-entries (module_names maps) are.reserved)
    where
      All-entries :
          (ns : List (Named Bool))
          → All (λ n. IsModuleName lib n.name) ns
          → All
              (λ e. lookup_name e.name (header lib version arch) ≡ none)
              (map (module_entry lib build_id maps) ns)
      All-entries [] h = tt
      All-entries (n ∷ ns) (h, hs) = (lookup-header lib n.name version arch h, All-entries ns hs)

  import_from_json-export :
      (version arch : List ℕ) (old : DwarfMaps) (file : lib.Text)
      → export_to_json lib build_id arch version maps ≡ some file
      → import_from_json lib version (some file) old
        ≡ done (stored_all (module_names maps) (cleared_maps old))
  unfolding import_from_json export_to_json
  import_from_json-export version arch old file dumped =
      let es = map (module_entry lib build_id maps) (module_names maps) in
      let hs = header lib version arch in
      let doc = document version arch in
      let j = lib.object (hs ++ es) in
      let same : lib.dump j ≡ some file = ap (λ l. lib.dump (lib.object l)) (sym doc.0) ∙ dumped in
      let distinct : IsDistinct (hs ++ es) = subst (λ l. IsDistinct l) doc.0 doc.1 in
      ap (import_parsed lib version old) (laws.parse-dump j file same)
      ∙ ap (λ b. if b then import_entries lib (lib.items j) (cleared_maps old) else thrown old)
          (version_matches-own version arch es distinct)
      ∙ ap (λ is. import_entries lib is (cleared_maps old)) (laws.items-object (hs ++ es) distinct)
      ∙ ap (λ is. import_entries lib is (cleared_maps old))
          (append_assoc (text_entry lib (codes "version") version)
            (text_entry lib (codes "arch") arch) es)
      ∙ text_entry-passed (codes "version") version (text_entry lib (codes "arch") arch ++ es)
          (cleared_maps old)
      ∙ text_entry-passed (codes "arch") arch es (cleared_maps old)
      ∙ import_entries-stored (module_names maps) (cleared_maps old) are.plain

-- The result of an import over earlier maps, against the maps that were exported: under every
-- module and name.
pub record IsRestored (maps old : DwarfMaps) (r : Attempt DwarfMaps) : Type 0 where
  pub completed : r.completed ≡ true
  pub pcs :
      (mod_name name : List ℕ)
      → lookup_in mod_name name r.value.mod_func2pc ≡ lookup_in mod_name name maps.mod_func2pc
  pub vars :
      (mod_name name : List ℕ)
      → lookup_in mod_name name r.value.mod_func2vf ≡ lookup_in mod_name name maps.mod_func2vf
  pub sizes :
      (mod_name name : List ℕ)
      → lookup_in mod_name name r.value.mod_type_sizes ≡ lookup_in mod_name name maps.mod_type_sizes
  pub offsets :
      (mod_name name : List ℕ)
      → lookup_in mod_name name r.value.mod_member_offsets
        ≡ or_earlier
            (lookup_in mod_name name maps.mod_member_offsets)
            (lookup_in mod_name name old.mod_member_offsets)

or_earlier-none : {A : Type 0} (o p : Option A) → p ≡ none → or_earlier o p ≡ o
or_earlier-none none p h = h
or_earlier-none (some a) p h = refl

-- If the export of maps writes a file, which it does unless a text is not UTF-8, the import of that
-- version reads it, whatever the maps were before, if keys are distinct, module names have no slash
-- and are neither version nor arch, and numbers fit their types: it succeeds, and under every module
-- and name there is the address, the description of variables and the type size that was exported, and
-- no other. Of the member offsets, there is the one exported, or else the one that was there before:
-- unlike the other three maps, that map is not cleared.
pub import_from_json-export-IsRestored :
    (lib : JsonLibrary) (laws : IsJson lib) (build_id : List ℕ → Option (List ℕ))
    (version arch : List ℕ) (maps old : DwarfMaps) (file : lib.Text)
    → AreMaps lib maps
    → export_to_json lib build_id arch version maps ≡ some file
    → IsRestored maps old (import_from_json lib version (some file) old)
unfolding lookup_name
import_from_json-export-IsRestored lib laws build_id version arch maps old file are dumped =
    let ns = module_names maps in
    subst (IsRestored maps old)
      (sym (import_from_json-export lib laws build_id maps are version arch old file dumped))
      (record {
        completed = refl;
        pcs = λ m n.
            store_tables-all m n maps.mod_func2pc ns [] are.pc_keys (func2pc_listed maps m)
            ∙ or_earlier-none _ _ refl;
        vars = λ m n.
            store_tables-all m n maps.mod_func2vf ns [] are.var_keys (func2vf_listed maps m)
            ∙ or_earlier-none _ _ refl;
        sizes = λ m n.
            store_tables-all m n maps.mod_type_sizes ns [] are.size_keys (sizes_listed maps m)
            ∙ or_earlier-none _ _ refl;
        offsets = λ m n.
            store_tables-all m n maps.mod_member_offsets ns old.mod_member_offsets are.offset_keys
              (offsets_listed maps m);
      })
