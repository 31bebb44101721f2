-- ===== src/Dwarf/Json/Values.antt =====
-- The values that `export_to_json` writes are those that `import_from_json` reads.
use cephtrace.Base.{
  ℕ, ◌<◌, ◌≡◌, refl, ap, ◌∙◌, Bool, true, false, List, [], ◌∷◌, map, Option, some, codes, u32_mod,
  u64_mod, All,
}
use cephtrace.Bpf.Types.{VarLocation, Field}
use cephtrace.Select.Embedded.{Named, VarPath}
use cephtrace.Select.Embedded.Import.{lookup_name, put_in, put_all}
use cephtrace.Dwarf.Json.{
  JsonLibrary, IsDistinct, entry, or_none, field_json, location_json, var_json, func_json, encode,
  key_of, read_field, read_location, read_all, read_var, read_func, done, import_items,
}

-- What the library does with values of each kind. A text that is dumped is parsed as what it was
-- dumped from.
pub record IsJson (lib : JsonLibrary) : Type 0 where
  pub parse-dump : (j : lib.Json) (t : lib.Text) → lib.dump j ≡ some t → lib.parse t ≡ some j
  pub items-object : (es : List (Named lib.Json)) → IsDistinct es → lib.items (lib.object es) ≡ es
  pub elements-array : (js : List lib.Json) → lib.elements (lib.array js) ≡ js
  pub object-is_object : (es : List (Named lib.Json)) → lib.is_object (lib.object es) ≡ true
  pub text-is_object : (s : List ℕ) → lib.is_object (lib.text s) ≡ false
  pub get_text-text : (s : List ℕ) → lib.get_text (lib.text s) ≡ some s
  pub get_bool-boolean : (b : Bool) → lib.get_bool (lib.boolean b) ≡ some b
  pub get_int-integer : (w : ℕ) → w < u32_mod → lib.get_int (lib.integer w) ≡ some w
  pub get_uint32-unsigned : (n : ℕ) → n < u32_mod → lib.get_uint32 (lib.unsigned n) ≡ some n
  pub get_uint64-unsigned : (n : ℕ) → n < u64_mod → lib.get_uint64 (lib.unsigned n) ≡ some n

-- The patterns of an `int`, throughout the description of a variable.
abbrev pub FieldFits : Field → Type 0
FieldFits f = f.offset < u32_mod

abbrev pub VarFits : VarPath → Type 0
VarFits v = (v.varloc.reg < u32_mod) × (v.varloc.offset < u32_mod) × All FieldFits v.fields

module _ (lib : JsonLibrary) (laws : IsJson lib) where
  pub key_of-object :
      (key : List ℕ) (es : List (Named lib.Json))
      → IsDistinct es
      → key_of lib key (lib.object es) ≡ lookup_name key es
  unfolding key_of
  key_of-object key es d =
      rw (laws.object-is_object es) (ap (lookup_name key) (laws.items-object es d))

  -- A key that is there, with a value that can be read.
  read_key :
      {A : Type 0} (read : lib.Json → Option A) (key : List ℕ) (es : List (Named lib.Json))
      (j : lib.Json) (a : A)
      → IsDistinct es
      → lookup_name key es ≡ some j
      → read j ≡ some a
      → or_none (key_of lib key (lib.object es)) read ≡ some a
  read_key read key es j a d h g = ap (λ o. or_none o read) (key_of-object key es d ∙ h) ∙ g

  read_all-map :
      {A : Type 0} (read : lib.Json → Option A) (enc : A → lib.Json) (xs : List A)
      → All (λ a. read (enc a) ≡ some a) xs
      → read_all lib read (map enc xs) ≡ some xs
  read_all-map read enc [] h = refl
  read_all-map read enc (x ∷ xs) (h, hs) =
      ap (λ o. or_none o (λ a. or_none (read_all lib read (map enc xs)) (λ rest. some (a ∷ rest))))
        h
      ∙ ap (λ o. or_none o (λ rest. some (x ∷ rest))) (read_all-map read enc xs hs)

  read_array :
      {A : Type 0} (read : lib.Json → Option A) (enc : A → lib.Json) (xs : List A)
      → All (λ a. read (enc a) ≡ some a) xs
      → read_all lib read (lib.elements (lib.array (map enc xs))) ≡ some xs
  read_array read enc xs h =
      ap (read_all lib read) (laws.elements-array (map enc xs)) ∙ read_all-map read enc xs h

  read_field-json : (f : Field) → FieldFits f → read_field lib (field_json lib f) ≡ some f
  unfolding read_field field_json lookup_name
  read_field-json f h =
      let es : List (Named lib.Json) =
        entry lib (codes "offset") (lib.integer f.offset)
        ∷ entry lib (codes "pointer") (lib.boolean f.pointer)
        ∷ [] in
      let distinct : IsDistinct es = (refl, (refl, tt)) in
      rw
        (read_key lib.get_int (codes "offset") es _ _ distinct refl
          (laws.get_int-integer f.offset h))
        (rw
          (read_key lib.get_bool (codes "pointer") es _ _ distinct refl
            (laws.get_bool-boolean f.pointer))
          refl)

  read_location-json :
      (l : VarLocation)
      → l.reg < u32_mod
      → l.offset < u32_mod
      → read_location lib (location_json lib l) ≡ some l
  unfolding read_location location_json lookup_name
  read_location-json l h g =
      let es : List (Named lib.Json) =
        entry lib (codes "reg") (lib.integer l.reg)
        ∷ entry lib (codes "offset") (lib.integer l.offset)
        ∷ entry lib (codes "stack") (lib.boolean l.stack)
        ∷ [] in
      let distinct : IsDistinct es = (refl, (refl, (refl, tt))) in
      rw (read_key lib.get_int (codes "reg") es _ _ distinct refl (laws.get_int-integer l.reg h)) (
        rw
          (read_key lib.get_int (codes "offset") es _ _ distinct refl
            (laws.get_int-integer l.offset g))
          (rw
            (read_key lib.get_bool (codes "stack") es _ _ distinct refl
              (laws.get_bool-boolean l.stack))
            refl))

  All-fields :
      (fs : List Field)
      → All FieldFits fs
      → All (λ f. read_field lib (field_json lib f) ≡ some f) fs
  All-fields [] h = tt
  All-fields (f ∷ fs) (h, hs) = (read_field-json f h, All-fields fs hs)

  read_var-json : (v : VarPath) → VarFits v → read_var lib (var_json lib v) ≡ some v
  unfolding read_var var_json lookup_name
  read_var-json v (h, g, k) =
      let es : List (Named lib.Json) =
        entry lib (codes "location") (location_json lib v.varloc)
        ∷ entry lib (codes "fields") (lib.array (map (field_json lib) v.fields))
        ∷ [] in
      let distinct : IsDistinct es = (refl, (refl, tt)) in
      rw
        (read_key (read_location lib) (codes "location") es _ _ distinct refl
          (read_location-json v.varloc h g))
        (rw
          (read_key (λ a. read_all lib (read_field lib) (lib.elements a)) (codes "fields") es _ _
            distinct refl
            (read_array (read_field lib) (field_json lib) v.fields (All-fields v.fields k)))
          refl)

  All-vars :
      (vs : List VarPath) → All VarFits vs → All (λ v. read_var lib (var_json lib v) ≡ some v) vs
  All-vars [] h = tt
  All-vars (v ∷ vs) (h, hs) = (read_var-json v h, All-vars vs hs)

  pub read_func-json :
      (vs : List VarPath) → All VarFits vs → read_func lib (func_json lib vs) ≡ some vs
  unfolding read_func func_json lookup_name
  read_func-json vs h =
      read_key (λ a. read_all lib (read_var lib) (lib.elements a)) (codes "var_fields") _ _ _
        (refl, tt) refl (read_array (read_var lib) (var_json lib) vs (All-vars vs h))

  -- The items of a map are stored as they were.
  pub import_items-encode :
      {A : Type 0} (read : lib.Json → Option A) (enc : A → lib.Json) (key : List ℕ)
      (es : List (Named A)) (table : List (Named (List (Named A))))
      → All (λ e. read (enc e.value) ≡ some e.value) es
      → import_items lib read key (map (encode lib enc) es) table ≡ done (put_all key es table)
  unfolding put_all
  import_items-encode read enc key [] table h = refl
  import_items-encode read enc key (e ∷ es) table (h, hs) =
      rw h (import_items-encode read enc key es (put_in key e table) hs)
