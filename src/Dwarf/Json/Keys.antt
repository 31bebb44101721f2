-- ===== src/Dwarf/Json/Keys.antt =====
-- The keys of the objects that are written are distinct.
use mathlib.Core.List.{append-nil, append_assoc}
use cephtrace.Base.{
  ℕ, ◌≡◌, refl, sym, ap, ◌∙◌, arith, Bool, true, false, List, [], ◌∷◌, ◌++◌, map, none,
  if◌then◌else◌, same_bytes, eq_of_same_bytes, same_bytes_refl, is_empty, codes, All, All-imp,
  All-zip, subst, Bool-cases, inl, inr,
}
use cephtrace.Select.Embedded.{Named}
use cephtrace.Select.Embedded.Import.{lookup_name}
use cephtrace.Dwarf.Json.{JsonLibrary, IsDistinct, entry, header, assign, assign_all}

other_bytes : (a b : List ℕ) → same_bytes a b ≡ false → same_bytes b a ≡ false
other_bytes a b h = elim (Bool-cases (same_bytes b a)) [
  | inr e ↦ e
  | inl e ↦
      absurd
        (ground (arith, ap (λ c. same_bytes a c) (eq_of_same_bytes b a e), same_bytes_refl a, h))
]

module _ {A B : Type 0} (f : Named A → Named B) (same : (e : Named A) → (f e).name ≡ e.name) where
  lookup-map :
      (name : List ℕ) (es : List (Named A))
      → lookup_name name es ≡ none
      → lookup_name name (map f es) ≡ none
  unfolding lookup_name
  lookup-map name [] h = refl
  lookup-map name (e ∷ es) h = elim (Bool-cases (same_bytes name e.name)) [
    | inl k ↦ absurd (cc)
    | inr k ↦ rw (same e, k) (lookup-map name es (sym (rw k refl) ∙ h))
  ]

  pub map-IsDistinct : (es : List (Named A)) → IsDistinct es → IsDistinct (map f es)
  map-IsDistinct [] d = tt
  map-IsDistinct (e ∷ es) (h, d) =
      (ap (λ n. lookup_name n (map f es)) (same e) ∙ lookup-map e.name es h, map-IsDistinct es d)

module _ {A : Type 0} where
  -- No entry has the name.
  others_of_lookup :
      (name : List ℕ) (es : List (Named A))
      → lookup_name name es ≡ none
      → All (λ e. same_bytes name e.name ≡ false) es
  unfolding lookup_name
  others_of_lookup name [] h = tt
  others_of_lookup name (e ∷ es) h = elim (Bool-cases (same_bytes name e.name)) [
    | inl k ↦ absurd (cc)
    | inr k ↦ (k, others_of_lookup name es (sym (rw k refl) ∙ h))
  ]

  lookup-snoc :
      (name : List ℕ) (es : List (Named A)) (e : Named A)
      → lookup_name name es ≡ none
      → same_bytes name e.name ≡ false
      → lookup_name name (es ++ e ∷ []) ≡ none
  unfolding lookup_name
  lookup-snoc name [] e h k = rw k refl
  lookup-snoc name (d ∷ es) e h k = elim (Bool-cases (same_bytes name d.name)) [
    | inl l ↦ absurd (cc)
    | inr l ↦ rw l (lookup-snoc name es e (sym (rw l refl) ∙ h) k)
  ]

  snoc-IsDistinct :
      (es : List (Named A)) (e : Named A)
      → IsDistinct es
      → lookup_name e.name es ≡ none
      → IsDistinct (es ++ e ∷ [])
  unfolding lookup_name
  snoc-IsDistinct [] e d h = (refl, tt)
  snoc-IsDistinct (x ∷ es) e (n, d) h = elim (Bool-cases (same_bytes e.name x.name)) [
    | inl k ↦ absurd (cc)
    | inr k ↦ (
      lookup-snoc x.name es e n (other_bytes e.name x.name k),
      snoc-IsDistinct es e d (sym (rw k refl) ∙ h),
    )
  ]

module _ (lib : JsonLibrary) where
  assign-new :
      (e : Named lib.Json) (es : List (Named lib.Json))
      → lookup_name e.name es ≡ none
      → assign lib e es ≡ es ++ e ∷ []
  unfolding assign lookup_name
  assign-new e [] h = refl
  assign-new e (d ∷ es) h = elim (Bool-cases (same_bytes e.name d.name)) [
    | inl k ↦ absurd (cc)
    | inr k ↦ rw k (ap (λ r. d ∷ r) (assign-new e es (sym (rw k refl) ∙ h)))
  ]

  -- New keys are added at the end, and all keys are distinct then.
  pub assign_all-new :
      (es hs : List (Named lib.Json))
      → IsDistinct hs
      → IsDistinct es
      → All (λ e. lookup_name e.name hs ≡ none) es
      → (assign_all lib es hs ≡ hs ++ es) × IsDistinct (assign_all lib es hs)
  unfolding assign_all
  assign_all-new [] hs d g h = (sym (append-nil hs), d)
  assign_all-new (e ∷ es) hs d (n, g) (h, k) =
      let added = assign-new e hs h in
      let later = All-zip _ _ es k (others_of_lookup e.name es n) in
      let fresh : All (λ x. lookup_name x.name (hs ++ e ∷ []) ≡ none) es =
        All-imp _ _ (λ x both. lookup-snoc x.name hs e both.0 (other_bytes e.name x.name both.1)) es
          later in
      let rest = assign_all-new es (hs ++ e ∷ []) (snoc-IsDistinct hs e d h) g fresh in
      (
        ap (assign_all lib es) added ∙ rest.0 ∙ append_assoc hs (e ∷ []) es,
        subst (λ l. IsDistinct (assign_all lib es l)) (sym added) rest.1,
      )

  -- The name is not one of the keys of metadata.
  abbrev pub IsModuleName : List ℕ → Type 0
  IsModuleName name =
      (same_bytes name (codes "version") ≡ false) × (same_bytes name (codes "arch") ≡ false)

  pub header-IsDistinct : (version arch : List ℕ) → IsDistinct (header lib version arch)
  unfolding lookup_name
  header-IsDistinct version arch = by_length (is_empty version) (is_empty arch)
    where
      version_entry : Named lib.Json
      version_entry = entry lib (codes "version") (lib.text version)

      arch_entry : Named lib.Json
      arch_entry = entry lib (codes "arch") (lib.text arch)

      by_length :
          (v a : Bool)
          → IsDistinct
              ((if v then [] else version_entry ∷ []) ++ (if a then [] else arch_entry ∷ []))
      by_length true true = tt
      by_length true false = (refl, tt)
      by_length false true = (refl, tt)
      by_length false false = (refl, (refl, tt))

  pub lookup-header :
      (name version arch : List ℕ)
      → IsModuleName name
      → lookup_name name (header lib version arch) ≡ none
  unfolding lookup_name
  lookup-header name version arch (h, g) = by_length (is_empty version) (is_empty arch)
    where
      version_entry : Named lib.Json
      version_entry = entry lib (codes "version") (lib.text version)

      arch_entry : Named lib.Json
      arch_entry = entry lib (codes "arch") (lib.text arch)

      by_length :
          (v a : Bool)
          → lookup_name name
              ((if v then [] else version_entry ∷ []) ++ (if a then [] else arch_entry ∷ []))
            ≡ none
      by_length true true = refl
      by_length true false = rw g refl
      by_length false true = rw h refl
      by_length false false = rw (h, g) refl
