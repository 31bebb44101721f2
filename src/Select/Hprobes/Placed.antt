-- ===== src/Select/Hprobes/Placed.antt =====
-- Where the probes find the variables of a function.
use cephtrace.Base.{
  ℕ, zero, suc, ◌+◌, ◌%◌, ◌≤◌, ◌<◌, ◌≡◌, ◌≢◌, ◌⊎◌, inl, inr, refl, subst, ◌∙◌, arith, Bool, true,
  not, ◌&&◌, List, [], ◌∷◌, Option, none, some, ◌==◌, ltb, if◌then◌else◌, length, get_elem?, all,
  All, same_bytes, eq_of_same_bytes, Bool-cases, Option-cases,
}
use cephtrace.Bpf.Types.{VarField}
use cephtrace.Bpf.Rules.{require_some}
use cephtrace.Select.Embedded.{Named, VarPath}
use cephtrace.Select.Process.{get_basename}
use cephtrace.Select.Embedded.Import.{lookup_name, entries_of, DwarfMaps}
use cephtrace.Select.Hprobes.{
  func_id, kernel_fields, kernel_field, Hprobes, set_key, fill_vars, first_id, fill_functions,
  fill_map_hprobes,
}

-- The function has an id of its own and not more variables than ids up to the next one.
abbrev pub IsNumbered : Named (List VarPath) → Type 0
IsNumbered e = (lookup_name e.name func_id ≢ none) × (length e.value ≤ 10)

-- No function occurs twice.
abbrev pub AllDistinct : List (Named (List VarPath)) → Type 0
AllDistinct [] = Unit {0}
AllDistinct (e ∷ es) = All (λ d. d.name ≢ e.name) es × AllDistinct es

-- The description of a variable for the kernel.
abbrev pub kernel_var : VarPath → VarField
kernel_var vf = record { varloc = vf.varloc; fields = vf.fields; size = length vf.fields }

kernel_field-var :
    (vf : VarPath) → length vf.fields ≤ kernel_fields → kernel_field vf ≡ some (kernel_var vf)
unfolding kernel_field
kernel_field-var vf h = room (length vf.fields) h
  where
    room :
        (n : ℕ)
        → n ≤ kernel_fields
        → (if ltb kernel_fields n then none else some (kernel_var vf)) ≡ some (kernel_var vf)
    room n h = ground arith

-- The two loops where every variable has room.
unfoldable vars_placed : ℕ → List VarPath → Hprobes → Hprobes
vars_placed key_idx [] hprobes = hprobes
vars_placed key_idx (vf ∷ vfs) hprobes =
    vars_placed (key_idx + 1) vfs (set_key key_idx (kernel_var vf) hprobes)

unfoldable functions_placed : List (Named (List VarPath)) → Hprobes → Hprobes
functions_placed [] hprobes = hprobes
functions_placed (x ∷ xs) hprobes =
    functions_placed xs (vars_placed (first_id x.name) x.value hprobes)

-- The variables of the function stand under its id and the ids that follow.
abbrev pub IsPlaced : Hprobes → Named (List VarPath) → Type 0
IsPlaced hprobes e =
    (i : ℕ) (vf : VarPath)
    → get_elem? e.value i ≡ some vf
    → hprobes (first_id e.name + i) ≡ some (kernel_var vf)

-- A lookup in a table of numbers whose values pass a test, and are different.
module _ (p : ℕ → Bool) (name : List ℕ) (value : ℕ) where
  lookup-all :
      (es : List (Named ℕ))
      → all (λ e. p e.value) es ≡ true
      → lookup_name name es ≡ some value
      → p value ≡ true
  unfolding lookup_name
  lookup-all [] h e = cc
  lookup-all (d ∷ es) h e = elim (Bool-cases (same_bytes name d.name)) [
    | inl s ↦ ground arith
    | inr n ↦ ground (arith, lookup-all es)
  ]

abbrev distinct_values : List (Named ℕ) → Bool
distinct_values [] = true
distinct_values (e ∷ es) = all (λ d. not (d.value == e.value)) es && distinct_values es

lookup-distinct :
    (a b : List ℕ) (v w : ℕ) (es : List (Named ℕ))
    → distinct_values es ≡ true
    → a ≢ b
    → lookup_name a es ≡ some v
    → lookup_name b es ≡ some w
    → v ≢ w
unfolding lookup_name
lookup-distinct a b v w [] h n e f = cc
lookup-distinct a b v w (d ∷ es) h n e f = ground (
  arith,
  eq_of_same_bytes a d.name,
  eq_of_same_bytes b d.name,
  lookup-distinct a b v w es,
  lookup-all (λ u. not (u == d.value)) a v es,
  lookup-all (λ u. not (u == d.value)) b w es,
)

tens : all (λ e. e.value % 10 == 0) func_id ≡ true
tens = refl

func_id-distinct : distinct_values func_id ≡ true
func_id-distinct = refl

-- The ids of two functions are ten apart.
numbered-apart :
    (a b : List ℕ)
    → lookup_name a func_id ≢ none
    → lookup_name b func_id ≢ none
    → a ≢ b
    → (first_id a + 10 ≤ first_id b) ⊎ (first_id b + 10 ≤ first_id a)
unfolding first_id
numbered-apart a b ka kb n = elim (Option-cases (lookup_name a func_id)) [
  | inl e ↦ absurd (ka e)
  | inr (v, e) ↦ elim (Option-cases (lookup_name b func_id)) [
    | inl f ↦ absurd (kb f)
    | inr (w, f) ↦ ground (
      arith,
      lookup-distinct a b v w func_id func_id-distinct n e f,
      lookup-all (λ u. u % 10 == 0) a v func_id tens e,
      lookup-all (λ u. u % 10 == 0) b w func_id tens f,
    )
  ]
]

vars_placed-outside :
    (key_idx k : ℕ) (vfs : List VarPath) (hprobes : Hprobes)
    → (k < key_idx) ⊎ (key_idx + length vfs ≤ k)
    → vars_placed key_idx vfs hprobes k ≡ hprobes k
unfolding vars_placed
vars_placed-outside key_idx k [] hprobes h = refl
vars_placed-outside key_idx k (vf ∷ vfs) hprobes h =
    vars_placed-outside (key_idx + 1) k vfs _ (ground arith) ∙ ground arith

vars_placed-inside :
    (key_idx i : ℕ) (vfs : List VarPath) (hprobes : Hprobes) (vf : VarPath)
    → get_elem? vfs i ≡ some vf
    → vars_placed key_idx vfs hprobes (key_idx + i) ≡ some (kernel_var vf)
unfolding vars_placed
vars_placed-inside key_idx i [] hprobes vf h = cc
vars_placed-inside key_idx zero (v ∷ vfs) hprobes vf h =
    vars_placed-outside (key_idx + 1) (key_idx + 0) vfs _ (inl (omega arith)) ∙ ground arith
vars_placed-inside key_idx (suc i) (v ∷ vfs) hprobes vf h =
    subst
      (λ k.
        vars_placed (key_idx + 1) vfs (λ k. if k == key_idx then some (kernel_var v) else hprobes k)
          k
        ≡ some (kernel_var vf))
      (omega arith) (vars_placed-inside (key_idx + 1) i vfs _ vf h)

-- The function does not reach the key.
abbrev Misses : ℕ → Named (List VarPath) → Type 0
Misses k e = (k < first_id e.name) ⊎ (first_id e.name + length e.value ≤ k)

functions_placed-outside :
    (k : ℕ) (es : List (Named (List VarPath))) (hprobes : Hprobes)
    → All (Misses k) es
    → functions_placed es hprobes k ≡ hprobes k
unfolding functions_placed
functions_placed-outside k [] hprobes h = refl
functions_placed-outside k (e ∷ es) hprobes (h, hs) =
    functions_placed-outside k es _ hs ∙ vars_placed-outside (first_id e.name) k e.value hprobes h

get-length : {A : Type 0} (xs : List A) (i : ℕ) (a : A) → get_elem? xs i ≡ some a → i < length xs
get-length [] i a h = cc
get-length (x ∷ xs) zero a h = omega arith
get-length (x ∷ xs) (suc i) a h = omega (arith, get-length xs i a h)

-- The functions behind one that is numbered do not reach its variables.
others-Misses :
    (e : Named (List VarPath)) (i : ℕ) (es : List (Named (List VarPath)))
    → IsNumbered e
    → i < length e.value
    → All IsNumbered es
    → All (λ d. d.name ≢ e.name) es
    → All (Misses (first_id e.name + i)) es
others-Misses e i [] known small all n = tt
others-Misses e i (d ∷ es) known small (k, ks) (n, ns) =
    (ground (arith, numbered-apart d.name e.name), others-Misses e i es known small ks ns)

functions_placed-IsPlaced :
    (es : List (Named (List VarPath))) (hprobes : Hprobes)
    → All IsNumbered es
    → AllDistinct es
    → All (IsPlaced (functions_placed es hprobes)) es
unfolding functions_placed
functions_placed-IsPlaced [] hprobes known distinct = tt
functions_placed-IsPlaced (e ∷ es) hprobes (k, ks) (n, ns) = (
  λ i vf h.
      functions_placed-outside (first_id e.name + i) es _
        (others-Misses e i es k (get-length e.value i vf h) ks n)
      ∙ vars_placed-inside (first_id e.name) i e.value hprobes vf h,
  functions_placed-IsPlaced es _ ks ns,
)

-- Every variable of the function has members for the array.
abbrev pub HasRoom : Named (List VarPath) → Type 0
HasRoom e = All (λ vf. length vf.fields ≤ kernel_fields) e.value

fill_vars-placed :
    (key_idx : ℕ) (vfs : List VarPath) (hprobes : Hprobes)
    → All (λ vf. length vf.fields ≤ kernel_fields) vfs
    → fill_vars key_idx vfs hprobes ≡ some (vars_placed key_idx vfs hprobes)
unfolding fill_vars vars_placed
fill_vars-placed key_idx [] hprobes h = refl
fill_vars-placed key_idx (vf ∷ vfs) hprobes (h, hs) =
    let Ends : Option Hprobes → Type 0 = λ o. o ≡ some (vars_placed key_idx (vf ∷ vfs) hprobes) in
    require_some Ends (kernel_field vf) (kernel_var vf) none
      (λ vfk. fill_vars (key_idx + 1) vfs (set_key key_idx vfk hprobes)) (kernel_field-var vf h)
      (fill_vars-placed (key_idx + 1) vfs (set_key key_idx (kernel_var vf) hprobes) hs)

fill_functions-placed :
    (es : List (Named (List VarPath))) (hprobes : Hprobes)
    → All HasRoom es
    → fill_functions es hprobes ≡ some (functions_placed es hprobes)
unfolding fill_functions functions_placed
fill_functions-placed [] hprobes h = refl
fill_functions-placed (e ∷ es) hprobes (h, hs) =
    let first = vars_placed (first_id e.name) e.value hprobes in
    let Ends : Option Hprobes → Type 0 = λ o. o ≡ some (functions_placed es first) in
    require_some Ends (fill_vars (first_id e.name) e.value hprobes) first none (fill_functions es)
      (fill_vars-placed (first_id e.name) e.value hprobes h) (fill_functions-placed es first hs)

-- Of the functions of the module, if the table of ids knows them, none occurs twice, each has ten
-- variables at most and each variable ten members at most, and whatever the map held before: no
-- array is left, and the probes find variable number i of a function under its id plus i.
pub fill_map_hprobes-IsPlaced :
    (mod_path : List ℕ) (dwarf : DwarfMaps) (hprobes : Hprobes)
    → let es = entries_of (lookup_name (get_basename mod_path) dwarf.mod_func2vf) in
      All IsNumbered es
      → AllDistinct es
      → All HasRoom es
      → (filled : Hprobes) × (fill_map_hprobes mod_path dwarf hprobes ≡ some filled)
        × All (IsPlaced filled) es
fill_map_hprobes-IsPlaced mod_path dwarf hprobes known distinct room =
    let es = entries_of (lookup_name (get_basename mod_path) dwarf.mod_func2vf) in
    (
      functions_placed es hprobes,
      fill_functions-placed es hprobes room,
      functions_placed-IsPlaced es hprobes known distinct,
    )
