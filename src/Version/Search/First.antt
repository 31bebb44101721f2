-- ===== src/Version/Search/First.antt =====
-- The searches of src/version_utils.cc take the first candidate that can be accessed.
use mathlib.Core.List.{append-nil, append_assoc}
use cephtrace.Base.{
  ℕ, ◌≡◌, ◌⊎◌, inl, inr, refl, sym, subst, ap, ◌∙◌, arith, Bool, true, false, not, List, [], ◌∷◌,
  ◌++◌, map, Option, none, some, ◌==◌, if◌then◌else◌, filter, is_empty, get_or, codes, All,
  Bool-cases,
}
use cephtrace.Version.Text.{System, has_byte}
use cephtrace.Version.Search.{
  split_colons, split_path, in_dir, search_dirs, search_path, common_dirs, or_search, search_env,
  find_executable_path, library_dirs, possible_names, search_names, search_all, search_library_dirs,
}

-- r is the first of the candidates that passes the test, or empty if none does.
abbrev pub IsFirst : (List ℕ → Bool) → List (List ℕ) → List ℕ → Type 0
IsFirst p [] r = r ≡ []
IsFirst p (x ∷ xs) r = ((p x ≡ true) × (r ≡ x)) ⊎ ((p x ≡ false) × IsFirst p xs r)

-- A path behind a directory is not empty.
in_dir-is_empty : (name dir : List ℕ) → is_empty (in_dir name dir) ≡ false
in_dir-is_empty name [] = refl
in_dir-is_empty name (c ∷ cs) = refl

abbrev NoneEmpty : List (List ℕ) → Type 0
NoneEmpty xs = All (λ x. is_empty x ≡ false) xs

or_search-IsFirst :
    (p : List ℕ → Bool) (xs ys : List (List ℕ)) (r s : List ℕ)
    → NoneEmpty xs
    → IsFirst p xs r
    → IsFirst p ys s
    → IsFirst p (xs ++ ys) (or_search r s)
or_search-IsFirst p [] ys r s full f g = subst (λ z. IsFirst p ys (or_search z s)) (sym f) g
or_search-IsFirst p (x ∷ xs) ys r s (h, hs) (inl (e, f)) g =
    inl (e, ap (λ z. or_search z s) f ∙ ground arith)
or_search-IsFirst p (x ∷ xs) ys r s (h, hs) (inr (e, f)) g =
    inr (e, or_search-IsFirst p xs ys r s hs f g)

module _ (p : List ℕ → Bool) (name : List ℕ) where
  search_dirs-IsFirst :
      (dirs : List (List ℕ)) → IsFirst p (map (in_dir name) dirs) (search_dirs p name dirs)
  unfolding search_dirs
  search_dirs-IsFirst [] = refl
  search_dirs-IsFirst (dir ∷ dirs) = ground (arith, search_dirs-IsFirst dirs)

  search_path-IsFirst :
      (dirs : List (List ℕ))
      → IsFirst p
          (map (in_dir name) (filter (λ dir. not (is_empty dir)) dirs))
          (search_path p name dirs)
  unfolding search_path
  search_path-IsFirst [] = refl
  search_path-IsFirst (dir ∷ dirs) = ground (arith, search_path-IsFirst dirs)

  map-in_dir-NoneEmpty : (dirs : List (List ℕ)) → NoneEmpty (map (in_dir name) dirs)
  map-in_dir-NoneEmpty [] = tt
  map-in_dir-NoneEmpty (dir ∷ dirs) = (in_dir-is_empty name dir, map-in_dir-NoneEmpty dirs)

-- The directories of PATH that are not empty.
abbrev pub path_dirs : Option (List ℕ) → List (List ℕ)
path_dirs none = []
path_dirs (some path_env) = filter (λ dir. not (is_empty dir)) (split_path path_env)

-- Where an executable is looked for, in this order: the name itself, if it is an absolute path,
-- /usr/bin, the directories of PATH, and six more.
abbrev pub executable_candidates : System → List ℕ → List (List ℕ)
executable_candidates sys exe_name =
    (if get_or exe_name 0 0 == b'/' then exe_name ∷ [] else [])
    ++ (codes "/usr/bin/" ++ exe_name) ∷ map (in_dir exe_name) (path_dirs sys.path_env)
    ++ map (in_dir exe_name) common_dirs

search_env-IsFirst :
    (sys : System) (exe_name : List ℕ) (path_env : Option (List ℕ))
    → IsFirst sys.access_x
        (map (in_dir exe_name) (path_dirs path_env))
        (search_env sys exe_name path_env)
search_env-IsFirst sys exe_name none = refl
search_env-IsFirst sys exe_name (some path_env) =
    search_path-IsFirst sys.access_x exe_name (split_path path_env)

-- The path that `find_executable_path` returns is the first candidate that can be executed, and it is
-- empty exactly if there is none.
pub find_executable_path-IsFirst :
    (sys : System) (exe_name : List ℕ)
    → IsFirst sys.access_x (executable_candidates sys exe_name) (find_executable_path sys exe_name)
unfolding find_executable_path
find_executable_path-IsFirst sys exe_name = ground (
  arith,
  or_search-IsFirst sys.access_x (map (in_dir exe_name) (path_dirs sys.path_env))
      (map (in_dir exe_name) common_dirs) (search_env sys exe_name sys.path_env)
      (search_dirs sys.access_x exe_name common_dirs)
      (map-in_dir-NoneEmpty sys.access_x exe_name (path_dirs sys.path_env))
      (search_env-IsFirst sys exe_name sys.path_env)
      (search_dirs-IsFirst sys.access_x exe_name common_dirs),
)

-- Every name in the first directory, then every name in the next.
abbrev pub library_candidates : List (List ℕ) → List (List ℕ) → List (List ℕ)
library_candidates names [] = []
library_candidates names (dir ∷ dirs) =
    map (λ name. in_dir name dir) names ++ library_candidates names dirs

module _ (p : List ℕ → Bool) where
  search_names-IsFirst :
      (dir : List ℕ) (names : List (List ℕ))
      → IsFirst p (map (λ name. in_dir name dir) names) (search_names p dir names)
  unfolding search_names
  search_names-IsFirst dir [] = refl
  search_names-IsFirst dir (name ∷ names) = ground (arith, search_names-IsFirst dir names)

  names-NoneEmpty :
      (dir : List ℕ) (names : List (List ℕ)) → NoneEmpty (map (λ name. in_dir name dir) names)
  names-NoneEmpty dir [] = tt
  names-NoneEmpty dir (name ∷ names) = (in_dir-is_empty name dir, names-NoneEmpty dir names)

  search_all-IsFirst :
      (names dirs : List (List ℕ))
      → IsFirst p (library_candidates names dirs) (search_all p names dirs)
  unfolding search_all
  search_all-IsFirst names [] = refl
  search_all-IsFirst names (dir ∷ dirs) =
      or_search-IsFirst p _ _ (search_names p dir names) (search_all p names dirs)
        (names-NoneEmpty dir names) (search_names-IsFirst dir names) (search_all-IsFirst names dirs)

-- The path that `search_library_dirs` returns is the first of the thirteen directories with the
-- first of the possible names that exists below the prefix, without the prefix, and it is empty
-- exactly if there is none.
pub search_library_dirs-IsFirst :
    (sys : System) (lib_name root_prefix : List ℕ)
    → IsFirst
        (λ path. sys.access_f (root_prefix ++ path))
        (library_candidates (possible_names lib_name) library_dirs)
        (search_library_dirs sys lib_name root_prefix)
search_library_dirs-IsFirst sys lib_name root_prefix =
    search_all-IsFirst (λ path. sys.access_f (root_prefix ++ path)) (possible_names lib_name)
      library_dirs

-- The directories with a colon between any two.
abbrev pub join_colons : List (List ℕ) → List ℕ
join_colons [] = []
join_colons (dir ∷ []) = dir
join_colons (dir ∷ next ∷ dirs) = dir ++ b':' ∷ join_colons (next ∷ dirs)

split_colons-nonempty :
    (current text : List ℕ)
    → (first : List ℕ) × (more : List (List ℕ)) × (split_colons current text ≡ first ∷ more)
unfolding split_colons
split_colons-nonempty current [] = (current, [], refl)
split_colons-nonempty current (c ∷ cs) = elim (Bool-cases (c == b':')) [
  | inl e ↦ (current, split_colons [] cs, ground arith)
  | inr e ↦
      let (first, more, f) = split_colons-nonempty (current ++ c ∷ []) cs in
      (first, more, ground arith)
]

join_colons-cons :
    (dir : List ℕ) (dirs : List (List ℕ)) (first : List ℕ) (more : List (List ℕ))
    → dirs ≡ first ∷ more
    → join_colons (dir ∷ dirs) ≡ dir ++ b':' ∷ join_colons dirs
join_colons-cons dir dirs first more e =
    subst (λ d. join_colons (dir ∷ d) ≡ dir ++ b':' ∷ join_colons d) (sym e) refl

split_colons-join :
    (current text : List ℕ) → join_colons (split_colons current text) ≡ current ++ text
unfolding split_colons
split_colons-join current [] = sym (append-nil current)
split_colons-join current (c ∷ cs) =
    let (first, more, f) = split_colons-nonempty [] cs in
    let at_colon = join_colons-cons current (split_colons [] cs) first more f in
    let behind = split_colons-join [] cs in
    let further = split_colons-join (current ++ c ∷ []) cs in
    let moved = append_assoc current (c ∷ []) cs in
    elim (Bool-cases (c == b':')) [ inl e ↦ ground arith | inr e ↦ ground arith ]

append-has_byte :
    (xs : List ℕ) (c : ℕ)
    → has_byte b':' xs ≡ false
    → (c == b':') ≡ false
    → has_byte b':' (xs ++ c ∷ []) ≡ false
append-has_byte [] c h e = ground arith
append-has_byte (x ∷ xs) c h e = ground (arith, append-has_byte xs c)

split_colons-plain :
    (current text : List ℕ)
    → has_byte b':' current ≡ false
    → All (λ dir. has_byte b':' dir ≡ false) (split_colons current text)
unfolding split_colons
split_colons-plain current [] h = (h, tt)
split_colons-plain current (c ∷ cs) h = elim (Bool-cases (c == b':')) [
  | inl e ↦ ground (arith, split_colons-plain [] cs refl)
  | inr e ↦
      ground (arith, split_colons-plain (current ++ c ∷ []) cs (append-has_byte current c h e))
]

-- The directories of PATH, with colons between them, are PATH, and none of them contains a colon.
pub split_path-join_colons :
    (text : List ℕ)
    → (join_colons (split_path text) ≡ text)
      × All (λ dir. has_byte b':' dir ≡ false) (split_path text)
split_path-join_colons text = (split_colons-join [] text, split_colons-plain [] text refl)
