-- ===== src/Version/Search/Mapped.antt =====
-- What `find_library_path_from_maps` of src/version_utils.cc finds.
use cephtrace.Base.{
  ℕ, ◌≡◌, ◌⊎◌, inl, inr, refl, arith, true, false, List, [], ◌∷◌, ◌++◌, Option, none, some, Any,
}
use cephtrace.Bpf.Queue.{require}
use cephtrace.Bpf.Rules.{require_some}
use cephtrace.Select.Process.{get_basename}
use cephtrace.Select.Targets.{starts_with, contains}
use cephtrace.Version.Text.{System, from_slash, dirname_slash, deleted_text}
use cephtrace.Version.Search.{
  proc_root, library_of_path, or_line, library_of_lines, find_library_path_from_maps,
}

-- The path r comes from the line: the line's path is not deleted, its file name begins with the
-- library's, and r is that path, or the library's name in the same directory if that exists.
pub record ComesFrom (sys : System) (lib_name : List ℕ) (pid : ℕ) (r line : List ℕ) : Type 0 where
  pub path : List ℕ
  pub in_line : from_slash line ≡ some path
  pub present : contains deleted_text path ≡ false
  pub same_name : starts_with lib_name (get_basename path) ≡ true
  pub chosen :
      (r ≡ path)
      ⊎ ((r ≡ dirname_slash path ++ lib_name)
          × (sys.access_f (proc_root pid ++ (dirname_slash path ++ lib_name)) ≡ true))

module _ (sys : System) (lib_name : List ℕ) (pid : ℕ) where
  path-chosen :
      (path r : List ℕ)
      → library_of_path sys lib_name pid path ≡ some r
      → (contains deleted_text path ≡ false)
        × (starts_with lib_name (get_basename path) ≡ true)
        × ((r ≡ path)
            ⊎ ((r ≡ dirname_slash path ++ lib_name)
                × (sys.access_f (proc_root pid ++ (dirname_slash path ++ lib_name)) ≡ true)))
  unfolding library_of_path
  path-chosen path r e = ground arith

  line-ComesFrom :
      (line r : List ℕ) (o : Option (List ℕ))
      → from_slash line ≡ o
      → require o none (library_of_path sys lib_name pid) ≡ some r
      → ComesFrom sys lib_name pid r line
  line-ComesFrom line r none found e = cc
  line-ComesFrom line r (some path) found e =
      let h = path-chosen path r e in
      record { path = path; in_line = found; present = h.0; same_name = h.1; chosen = h.2 }

  -- A line that gives a path, or what the other lines give.
  or_line-ComesFrom :
      (line : List ℕ) (lines : List (List ℕ)) (o : Option (List ℕ)) (rest : List ℕ)
      → ((r : List ℕ) → o ≡ some r → ComesFrom sys lib_name pid r line)
      → (rest ≡ []) ⊎ Any (ComesFrom sys lib_name pid rest) lines
      → (or_line o rest ≡ []) ⊎ Any (ComesFrom sys lib_name pid (or_line o rest)) (line ∷ lines)
  or_line-ComesFrom line lines none rest f (inl e) = inl e
  or_line-ComesFrom line lines none rest f (inr g) = inr (inr g)
  or_line-ComesFrom line lines (some r) rest f g = inr (inl (f r refl))

  lines-ComesFrom :
      (lines : List (List ℕ))
      → (library_of_lines sys lib_name pid lines ≡ [])
        ⊎ Any (ComesFrom sys lib_name pid (library_of_lines sys lib_name pid lines)) lines
  unfolding library_of_lines
  lines-ComesFrom [] = inl refl
  lines-ComesFrom (line ∷ lines) =
      or_line-ComesFrom line lines
        (require (from_slash line) none (library_of_path sys lib_name pid))
        (library_of_lines sys lib_name pid lines)
        (λ r e. line-ComesFrom line r (from_slash line) refl e) (lines-ComesFrom lines)

  -- If the maps of the process can be read, the path found in them is empty or comes from one of
  -- their lines: the file of the line is not deleted, its name begins with the library's, and the
  -- path is that of the line, or that of a file in the same directory whose name is the library's
  -- and which exists below the root of the process.
  pub find_library_path_from_maps-ComesFrom :
      (lines : List (List ℕ))
      → sys.maps pid ≡ some lines
      → let r = find_library_path_from_maps sys lib_name pid in
        (r ≡ []) ⊎ Any (ComesFrom sys lib_name pid r) lines
  unfolding find_library_path_from_maps
  find_library_path_from_maps-ComesFrom lines e =
      require_some (λ (r : List ℕ). (r ≡ []) ⊎ Any (ComesFrom sys lib_name pid r) lines)
        (sys.maps pid) lines [] (library_of_lines sys lib_name pid) e (lines-ComesFrom lines)
