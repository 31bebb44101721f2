-- ===== src/Version/Deleted/All.antt =====
-- The checks of src/version_utils.cc over all processes, entry by entry.
use cephtrace.Base.{
  is_positive, ℕ, ◌≡◌, inl, inr, refl, arith, Bool, true, false, not, ◌&&◌, ◌||◌, List, [], ◌∷◌,
  Option, none, some, if◌then◌else◌, any, all, Option-cases,
}
use cephtrace.Bpf.Queue.{require}
use cephtrace.Select.Targets.{contains}
use cephtrace.Select.OsdId.{stoi}
use cephtrace.Version.Text.{System, ProcEntry}
use cephtrace.Version.Deleted.{
  marks_deleted, check_process_library_deleted, has_library, is_pid_entry, push_pid, library_pids,
  check_library_deleted, any_executable_deleted, check_executable_deleted,
}

-- The name of a process directory is the number of a process.
abbrev pub is_readable : Option ℕ → Bool
is_readable none = false
is_readable (some pid) = true

abbrev pub has_pid : ProcEntry → Bool
has_pid entry = not (is_pid_entry entry) || is_readable (stoi entry.d_name)

-- One line of the maps of the process has both the name of the library and the mark.
abbrev pub maps_deleted : List ℕ → Option (List (List ℕ)) → Bool
maps_deleted lib_name none = false
maps_deleted lib_name (some lines) = any (marks_deleted lib_name) lines

abbrev pub loads_of : System → List ℕ → Option ℕ → Bool
loads_of sys lib_name none = false
loads_of sys lib_name (some pid) = maps_deleted lib_name (sys.maps pid)

abbrev pub loads_deleted : System → List ℕ → ProcEntry → Bool
loads_deleted sys lib_name entry = is_pid_entry entry && loads_of sys lib_name (stoi entry.d_name)

-- The process runs an executable of that name which is marked.
abbrev pub link_deleted : List ℕ → Option (List ℕ) → Bool
link_deleted exe_name none = false
link_deleted exe_name (some target) = marks_deleted exe_name target

abbrev pub runs_of : System → List ℕ → Option ℕ → Bool
runs_of sys exe_name none = false
runs_of sys exe_name (some pid) = link_deleted exe_name (sys.exe_link pid)

abbrev pub runs_deleted : System → List ℕ → ProcEntry → Bool
runs_deleted sys exe_name entry = is_pid_entry entry && runs_of sys exe_name (stoi entry.d_name)

marks-contains :
    (name : List ℕ) (lines : List (List ℕ))
    → any (marks_deleted name) lines ≡ true
    → any (contains name) lines ≡ true
marks-contains name [] h = h
marks-contains name (line ∷ lines) h = ground (arith, marks-contains name lines)

module _ (sys : System) (lib_name : List ℕ) where
  -- The second look at a process that has the library.
  checked-maps :
      (pid : ℕ)
      → (has_library sys lib_name pid && check_process_library_deleted sys pid lib_name)
        ≡ maps_deleted lib_name (sys.maps pid)
  unfolding check_process_library_deleted
  checked-maps pid = elim (Option-cases (sys.maps pid)) [
    | inl e ↦ ground arith
    | inr (lines, e) ↦ ground (arith, marks-contains lib_name lines)
  ]

  pushed :
      (keep : Bool) (pid : ℕ) (o : Option (List ℕ)) (check : ℕ → Bool)
      → require (push_pid keep pid o) none (λ pids. some (any check pids))
        ≡ require
            (require o none (λ pids. some (any check pids)))
            none
            (λ b. some ((keep && check pid) || b))
  pushed true pid none check = refl
  pushed true pid (some pids) check = refl
  pushed false pid none check = refl
  pushed false pid (some pids) check = refl

  -- The result of both passes.
  abbrev second_pass : Option (List ℕ) → Option Bool
  second_pass o =
      require o none λ pids. some (any (λ pid. check_process_library_deleted sys pid lib_name) pids)

  two_passes :
      (entries : List ProcEntry)
      → second_pass (library_pids sys lib_name entries)
        ≡ (if all has_pid entries then some (any (loads_deleted sys lib_name) entries) else none)
  unfolding library_pids
  two_passes [] = refl
  two_passes (entry ∷ entries) = elim (Option-cases (stoi entry.d_name)) [
    | inl e ↦ ground (arith, two_passes entries)
    | inr (pid, e) ↦ ground (
      arith,
      two_passes entries,
      checked-maps pid,
      pushed (has_library sys lib_name pid) pid (library_pids sys lib_name entries)
          (λ pid. check_process_library_deleted sys pid lib_name),
    )
  ]

  -- Without a process to look at, and if /proc can be read: the check ends in the exception of
  -- std::stoi if the name of some process directory is no `int`; otherwise it says whether some
  -- process has a line in its maps that has both the library's name and the mark of a deleted file.
  pub check_library_deleted-all :
      (process_id : ℕ) (entries : List ProcEntry)
      → is_positive process_id ≡ false
      → sys.proc_entries ≡ some entries
      → check_library_deleted sys process_id lib_name
        ≡ (if all has_pid entries then some (any (loads_deleted sys lib_name) entries) else none)
  unfolding check_library_deleted
  check_library_deleted-all process_id entries h e = ground (arith, two_passes entries)

module _ (sys : System) (exe_name : List ℕ) where
  one_pass :
      (entries : List ProcEntry)
      → all has_pid entries ≡ true
      → any_executable_deleted sys exe_name entries ≡ some (any (runs_deleted sys exe_name) entries)
  unfolding any_executable_deleted
  one_pass [] h = refl
  one_pass (entry ∷ entries) h = elim (Option-cases (stoi entry.d_name)) [
    | inl e ↦ ground (arith, one_pass entries)
    | inr (pid, e) ↦ ground (arith, one_pass entries)
  ]

  -- Without a process to look at, if /proc can be read and the name of every process directory is an
  -- `int`: the check says whether some process runs an executable whose path has both the name and
  -- the mark of a deleted file.
  pub check_executable_deleted-all :
      (process_id : ℕ) (entries : List ProcEntry)
      → is_positive process_id ≡ false
      → sys.proc_entries ≡ some entries
      → all has_pid entries ≡ true
      → check_executable_deleted sys process_id exe_name
        ≡ some (any (runs_deleted sys exe_name) entries)
  unfolding check_executable_deleted
  check_executable_deleted-all process_id entries h e valid = ground (arith, one_pass entries)
