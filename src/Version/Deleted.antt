-- ===== src/Version/Deleted.antt =====
-- src/version_utils.cc: is a library or an executable replaced on disk while the old one runs?
pub mod All
use cephtrace.Base.{
  is_positive, ℕ, ◌/◌, Bool, true, false, ◌&&◌, List, [], ◌∷◌, Option, none, some, ltb,
  if◌then◌else◌, any, u32_mod,
}
use cephtrace.Bpf.Queue.{require}
use cephtrace.Select.Targets.{contains}
use cephtrace.Select.OsdId.{is_digit, stoi}
use cephtrace.Version.Text.{System, ProcEntry, deleted_text}

abbrev pub marks_deleted : List ℕ → List ℕ → Bool
marks_deleted name line = contains name line && contains deleted_text line

-- Maps that cannot be opened count as deleted.
unfoldable pub check_process_library_deleted : System → ℕ → List ℕ → Bool
check_process_library_deleted sys pid lib_name =
    require (sys.maps pid) true (any (marks_deleted lib_name))

abbrev pub has_library : System → List ℕ → ℕ → Bool
has_library sys lib_name pid = require (sys.maps pid) false (any (contains lib_name))

-- A directory whose name begins with a digit.
unfoldable pub is_pid_entry : ProcEntry → Bool
is_pid_entry entry = entry.is_dir && starts_with_digit entry.d_name
  where
    starts_with_digit : List ℕ → Bool
    starts_with_digit [] = false
    starts_with_digit (c ∷ cs) = is_digit c

-- A pid in front of those that follow.
abbrev pub push_pid : Bool → ℕ → Option (List ℕ) → Option (List ℕ)
push_pid keep pid none = none
push_pid keep pid (some pids) = some (if keep then pid ∷ pids else pids)

-- The processes that have the library; `none` is the exception of `std::stoi`.
unfoldable pub library_pids : System → List ℕ → List ProcEntry → Option (List ℕ)
library_pids sys lib_name [] = some []
library_pids sys lib_name (entry ∷ entries) =
    let rest = library_pids sys lib_name entries in
    if is_pid_entry entry
    then (require (stoi entry.d_name) none λ pid. push_pid (has_library sys lib_name pid) pid rest)
    else rest

unfoldable pub check_library_deleted : System → ℕ → List ℕ → Option Bool
check_library_deleted sys process_id lib_name =
    if is_positive process_id
    then some (check_process_library_deleted sys process_id lib_name)
    else require sys.proc_entries (some true) λ entries.
      require (library_pids sys lib_name entries) none
        λ pids. some (any (λ pid. check_process_library_deleted sys pid lib_name) pids)

-- A link that cannot be read counts as not deleted.
unfoldable pub check_process_executable_deleted : System → ℕ → List ℕ → Bool
check_process_executable_deleted sys pid exe_name =
    require (sys.exe_link pid) false
      λ target. contains deleted_text target && contains exe_name target

-- The loop over /proc, which stops at the first process that qualifies.
unfoldable pub any_executable_deleted : System → List ℕ → List ProcEntry → Option Bool
any_executable_deleted sys exe_name [] = some false
any_executable_deleted sys exe_name (entry ∷ entries) =
    let rest = any_executable_deleted sys exe_name entries in
    if is_pid_entry entry
    then (require (stoi entry.d_name) none λ pid.
        require (sys.exe_link pid) rest
          λ target. if marks_deleted exe_name target then some true else rest)
    else rest

unfoldable pub check_executable_deleted : System → ℕ → List ℕ → Option Bool
check_executable_deleted sys process_id exe_name =
    if is_positive process_id
    then some (check_process_executable_deleted sys process_id exe_name)
    else require sys.proc_entries (some false) (any_executable_deleted sys exe_name)
