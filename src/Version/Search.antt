-- ===== src/Version/Search.antt =====
-- src/version_utils.cc: `find_executable_path`, `find_library_path` and what it calls.
pub mod First
pub mod Mapped
use cephtrace.Base.{
  ℕ, Bool, not, ◌&&◌, List, [], ◌∷◌, ◌++◌, Option, none, some, ◌==◌, if◌then◌else◌, same_bytes,
  is_empty, get_or, codes,
}
use cephtrace.Bpf.Queue.{require}
use cephtrace.Select.Process.{get_basename}
use cephtrace.Select.Targets.{starts_with, contains}
use cephtrace.Select.OsdId.Spelled.{shown}
use cephtrace.Version.Text.{System, from_slash, dirname_slash, deleted_text}

-- The loop that splits at each colon; `current` is what follows the last one.
unfoldable pub split_colons : List ℕ → List ℕ → List (List ℕ)
split_colons current [] = current ∷ []
split_colons current (c ∷ cs) =
    if c == b':' then current ∷ split_colons [] cs else split_colons (current ++ c ∷ []) cs

abbrev pub split_path : List ℕ → List (List ℕ)
split_path text = split_colons [] text

abbrev pub in_dir : List ℕ → List ℕ → List ℕ
in_dir name dir = dir ++ b'/' ∷ name

-- The first directory that has the name, as a path; the empty string if none has it.
unfoldable pub search_dirs : (List ℕ → Bool) → List ℕ → List (List ℕ) → List ℕ
search_dirs accessible name [] = []
search_dirs accessible name (dir ∷ dirs) =
    let rest = search_dirs accessible name dirs in
    if accessible (in_dir name dir) then in_dir name dir else rest

-- The loop over the directories of PATH, which passes over empty ones.
unfoldable pub search_path : (List ℕ → Bool) → List ℕ → List (List ℕ) → List ℕ
search_path accessible name [] = []
search_path accessible name (dir ∷ dirs) =
    let rest = search_path accessible name dirs in
    if not (is_empty dir) && accessible (in_dir name dir) then in_dir name dir else rest

abbrev pub common_dirs : List (List ℕ)
common_dirs =
    codes "/usr/local/bin"
    ∷ codes "/bin"
    ∷ codes "/sbin"
    ∷ codes "/usr/sbin"
    ∷ codes "/usr/local/sbin"
    ∷ codes "./bin/"
    ∷ []

-- A result that is not empty, or what the next search finds.
abbrev pub or_search : List ℕ → List ℕ → List ℕ
or_search found next = if is_empty found then next else found

abbrev pub search_env : System → List ℕ → Option (List ℕ) → List ℕ
search_env sys exe_name none = []
search_env sys exe_name (some path_env) = search_path sys.access_x exe_name (split_path path_env)

unfoldable pub find_executable_path : System → List ℕ → List ℕ
find_executable_path sys exe_name =
    let usr_bin_path = codes "/usr/bin/" ++ exe_name in
    if get_or exe_name 0 0 == b'/' && sys.access_x exe_name
    then exe_name
    else if sys.access_x usr_bin_path
    then usr_bin_path
    else or_search (search_env sys exe_name sys.path_env)
        (search_dirs sys.access_x exe_name common_dirs)

-- What /proc/<pid>/root prefixes.
abbrev pub proc_root : ℕ → List ℕ
proc_root pid = codes "/proc/" ++ shown pid ++ codes "/root"

-- The path of a line of the maps, if it names the library and its file is not deleted.
unfoldable pub library_of_path : System → List ℕ → ℕ → List ℕ → Option (List ℕ)
library_of_path sys lib_name pid path =
    let base = get_basename path in
    let soname_path = dirname_slash path ++ lib_name in
    if contains deleted_text path
    then none
    else if not (starts_with lib_name base)
    then none
    else if not (same_bytes base lib_name) && sys.access_f (proc_root pid ++ soname_path)
    then some soname_path
    else some path

abbrev pub or_line : Option (List ℕ) → List ℕ → List ℕ
or_line none rest = rest
or_line (some path) rest = path

unfoldable pub library_of_lines : System → List ℕ → ℕ → List (List ℕ) → List ℕ
library_of_lines sys lib_name pid [] = []
library_of_lines sys lib_name pid (line ∷ lines) =
    or_line (require (from_slash line) none (library_of_path sys lib_name pid))
      (library_of_lines sys lib_name pid lines)

unfoldable pub find_library_path_from_maps : System → List ℕ → ℕ → List ℕ
find_library_path_from_maps sys lib_name pid =
    require (sys.maps pid) [] (library_of_lines sys lib_name pid)

abbrev pub library_dirs : List (List ℕ)
library_dirs =
    codes "./lib"
    ∷ codes "/lib"
    ∷ codes "/lib64"
    ∷ codes "/lib64/ceph"
    ∷ codes "/usr/lib"
    ∷ codes "/usr/lib64"
    ∷ codes "/usr/lib64/ceph"
    ∷ codes "/lib/x86_64-linux-gnu"
    ∷ codes "/usr/lib/x86_64-linux-gnu"
    ∷ codes "/usr/lib/x86_64-linux-gnu/ceph"
    ∷ codes "/usr/local/lib"
    ∷ codes "/snap/microceph/current/lib/x86_64-linux-gnu"
    ∷ codes "/snap/microceph/current/lib/x86_64-linux-gnu/ceph"
    ∷ []

unfoldable pub possible_names : List ℕ → List (List ℕ)
possible_names lib_name =
    if contains (codes ".so") lib_name
    then lib_name ∷ []
    else (codes "lib" ++ lib_name ++ codes ".so")
      ∷ (codes "lib" ++ lib_name ++ codes ".so.1")
      ∷ (codes "lib" ++ lib_name ++ codes ".so.2")
      ∷ []

-- The inner loop, over the names in one directory.
unfoldable pub search_names : (List ℕ → Bool) → List ℕ → List (List ℕ) → List ℕ
search_names accessible dir [] = []
search_names accessible dir (name ∷ names) =
    let rest = search_names accessible dir names in
    if accessible (in_dir name dir) then in_dir name dir else rest

unfoldable pub search_all : (List ℕ → Bool) → List (List ℕ) → List (List ℕ) → List ℕ
search_all accessible names [] = []
search_all accessible names (dir ∷ dirs) =
    or_search (search_names accessible dir names) (search_all accessible names dirs)

abbrev pub search_library_dirs : System → List ℕ → List ℕ → List ℕ
search_library_dirs sys lib_name root_prefix =
    search_all (λ path. sys.access_f (root_prefix ++ path)) (possible_names lib_name) library_dirs

-- The path of a library that dlopen finds, unless it is only the name asked for.
abbrev pub loaded_path : List ℕ → Option (List ℕ) → List ℕ
loaded_path lib_name none = []
loaded_path lib_name (some path) = if same_bytes path lib_name then [] else path

-- `none` is the pid -1.
unfoldable pub find_library_path : System → List ℕ → Option ℕ → List ℕ
find_library_path sys lib_name none =
    or_search (loaded_path lib_name (sys.dl_path lib_name)) (search_library_dirs sys lib_name [])
find_library_path sys lib_name (some pid) =
    or_search (find_library_path_from_maps sys lib_name pid)
      (search_library_dirs sys lib_name (proc_root pid))
