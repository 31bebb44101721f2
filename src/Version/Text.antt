-- ===== src/Version/Text.antt =====
-- The operations of std::string that src/version_utils.cc uses, and what it reads from the host.
use cephtrace.Base.{ℕ, Bool, List, [], ◌∷◌, Option, none, some, ◌==◌, if◌then◌else◌, any, codes}
use cephtrace.Select.Targets.{starts_with}

-- The text up to the first occurrence of a byte, and what follows it (the whole text if there is
-- none).
unfoldable pub before : ℕ → List ℕ → List ℕ
before sep [] = []
before sep (c ∷ cs) = let rest = before sep cs in if c == sep then [] else c ∷ rest

unfoldable pub behind_first : ℕ → List ℕ → List ℕ
behind_first sep [] = []
behind_first sep (c ∷ cs) = let rest = behind_first sep cs in if c == sep then cs else rest

abbrev pub has_byte : ℕ → List ℕ → Bool
has_byte sep text = any (λ c. c == sep) text

-- `path.substr(0, path.find_last_of('/') + 1)`.
unfoldable pub dirname_slash : List ℕ → List ℕ
dirname_slash [] = []
dirname_slash (c ∷ cs) =
    let rest = dirname_slash cs in
    if has_byte b'/' cs then c ∷ rest else if c == b'/' then c ∷ [] else []

-- `line.substr(line.find('/'))`, if there is a slash.
unfoldable pub from_slash : List ℕ → Option (List ℕ)
from_slash [] = none
from_slash (c ∷ cs) = let rest = from_slash cs in if c == b'/' then some (c ∷ cs) else rest

-- The text up to the first occurrence of a word.
unfoldable pub before_word : List ℕ → List ℕ → List ℕ
before_word word [] = []
before_word word (c ∷ cs) =
    let rest = before_word word cs in if starts_with word (c ∷ cs) then [] else c ∷ rest

-- Without one newline at the end.
unfoldable pub chomp : List ℕ → List ℕ
chomp [] = []
chomp (c ∷ []) = if c == 10 then [] else c ∷ []
chomp (c ∷ d ∷ cs) = c ∷ chomp (d ∷ cs)

abbrev pub deleted_text : List ℕ
deleted_text = codes "(deleted)"

-- An entry of /proc.
pub record ProcEntry : Type 0 where
  pub is_dir : Bool
  pub d_name : List ℕ

-- What is read from the host. `access_x` and `access_f` are `access` with `X_OK` and `F_OK`, `maps`
-- the lines of /proc/<pid>/maps if it opens, `exe_link` the target of /proc/<pid>/exe, `dl_path` the
-- path of a library that dlopen finds, `dpkg` and `rpm` what the query for a package prints (`none`
-- if the pipe does not open).
pub record System : Type 0 where
  pub access_x : List ℕ → Bool
  pub access_f : List ℕ → Bool
  pub path_env : Option (List ℕ)
  pub maps : ℕ → Option (List (List ℕ))
  pub exe_link : ℕ → Option (List ℕ)
  pub proc_entries : Option (List ProcEntry)
  pub dl_path : List ℕ → Option (List ℕ)
  pub dpkg : List ℕ → Option (List ℕ)
  pub rpm : List ℕ → Option (List ℕ)
