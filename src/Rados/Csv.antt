-- ===== src/Rados/Csv.antt =====
-- src/radostrace.cc: `csv_escape` of `print_event`.
pub mod RoundTrip
use cephtrace.Base.{ℕ, Bool, ◌||◌, List, [], ◌∷◌, ◌++◌, ◌==◌, if◌then◌else◌, any}

-- The characters that need quotes.
abbrev pub is_special : ℕ → Bool
is_special c = c == b',' || c == b'"' || c == b'\n' || c == b'\r'

-- The loop that doubles the quotes.
unfoldable pub double_quotes : List ℕ → List ℕ
double_quotes [] = []
double_quotes (c ∷ cs) =
    let rest = double_quotes cs in if c == b'"' then b'"' ∷ c ∷ rest else c ∷ rest

unfoldable pub csv_escape : List ℕ → List ℕ
csv_escape text = if any is_special text then b'"' ∷ double_quotes text ++ b'"' ∷ [] else text
