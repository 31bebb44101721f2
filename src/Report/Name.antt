-- ===== src/Report/Name.antt =====
-- src/osdtrace.cc: `format_object_name`.
pub mod RoundTrip
use cephtrace.Base.{
  ℕ, ◌+◌, ◌-◌, ◌/◌, ◌%◌, Bool, not, ◌&&◌, ◌||◌, List, [], ◌∷◌, ◌++◌, ltb, ◌==◌, if◌then◌else◌,
  length,
}

-- `hex[n]` for n below 16.
unfoldable pub hex_digit : ℕ → ℕ
hex_digit n = if ltb n 10 then b'0' + n else b'A' + (n - 10)

-- The byte is copied as it is; the flag is `name.size() != 1`.
unfoldable pub is_plain : Bool → ℕ → Bool
is_plain many c = ltb 0x20 c && not (c == 0x7f) && not (c == b'%') && (not (c == b'-') || many)

unfoldable pub escape_byte : Bool → ℕ → List ℕ
escape_byte many c =
    if is_plain many c then c ∷ [] else b'%' ∷ hex_digit (c / 16) ∷ hex_digit (c % 16) ∷ []

unfoldable pub escape_bytes : Bool → List ℕ → List ℕ
escape_bytes many [] = []
escape_bytes many (c ∷ cs) = escape_byte many c ++ escape_bytes many cs

unfoldable pub format_object_name : List ℕ → List ℕ
format_object_name [] = b'-' ∷ []
format_object_name (c ∷ cs) = escape_bytes (not (length (c ∷ cs) == 1)) (c ∷ cs)
