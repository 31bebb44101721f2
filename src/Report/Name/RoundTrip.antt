-- ===== src/Report/Name/RoundTrip.antt =====
-- A formatted object name is one printable word, and it names one object only.
use cephtrace.Base.{
  ℕ, ◌+◌, ◌-◌, ◌*◌, ◌/◌, ◌%◌, ◌≤◌, ◌<◌, ◌≡◌, ◌≢◌, arith, refl, ap, ◌∙◌, Bool, true, false, not,
  List, [], ◌∷◌, ◌++◌, ltb, ◌==◌, if◌then◌else◌, length, All, All-append,
}
use cephtrace.Report.Name.{hex_digit, is_plain, escape_byte, escape_bytes, format_object_name}

-- What a reader of a formatted name waits for.
pub data Reading : Type 0 where
  text : Reading
  high : Reading
  low : ℕ → Reading

unfoldable pub hex_value : ℕ → ℕ
hex_value d = if ltb d b'A' then d - b'0' else d - b'A' + 10

unfoldable pub unescape : Reading → List ℕ → List ℕ
unescape m [] = []
unescape text (c ∷ cs) = elim (c == b'%') [ true ↦ unescape high cs | false ↦ c ∷ unescape text cs ]
unescape high (c ∷ cs) = unescape (low (hex_value c)) cs
unescape (low n) (c ∷ cs) = (n * 16 + hex_value c) ∷ unescape text cs

-- The name that a formatted name stands for.
unfoldable pub parse_object_name : List ℕ → List ℕ
parse_object_name [] = []
parse_object_name (c ∷ []) = if c == b'-' then [] else c ∷ []
parse_object_name (c ∷ d ∷ cs) = unescape text (c ∷ d ∷ cs)

hex_value-hex_digit : (n : ℕ) → n < 16 → hex_value (hex_digit n) ≡ n
unfolding hex_value hex_digit
hex_value-hex_digit n h = ground arith

unescape-escape_byte :
    (many : Bool) (c : ℕ) (rest : List ℕ)
    → c < 256
    → unescape text (escape_byte many c ++ rest) ≡ c ∷ unescape text rest
unfolding unescape escape_byte is_plain
unescape-escape_byte many c rest h =
    ground (arith, hex_value-hex_digit (c / 16), hex_value-hex_digit (c % 16))

unescape-escape_bytes :
    (many : Bool) (cs : List ℕ) → All (λ c. c < 256) cs → unescape text (escape_bytes many cs) ≡ cs
unfolding unescape escape_bytes
unescape-escape_bytes many [] h = refl
unescape-escape_bytes many (c ∷ cs) (h, hs) =
    unescape-escape_byte many c (escape_bytes many cs) h
    ∙ ap (◌∷◌ c) (unescape-escape_bytes many cs hs)

length-escape_bytes : (many : Bool) (cs : List ℕ) → length cs ≤ length (escape_bytes many cs)
unfolding escape_bytes escape_byte
length-escape_bytes many [] = omega arith
length-escape_bytes many (c ∷ cs) = ground (arith, length-escape_bytes many cs)

parse_long : (xs : List ℕ) → 2 ≤ length xs → parse_object_name xs ≡ unescape text xs
unfolding parse_object_name
parse_long [] h = absurd (omega arith)
parse_long (c ∷ []) h = absurd (omega arith)
parse_long (c ∷ d ∷ cs) h = refl

parse_one : (c : ℕ) → c < 256 → parse_object_name (escape_byte false c ++ []) ≡ c ∷ []
unfolding parse_object_name escape_byte is_plain unescape
parse_one c h = ground (arith, hex_value-hex_digit (c / 16), hex_value-hex_digit (c % 16))

-- A name of bytes can be read back from the word that is printed for it.
pub format_object_name-parse :
    (name : List ℕ) → All (λ c. c < 256) name → parse_object_name (format_object_name name) ≡ name
unfolding format_object_name parse_object_name escape_bytes
format_object_name-parse [] h = refl
format_object_name-parse (c ∷ []) (h, hs) = parse_one c h
format_object_name-parse (c ∷ d ∷ cs) h =
    let many = not (length (c ∷ d ∷ cs) == 1) in
    let enough = length-escape_bytes many (c ∷ d ∷ cs) in
    parse_long (escape_bytes many (c ∷ d ∷ cs)) (omega (arith, enough))
    ∙ unescape-escape_bytes many (c ∷ d ∷ cs) h

-- A byte above the space that is not DEL.
abbrev pub IsPrintable : ℕ → Type 0
IsPrintable c = 0x20 < c × c ≢ 0x7f

hex_digit-IsPrintable : (n : ℕ) → n < 16 → IsPrintable (hex_digit n)
unfolding hex_digit
hex_digit-IsPrintable n h = ground arith

escape_byte-IsPrintable : (many : Bool) (c : ℕ) → c < 256 → All IsPrintable (escape_byte many c)
unfolding escape_byte is_plain
escape_byte-IsPrintable many c h =
    ground (arith, hex_digit-IsPrintable (c / 16), hex_digit-IsPrintable (c % 16))

escape_bytes-IsPrintable :
    (many : Bool) (cs : List ℕ) → All (λ c. c < 256) cs → All IsPrintable (escape_bytes many cs)
unfolding escape_bytes
escape_bytes-IsPrintable many [] h = tt
escape_bytes-IsPrintable many (c ∷ cs) (h, hs) =
    All-append IsPrintable (escape_byte many c) (escape_bytes many cs)
      (escape_byte-IsPrintable many c h) (escape_bytes-IsPrintable many cs hs)

-- The word that is printed for a name of bytes has no byte up to the space, and no DEL.
pub format_object_name-IsPrintable :
    (name : List ℕ) → All (λ c. c < 256) name → All IsPrintable (format_object_name name)
unfolding format_object_name
format_object_name-IsPrintable [] h = ((omega arith, omega arith), tt)
format_object_name-IsPrintable (c ∷ cs) h =
    escape_bytes-IsPrintable (not (length (c ∷ cs) == 1)) (c ∷ cs) h
