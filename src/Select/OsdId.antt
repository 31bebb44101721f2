-- ===== src/Select/OsdId.antt =====
-- src/utils.h: `parse_osd_id_from_tokens`, with `std::stoi`. An `int` is a bit pattern.
pub mod Spelled
use cephtrace.Base.{
  ℕ, ◌+◌, ◌-◌, ◌*◌, ◌%◌, ◌^◌, Bool, true, false, ◌&&◌, ◌||◌, List, [], ◌∷◌, Option, none, some, ltb,
  leb, ◌==◌, if◌then◌else◌, drop, length, same_bytes, minus_one, u32_mod,
}
use cephtrace.Select.Targets.{starts_with}

abbrev pub is_space : ℕ → Bool
is_space c = c == 32 || (leb 9 c && leb c 13)

abbrev pub is_digit : ℕ → Bool
is_digit c = leb b'0' c && leb c b'9'

-- The number that the leading digits stand for, behind those that make up acc.
unfoldable pub digits : ℕ → List ℕ → ℕ
digits acc [] = acc
digits acc (c ∷ cs) =
    let rest = digits (acc * 10 + (c - b'0')) cs in if is_digit c then rest else acc

abbrev pub after_spaces : List ℕ → List ℕ
after_spaces [] = []
after_spaces (c ∷ cs) = if is_space c then after_spaces cs else c ∷ cs

-- `none`: not a number, or out of range.
unfoldable pub bounded : Bool → List ℕ → Option ℕ
bounded negative [] = none
bounded negative (c ∷ cs) =
    let v = digits 0 (c ∷ cs) in
    if is_digit c
    then if negative
      then (if leb v (2 ^ 31) then some ((u32_mod - v) % u32_mod) else none)
      else (if ltb v (2 ^ 31) then some v else none)
    else none

abbrev pub signed : List ℕ → Option ℕ
signed [] = none
signed (c ∷ cs) =
    if c == b'-'
    then bounded true cs
    else if c == b'+'
    then bounded false cs
    else bounded false (c ∷ cs)

-- `none` is the exception.
unfoldable pub stoi : List ℕ → Option ℕ
stoi text = signed (after_spaces text)

abbrev pub or_else : Option ℕ → Option ℕ → Option ℕ
or_else none b = b
or_else (some a) b = some a

abbrev pub when : Bool → Option ℕ → Option ℕ
when b r = if b then r else none

abbrev pub text_id : List ℕ
text_id = b'-' ∷ b'-' ∷ b'i' ∷ b'd' ∷ []

abbrev pub text_i : List ℕ
text_i = b'-' ∷ b'i' ∷ []

abbrev pub text_n : List ℕ
text_n = b'-' ∷ b'n' ∷ []

abbrev pub text_name : List ℕ
text_name = b'-' ∷ b'-' ∷ b'n' ∷ b'a' ∷ b'm' ∷ b'e' ∷ []

abbrev pub text_osd : List ℕ
text_osd = b'o' ∷ b's' ∷ b'd' ∷ b'.' ∷ []

abbrev pub text_id_eq : List ℕ
text_id_eq = b'-' ∷ b'-' ∷ b'i' ∷ b'd' ∷ b'=' ∷ []

abbrev pub text_name_eq : List ℕ
text_name_eq = b'-' ∷ b'-' ∷ b'n' ∷ b'a' ∷ b'm' ∷ b'e' ∷ b'=' ∷ b'o' ∷ b's' ∷ b'd' ∷ b'.' ∷ []

-- The byte at index 2 of a `-i` token is a digit.
abbrev pub third_is_digit : List ℕ → Bool
third_is_digit (a ∷ b ∷ c ∷ cs) = is_digit c
third_is_digit _ = false

-- Cases 1 and 4, which look at the next token; there may be none.
abbrev pub next_id : List ℕ → List (List ℕ) → Option ℕ
next_id arg [] = none
next_id arg (next ∷ more) = when (same_bytes arg text_id || same_bytes arg text_i) (stoi next)

abbrev pub next_name : List ℕ → List (List ℕ) → Option ℕ
next_name arg [] = none
next_name arg (next ∷ more) =
    when ((same_bytes arg text_n || same_bytes arg text_name) && starts_with text_osd next)
      (stoi (drop 4 next))

-- One round of the loop: the first case that gives a number.
unfoldable pub id_of_token : List ℕ → List (List ℕ) → Option ℕ
id_of_token arg rest = or_else (next_id arg rest) (
    or_else (when (starts_with text_id_eq arg) (stoi (drop 5 arg))) (
      or_else
        (when (ltb 2 (length arg) && starts_with text_i arg && third_is_digit arg)
          (stoi (drop 2 arg)))
        (or_else (next_name arg rest) (when (starts_with text_name_eq arg) (stoi (drop 11 arg))))))

unfoldable pub parse_osd_id_from_tokens : List (List ℕ) → ℕ
parse_osd_id_from_tokens [] = minus_one
parse_osd_id_from_tokens (arg ∷ rest) =
    let others = parse_osd_id_from_tokens rest in
    elim (id_of_token arg rest) [ none ↦ others | some id ↦ id ]
