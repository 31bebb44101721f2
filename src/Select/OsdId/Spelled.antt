-- ===== src/Select/OsdId/Spelled.antt =====
-- Every spelling of an OSD id on a command line is understood.
use native.Mathlib.Nat.{pow-suc}
use cephtrace.Base.{
  ℕ, zero, suc, ◌+◌, ◌-◌, ◌*◌, ◌/◌, ◌%◌, ◌^◌, ◌<◌, ◌≡◌, refl, ◌≢◌, ap, ◌∙◌, arith, true, List, [],
  ◌∷◌, ◌++◌, none, some, ltb, if◌then◌else◌, length, length-append, All, All-append,
}
use cephtrace.Select.OsdId.{
  is_digit, digits, bounded, stoi, id_of_token, parse_osd_id_from_tokens, text_id, text_i, text_n,
  text_name, text_osd, text_id_eq, text_name_eq,
}

-- The decimal digits of n, with fuel.
unfoldable pub decimal : ℕ → ℕ → List ℕ
decimal zero n = []
decimal (suc fuel) n =
    let rest = decimal fuel (n / 10) in
    if ltb n 10 then (b'0' + n) ∷ [] else rest ++ (b'0' + n % 10) ∷ []

-- Ten digits, which is enough for an `int`.
abbrev pub shown : ℕ → List ℕ
shown n = decimal 10 n

abbrev pub IsDigits : List ℕ → Type 0
IsDigits xs = All (λ c. is_digit c ≡ true) xs

digits-append :
    (xs : List ℕ) (acc d : ℕ)
    → IsDigits xs
    → is_digit d ≡ true
    → digits acc (xs ++ d ∷ []) ≡ digits acc xs * 10 + (d - b'0')
unfolding digits
digits-append [] acc d h e = ground arith
digits-append (x ∷ xs) acc d (h, hs) e =
    ground (arith, digits-append xs (acc * 10 + (x - b'0')) d hs e)

IsDigits-digit : (d : ℕ) → d < 10 → IsDigits ((b'0' + d) ∷ [])
IsDigits-digit d h = ground arith

pub decimal-IsDigits : (fuel n : ℕ) → IsDigits (decimal fuel n)
unfolding decimal
decimal-IsDigits zero n = tt
decimal-IsDigits (suc fuel) n = if_digits _ _ (IsDigits-digit n) (
    All-append (λ c. is_digit c ≡ true) (decimal fuel (n / 10)) ((b'0' + n % 10) ∷ [])
      (decimal-IsDigits fuel (n / 10)) (IsDigits-digit (n % 10) (omega arith)))
  where
    if_digits :
        (xs ys : List ℕ)
        → (n < 10 → IsDigits xs)
        → IsDigits ys
        → IsDigits (if ltb n 10 then xs else ys)
    if_digits xs ys f g = ground arith

digits-one : (d : ℕ) → d < 10 → digits 0 ((b'0' + d) ∷ []) ≡ d
unfolding digits
digits-one d h = ground arith

digits_nil : digits 0 [] ≡ 0
unfolding digits
digits_nil = refl

pub digits-decimal : (fuel n : ℕ) → n < 10 ^ fuel → digits 0 (decimal fuel n) ≡ n
unfolding decimal
digits-decimal zero n h = omega (arith, digits_nil)
digits-decimal (suc fuel) n h = ground (
  arith,
  pow-suc 10 fuel,
  digits-one n,
  digits-append (decimal fuel (n / 10)) 0 (b'0' + n % 10) (decimal-IsDigits fuel (n / 10)),
  digits-decimal fuel (n / 10),
)

pub decimal-length : (fuel n : ℕ) → 0 < length (decimal (suc fuel) n)
unfolding decimal
decimal-length fuel n = ground (arith, length-append (decimal fuel (n / 10)) ((b'0' + n % 10) ∷ []))

stoi-IsDigits :
    (xs : List ℕ)
    → IsDigits xs
    → 0 < length xs
    → digits 0 xs < 2 ^ 31
    → stoi xs ≡ some (digits 0 xs)
unfolding stoi bounded
stoi-IsDigits [] h l b = absurd (omega arith)
stoi-IsDigits (c ∷ cs) (h, hs) l b = ground arith

stoi-shown : (n : ℕ) → n < 2 ^ 31 → stoi (shown n) ≡ some n
stoi-shown n h =
    let e = digits-decimal 10 n (omega arith) in
    stoi-IsDigits (shown n) (decimal-IsDigits 10 n) (decimal-length 9 n) (omega (arith, e))
    ∙ ap some e

-- The spellings of an id.
pub data Spelling : Type 0 where
  long_id short_id long_id_eq short_id_joined short_name long_name long_name_eq : Spelling

abbrev pub spelled : Spelling → ℕ → List (List ℕ)
spelled long_id n = text_id ∷ shown n ∷ []
spelled short_id n = text_i ∷ shown n ∷ []
spelled long_id_eq n = (text_id_eq ++ shown n) ∷ []
spelled short_id_joined n = (text_i ++ shown n) ∷ []
spelled short_name n = text_n ∷ (text_osd ++ shown n) ∷ []
spelled long_name n = text_name ∷ (text_osd ++ shown n) ∷ []
spelled long_name_eq n = (text_name_eq ++ shown n) ∷ []

-- A token that no case of the loop looks at: it is empty, or does not begin with a dash.
abbrev pub IsPlain : List ℕ → Type 0
IsPlain [] = Unit {0}
IsPlain (c ∷ cs) = c ≢ b'-'

plain_token : (arg : List ℕ) (rest : List (List ℕ)) → IsPlain arg → id_of_token arg rest ≡ none
unfolding id_of_token
plain_token [] [] h = refl
plain_token [] (r ∷ rs) h = refl
plain_token (c ∷ cs) [] h = ground arith
plain_token (c ∷ cs) (r ∷ rs) h = ground arith

joined_token :
    (xs : List ℕ) (n : ℕ) (rest : List (List ℕ))
    → IsDigits xs
    → 0 < length xs
    → stoi xs ≡ some n
    → id_of_token (text_i ++ xs) rest ≡ some n
unfolding id_of_token
joined_token [] n rest h l e = absurd (omega arith)
joined_token (c ∷ cs) n [] (h, hs) l e = ground arith
joined_token (c ∷ cs) n (r ∷ rs) (h, hs) l e = ground arith

id_eq_token :
    (xs : List ℕ) (n : ℕ) (rest : List (List ℕ))
    → stoi xs ≡ some n
    → id_of_token (text_id_eq ++ xs) rest ≡ some n
unfolding id_of_token
id_eq_token xs n [] e = ground arith
id_eq_token xs n (r ∷ rs) e = ground arith

name_eq_token :
    (xs : List ℕ) (n : ℕ) (rest : List (List ℕ))
    → stoi xs ≡ some n
    → id_of_token (text_name_eq ++ xs) rest ≡ some n
unfolding id_of_token
name_eq_token xs n [] e = ground arith
name_eq_token xs n (r ∷ rs) e = ground arith

parse_first :
    (arg : List ℕ) (n : ℕ) (rest : List (List ℕ))
    → id_of_token arg rest ≡ some n
    → parse_osd_id_from_tokens (arg ∷ rest) ≡ n
unfolding parse_osd_id_from_tokens
parse_first arg n rest e = ground arith

parse_skip :
    (arg : List ℕ) (rest : List (List ℕ))
    → id_of_token arg rest ≡ none
    → parse_osd_id_from_tokens (arg ∷ rest) ≡ parse_osd_id_from_tokens rest
unfolding parse_osd_id_from_tokens
parse_skip arg rest e = ground arith

spelled_token :
    (w : Spelling) (n : ℕ) (more : List (List ℕ))
    → n < 2 ^ 31
    → parse_osd_id_from_tokens (spelled w n ++ more) ≡ n
unfolding parse_osd_id_from_tokens id_of_token
spelled_token long_id n more h = ground (arith, stoi-shown n h)
spelled_token short_id n more h = ground (arith, stoi-shown n h)
spelled_token long_id_eq n more h =
    parse_first (text_id_eq ++ shown n) n more (id_eq_token (shown n) n more (stoi-shown n h))
spelled_token short_id_joined n more h =
    parse_first (text_i ++ shown n) n more
      (joined_token (shown n) n more (decimal-IsDigits 10 n) (decimal-length 9 n) (stoi-shown n h))
spelled_token short_name n more h = ground (arith, stoi-shown n h)
spelled_token long_name n more h = ground (arith, stoi-shown n h)
spelled_token long_name_eq n more h =
    parse_first (text_name_eq ++ shown n) n more (name_eq_token (shown n) n more (stoi-shown n h))

-- On a command line whose first tokens do not begin with a dash, any of the seven spellings of an id
-- below 2^31 that comes next is understood as that id, whatever follows it.
pub parse_osd_id_from_tokens-spelled :
    (before : List (List ℕ)) (w : Spelling) (n : ℕ) (more : List (List ℕ))
    → All IsPlain before
    → n < 2 ^ 31
    → parse_osd_id_from_tokens (before ++ spelled w n ++ more) ≡ n
parse_osd_id_from_tokens-spelled [] w n more h l = spelled_token w n more l
parse_osd_id_from_tokens-spelled (arg ∷ args) w n more (h, hs) l =
    parse_skip arg (args ++ spelled w n ++ more) (plain_token arg _ h)
    ∙ parse_osd_id_from_tokens-spelled args w n more hs l
