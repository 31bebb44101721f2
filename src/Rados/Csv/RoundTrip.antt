-- ===== src/Rados/Csv/RoundTrip.antt =====
-- A CSV reader gets back what `csv_escape` was given, and stops at the comma behind it.
use cephtrace.Base.{
  ℕ, ◌≡◌, refl, ap, ◌∙◌, arith, Bool, true, false, List, [], ◌∷◌, ◌++◌, ◌==◌, if◌then◌else◌, any,
}
use cephtrace.Rados.Csv.{is_special, double_quotes, csv_escape}

-- A field and the text behind it.
pub record Parsed : Type 0 where
  pub field : List ℕ
  pub rest : List ℕ

abbrev pub push : ℕ → Parsed → Parsed
push c p = record p { field = c ∷ p.field }

-- Where a reader stands: in a field without quotes, in a quoted one, or behind a quote in that.
pub data Place : Type 0 where
  bare quoted closing : Place

unfoldable pub read_on : Place → List ℕ → Parsed
read_on place [] = record { field = []; rest = [] }
read_on bare (c ∷ cs) = elim (is_special c) [
  | true ↦ record { field = []; rest = c ∷ cs }
  | false ↦ push c (read_on bare cs)
]
read_on quoted (c ∷ cs) = elim (c == b'"') [
  | true ↦ read_on closing cs
  | false ↦ push c (read_on quoted cs)
]
read_on closing (c ∷ cs) = elim (c == b'"') [
  | true ↦ push c (read_on quoted cs)
  | false ↦ record { field = []; rest = c ∷ cs }
]

-- A reader of one field, after RFC 4180.
unfoldable pub read_field : List ℕ → Parsed
read_field [] = record { field = []; rest = [] }
read_field (c ∷ cs) = if c == b'"' then read_on quoted cs else read_on bare (c ∷ cs)

-- The line behind the field.
abbrev pub behind : List ℕ → List ℕ
behind more = b',' ∷ more

append_assoc : (xs ys zs : List ℕ) → (xs ++ ys) ++ zs ≡ xs ++ (ys ++ zs)
append_assoc [] ys zs = refl
append_assoc (x ∷ xs) ys zs = ap (◌∷◌ x) (append_assoc xs ys zs)

-- What stands behind a field: a separator, which is special but no quote.
module _ (sep : ℕ) (special : is_special sep ≡ true) (no_quote : (sep == b'"') ≡ false) where
  quoted-double_quotes :
      (text more : List ℕ)
      → read_on quoted (double_quotes text ++ b'"' ∷ (sep ∷ more))
        ≡ record { field = text; rest = sep ∷ more }
  unfolding read_on double_quotes
  quoted-double_quotes [] more = ground (arith, no_quote)
  quoted-double_quotes (c ∷ cs) more = ground (arith, quoted-double_quotes cs more)

  bare-plain :
      (text more : List ℕ)
      → any is_special text ≡ false
      → read_on bare (text ++ sep ∷ more) ≡ record { field = text; rest = sep ∷ more }
  unfolding read_on
  bare-plain [] more h = ground (arith, special)
  bare-plain (c ∷ cs) more h = ground (arith, bare-plain cs more)

  read_field-plain :
      (text more : List ℕ)
      → any is_special text ≡ false
      → read_field (text ++ sep ∷ more) ≡ record { field = text; rest = sep ∷ more }
  unfolding read_field
  read_field-plain [] more h = ground (arith, bare-plain [] more refl, no_quote)
  read_field-plain (c ∷ cs) more h = ground (arith, bare-plain (c ∷ cs) more h)

  read_field-quoted :
      (text more : List ℕ)
      → read_field ((b'"' ∷ double_quotes text ++ b'"' ∷ []) ++ sep ∷ more)
        ≡ record { field = text; rest = sep ∷ more }
  unfolding read_field
  read_field-quoted text more =
      ap (read_on quoted) (append_assoc (double_quotes text) (b'"' ∷ []) (sep ∷ more))
      ∙ quoted-double_quotes text more

  pub read_field-escaped :
      (text more : List ℕ)
      → read_field (csv_escape text ++ sep ∷ more) ≡ record { field = text; rest = sep ∷ more }
  unfolding csv_escape
  read_field-escaped text more = escaped _ refl
    where
      escaped :
          (b : Bool)
          → any is_special text ≡ b
          → read_field ((if b then b'"' ∷ double_quotes text ++ b'"' ∷ [] else text) ++ sep ∷ more)
            ≡ record { field = text; rest = sep ∷ more }
      escaped true e = read_field-quoted text more
      escaped false e = read_field-plain text more e

-- Of an escaped text, followed by a comma and more, a reader of one field gets the text, and leaves
-- the comma and what follows it.
pub csv_escape-read_field :
    (text more : List ℕ)
    → read_field (csv_escape text ++ behind more) ≡ record { field = text; rest = behind more }
csv_escape-read_field text more = read_field-escaped b',' refl refl text more
