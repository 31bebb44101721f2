-- ===== src/Rados/Report/Row.antt =====
-- A row of radostrace's CSV file has fourteen fields, which a CSV reader gets back.
use mathlib.Core.Path.{ap₂}
use cephtrace.Base.{
  ℕ, zero, suc, ◌-◌, ◌/◌, ◌%◌, ◌<◌, ◌≡◌, refl, ap, ◌∙◌, arith, Bool, true, false, List, [], ◌∷◌,
  ◌++◌, any, drop, length, u32_mod, u64_mod,
}
use cephtrace.Report.Op.{c_string}
use cephtrace.Rados.Types.{ClientOpValue}
use cephtrace.Rados.Csv.{is_special, csv_escape}
use cephtrace.Rados.Csv.RoundTrip.{read_field, read_field-escaped, csv_escape-read_field}
use cephtrace.Select.OsdId.Spelled.{decimal, IsDigits, decimal-IsDigits}
use cephtrace.Rados.Report.{
  signed32, signed64, hex_digit_of, hexadecimal, acting_text, ops_text, wr_text, flag_text,
  latency_us, offset_field, length_field, csv_row,
}

-- The texts of the fields, before they are escaped.
abbrev pub row_fields : ClientOpValue → Bool → List (List ℕ)
row_fields v complete =
    signed32 v.pid
    ∷ signed64 v.cid
    ∷ signed64 v.tid
    ∷ signed64 v.m_pool
    ∷ hexadecimal 8 v.m_seed
    ∷ acting_text v
    ∷ wr_text v
    ∷ signed64 v.length
    ∷ signed64 (latency_us v)
    ∷ flag_text complete
    ∷ c_string v.object_name
    ∷ ops_text v
    ∷ offset_field v
    ∷ length_field v
    ∷ []

-- Reads n fields, passing over the byte behind each.
unfoldable pub read_row : ℕ → List ℕ → List (List ℕ)
read_row zero text = []
read_row (suc n) text = (read_field text).field ∷ read_row n (drop 1 (read_field text).rest)

abbrev IsPlain : List ℕ → Type 0
IsPlain text = any is_special text ≡ false

any-append : (xs ys : List ℕ) → IsPlain xs → IsPlain ys → IsPlain (xs ++ ys)
any-append [] ys h g = g
any-append (x ∷ xs) ys h g = ground (arith, any-append xs ys)

digits-IsPlain : (xs : List ℕ) → IsDigits xs → IsPlain xs
digits-IsPlain [] h = refl
digits-IsPlain (x ∷ xs) (h, hs) = ground (arith, digits-IsPlain xs hs)

decimal-IsPlain : (fuel n : ℕ) → IsPlain (decimal fuel n)
decimal-IsPlain fuel n = digits-IsPlain (decimal fuel n) (decimal-IsDigits fuel n)

signed32-IsPlain : (w : ℕ) → IsPlain (signed32 w)
unfolding signed32
signed32-IsPlain w = ground (arith, decimal-IsPlain 20 w, decimal-IsPlain 20 (u32_mod - w))

signed64-IsPlain : (w : ℕ) → IsPlain (signed64 w)
unfolding signed64
signed64-IsPlain w = ground (arith, decimal-IsPlain 20 w, decimal-IsPlain 20 (u64_mod - w))

hex_digit_of-IsPlain : (d : ℕ) → d < 16 → IsPlain (hex_digit_of d ∷ [])
unfolding hex_digit_of
hex_digit_of-IsPlain d h = ground arith

hexadecimal-IsPlain : (fuel n : ℕ) → IsPlain (hexadecimal fuel n)
unfolding hexadecimal
hexadecimal-IsPlain zero n = refl
hexadecimal-IsPlain (suc fuel) n = ground (
  arith,
  hex_digit_of-IsPlain n,
  any-append (hexadecimal fuel (n / 16)) (hex_digit_of (n % 16) ∷ [])
      (hexadecimal-IsPlain fuel (n / 16)) (hex_digit_of-IsPlain (n % 16) (omega arith)),
)

wr_text-IsPlain : (v : ClientOpValue) → IsPlain (wr_text v)
wr_text-IsPlain v = ground arith

flag_text-IsPlain : (complete : Bool) → IsPlain (flag_text complete)
flag_text-IsPlain true = refl
flag_text-IsPlain false = refl

-- A field that needs no quotes is written as it is.
escaped_plain : (text : List ℕ) → IsPlain text → text ≡ csv_escape text
unfolding csv_escape
escaped_plain text h = ground arith

-- The fields with the separators.
abbrev joined : List ℕ → List (List ℕ) → List ℕ
joined field [] = csv_escape field ++ b'\n' ∷ []
joined field (next ∷ more) = csv_escape field ++ b',' ∷ joined next more

joined-read_row :
    (field : List ℕ) (more : List (List ℕ))
    → read_row (suc (length more)) (joined field more) ≡ field ∷ more
unfolding read_row
joined-read_row field [] = rw (read_field-escaped b'\n' refl refl field []) refl
joined-read_row field (next ∷ more) =
    rw (csv_escape-read_field field (joined next more))
      (ap (λ r. field ∷ r) (joined-read_row next more))

-- One field that needs no quotes, or that is escaped, in front of the others.
plain_first :
    (f rest rest' : List ℕ)
    → IsPlain f
    → rest ≡ rest'
    → f ++ b',' ∷ rest ≡ csv_escape f ++ b',' ∷ rest'
plain_first f rest rest' h e = ap₂ (λ x y. x ++ b',' ∷ y) (escaped_plain f h) e

escaped_first :
    (f rest rest' : List ℕ)
    → rest ≡ rest'
    → csv_escape f ++ b',' ∷ rest ≡ csv_escape f ++ b',' ∷ rest'
escaped_first f rest rest' e = ap (λ y. csv_escape f ++ b',' ∷ y) e

csv_row-joined :
    (v : ClientOpValue) (complete : Bool)
    → csv_row v complete ≡ joined (signed32 v.pid) (drop 1 (row_fields v complete))
unfolding csv_row
csv_row-joined v complete = plain_first _ _ _ (signed32-IsPlain v.pid) (
    plain_first _ _ _ (signed64-IsPlain v.cid) (
      plain_first _ _ _ (signed64-IsPlain v.tid) (
        plain_first _ _ _ (signed64-IsPlain v.m_pool) (
          plain_first _ _ _ (hexadecimal-IsPlain 8 v.m_seed) (
            escaped_first (acting_text v) _ _ (
              plain_first _ _ _ (wr_text-IsPlain v) (
                plain_first _ _ _ (signed64-IsPlain v.length) (
                  plain_first _ _ _ (signed64-IsPlain (latency_us v))
                    (plain_first _ _ _ (flag_text-IsPlain complete) refl)))))))))

-- A CSV reader of fourteen fields gets back, from the row of any op, complete or not, the pid, the
-- client, the tid, the pool and the hexadecimal placement group, the acting set, the direction, the
-- length, the latency, the flag, the object name, the ops, the offset and the length of the extent,
-- whatever bytes the names have.
pub csv_row-read_row :
    (v : ClientOpValue) (complete : Bool) → read_row 14 (csv_row v complete) ≡ row_fields v complete
csv_row-read_row v complete =
    ap (read_row 14) (csv_row-joined v complete)
    ∙ joined-read_row (signed32 v.pid) (drop 1 (row_fields v complete))
