-- ===== src/Kfs/Name/Hex.antt =====
-- The name of an MDS operation that has no name of its own.
use cephtrace.Base.{
  ℕ, ◌+◌, ◌-◌, ◌*◌, ◌/◌, ◌%◌, ◌<◌, ◌≡◌, arith, false, List, [], ◌∷◌, ltb, ◌==◌, if◌then◌else◌, take,
  drop, any,
}
use cephtrace.Kfs.Name.{upper_hex, five_hex, mds_op_label, get_mds_op_name}

-- The operations of the switch.
abbrev pub named_ops : List ℕ
named_ops =
    0x00100 ∷ 0x00101 ∷ 0x00305 ∷ 0x01301 ∷ 0x01203 ∷ 0x01204 ∷ 0x01220 ∷ 0x01221 ∷ 0x01108
    ∷ 0x00302 ∷ []

unfoldable pub digit_value : ℕ → ℕ
digit_value b = if ltb b b'A' then b - b'0' else b - b'A' + 10

-- Reads a hexadecimal number, the highest digit first.
unfoldable pub read_hex_from : ℕ → List ℕ → ℕ
read_hex_from n [] = n
read_hex_from n (b ∷ bs) = read_hex_from (16 * n + digit_value b) bs

abbrev pub read_hex : List ℕ → ℕ
read_hex bs = read_hex_from 0 bs

upper_hex-digit_value : (d : ℕ) → d < 16 → digit_value (upper_hex d) ≡ d
unfolding upper_hex digit_value
upper_hex-digit_value d h = ground arith

five_hex-read_hex : (op : ℕ) → read_hex (five_hex op) ≡ op % 1048576
unfolding five_hex read_hex_from
five_hex-read_hex op = omega (
  arith,
  upper_hex-digit_value (op / 0x10000 % 16) (omega arith),
  upper_hex-digit_value (op / 0x1000 % 16) (omega arith),
  upper_hex-digit_value (op / 0x100 % 16) (omega arith),
  upper_hex-digit_value (op / 0x10 % 16) (omega arith),
  upper_hex-digit_value (op % 16) (omega arith),
)

mds_op_label-default :
    (op : ℕ)
    → any (λ k. op == k) named_ops ≡ false
    → mds_op_label op ≡ b'O' ∷ b'P' ∷ b'_' ∷ five_hex op
unfolding mds_op_label
mds_op_label-default op h = ground arith

-- The third to seventh byte of the name of an operation that the switch does not list are its low
-- twenty bits in hexadecimal.
pub get_mds_op_name-read_hex :
    (op : ℕ)
    → any (λ k. op == k) named_ops ≡ false
    → read_hex (take 5 (drop 3 (get_mds_op_name op))) ≡ op % 1048576
unfolding get_mds_op_name five_hex
get_mds_op_name-read_hex op h = rw (mds_op_label-default op h) (five_hex-read_hex op)
