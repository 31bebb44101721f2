-- ===== src/Version/Ceph.antt =====
-- src/version_utils.cc: `parse_ceph_version` with `sscanf`, and `is_ceph_version_squid_or_above`. An
-- `int` is a bit pattern.
pub mod Compare
use cephtrace.Base.{
  ℕ, ◌+◌, ◌-◌, ◌*◌, ◌/◌, ◌%◌, Bool, true, false, ◌&&◌, ◌||◌, List, [], ◌∷◌, Option, none, some, ltb,
  leb, ◌==◌, if◌then◌else◌, same_bytes, is_empty, u32_mod,
}
use cephtrace.Select.Process.{unknown_text}
use cephtrace.Select.OsdId.{is_digit, after_spaces, digits}
use cephtrace.Version.Text.{behind_first, has_byte}

pub record Version : Type 0 where
  pub major : ℕ
  pub minor : ℕ
  pub patch : ℕ

unfoldable pub after_digits : List ℕ → List ℕ
after_digits [] = []
after_digits (c ∷ cs) = let rest = after_digits cs in if is_digit c then rest else c ∷ cs

-- A number that `%d` reads, and the text behind it.
pub record Scanned : Type 0 where
  pub value : ℕ
  pub rest : List ℕ

-- Digits behind a sign. A number out of range, which C leaves undefined, keeps its low bits.
unfoldable pub scan_digits : Bool → List ℕ → Option Scanned
scan_digits negative [] = none
scan_digits negative (c ∷ cs) =
    let v = digits 0 (c ∷ cs) % u32_mod in
    if is_digit c
    then some (record {
      value = if negative then (u32_mod - v) % u32_mod else v;
      rest = after_digits (c ∷ cs);
    })
    else none

unfoldable pub scan_signed : List ℕ → Option Scanned
scan_signed [] = none
scan_signed (c ∷ cs) =
    if c == b'-'
    then scan_digits true cs
    else if c == b'+'
    then scan_digits false cs
    else scan_digits false (c ∷ cs)

abbrev pub scan_int : List ℕ → Option Scanned
scan_int text = scan_signed (after_spaces text)

-- `.%d`.
unfoldable pub scan_dot_int : List ℕ → Option Scanned
scan_dot_int [] = none
scan_dot_int (c ∷ cs) = if c == b'.' then scan_int cs else none

abbrev pub with_patch : ℕ → ℕ → Option Scanned → Version
with_patch major minor none = record { major = major; minor = minor; patch = 0 }
with_patch major minor (some third) = record { major = major; minor = minor; patch = third.value }

abbrev pub with_minor : ℕ → Option Scanned → Option Version
with_minor major none = none
with_minor major (some second) = some (with_patch major second.value (scan_dot_int second.rest))

abbrev pub with_major : Option Scanned → Option Version
with_major none = none
with_major (some first) = with_minor first.value (scan_dot_int first.rest)

-- `sscanf(text, "%d.%d.%d", ...)`, `none` if fewer than two numbers are read.
abbrev pub scan_version : List ℕ → Option Version
scan_version text = with_major (scan_int text)

-- Without the epoch of rpm.
unfoldable pub without_epoch : List ℕ → List ℕ
without_epoch version = if has_byte b':' version then behind_first b':' version else version

unfoldable pub parse_ceph_version : List ℕ → Option Version
parse_ceph_version version =
    if is_empty version || same_bytes version unknown_text
    then none
    else scan_version (without_epoch version)

-- The comparison of `current` with 19 * 10000 + 2 * 100 + 0, as a signed one.
unfoldable pub at_least_squid : Version → Bool
at_least_squid v =
    let current = (v.major * 10000 + v.minor * 100 + v.patch) % u32_mod in
    ltb current (u32_mod / 2) && leb 190200 current

abbrev pub squid_of : Option Version → Bool
squid_of none = false
squid_of (some v) = at_least_squid v

abbrev pub is_ceph_version_squid_or_above : List ℕ → Bool
is_ceph_version_squid_or_above version = squid_of (parse_ceph_version version)
