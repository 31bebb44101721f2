-- ===== src/Version/Ceph/Compare.antt =====
-- The versions that the package managers print, and their order.
use cephtrace.Base.{
  ℕ, ◌+◌, ◌-◌, ◌*◌, ◌%◌, ◌<◌, ◌≡◌, refl, ap, ◌∙◌, arith, Bool, true, false, not, ◌&&◌, ◌||◌, List,
  [], ◌∷◌, ◌++◌, Option, none, some, ltb, leb, ◌==◌, length, u32_mod,
}
use cephtrace.Select.OsdId.{is_digit, digits}
use cephtrace.Select.OsdId.Spelled.{
  shown, IsDigits, digits-decimal, decimal-IsDigits, decimal-length,
}
use cephtrace.Version.Text.{has_byte, behind_first}
use cephtrace.Version.Ceph.{
  Version, after_digits, scan_digits, scan_signed, scan_int, scan_dot_int, with_major, with_minor,
  with_patch, squid_of, scan_version, without_epoch, parse_ceph_version, at_least_squid,
  is_ceph_version_squid_or_above,
}

-- The text does not go on with a digit.
abbrev pub stops : List ℕ → Bool
stops [] = true
stops (c ∷ cs) = not (is_digit c)

digits-stops :
    (xs t : List ℕ) (acc : ℕ) → IsDigits xs → stops t ≡ true → digits acc (xs ++ t) ≡ digits acc xs
unfolding digits
digits-stops [] [] acc h e = refl
digits-stops [] (c ∷ t) acc h e = ground arith
digits-stops (x ∷ xs) t acc (h, hs) e =
    ground (arith, digits-stops xs t (acc * 10 + (x - b'0')) hs e)

after_digits-stops : (xs t : List ℕ) → IsDigits xs → stops t ≡ true → after_digits (xs ++ t) ≡ t
unfolding after_digits
after_digits-stops [] [] h e = refl
after_digits-stops [] (c ∷ t) h e = ground arith
after_digits-stops (x ∷ xs) t (h, hs) e = ground (arith, after_digits-stops xs t hs e)

-- Neither a space nor a sign comes before a digit.
scan_int-plain :
    (x : ℕ) (xs : List ℕ)
    → is_digit x ≡ true
    → scan_int (x ∷ xs)
      ≡ some (record { value = digits 0 (x ∷ xs) % u32_mod; rest = after_digits (x ∷ xs) })
unfolding scan_signed scan_digits
scan_int-plain x xs h = ground arith

scan_int-digits :
    (xs t : List ℕ)
    → IsDigits xs
    → 0 < length xs
    → stops t ≡ true
    → scan_int (xs ++ t) ≡ some (record { value = digits 0 xs % u32_mod; rest = t })
scan_int-digits [] t h l e = absurd (omega arith)
scan_int-digits (x ∷ xs) t h l e =
    rw (scan_int-plain x (xs ++ t) h.0)
      (rw (digits-stops (x ∷ xs) t 0 h e) (rw (after_digits-stops (x ∷ xs) t h e) refl))

scan_int-shown :
    (n : ℕ) (t : List ℕ)
    → n < 2147483648
    → stops t ≡ true
    → scan_int (shown n ++ t) ≡ some (record { value = n; rest = t })
scan_int-shown n t h e =
    scan_int-digits (shown n) t (decimal-IsDigits 10 n) (decimal-length 9 n) e
    ∙ ap (λ v. some (record { value = v; rest = t }))
        (ap (λ v. v % u32_mod) (digits-decimal 10 n (omega arith)) ∙ omega arith)

-- major.minor.patch and whatever the package manager adds.
abbrev pub version_body : Version → List ℕ → List ℕ
version_body v tail = shown v.major ++ b'.' ∷ (shown v.minor ++ b'.' ∷ (shown v.patch ++ tail))

-- Each number is an `int`.
abbrev pub IsSmall : Version → Type 0
IsSmall v = (v.major < 2147483648) × (v.minor < 2147483648) × (v.patch < 2147483648)

scan_version-body :
    (v : Version) (tail : List ℕ)
    → IsSmall v
    → stops tail ≡ true
    → scan_version (version_body v tail) ≡ some v
unfolding scan_dot_int
scan_version-body v tail (h, g, f) e =
    let after_minor = shown v.patch ++ tail in
    let after_major = shown v.minor ++ b'.' ∷ after_minor in
    ap with_major (scan_int-shown v.major (b'.' ∷ after_major) h refl)
    ∙ ap (with_minor v.major) (scan_int-shown v.minor (b'.' ∷ after_minor) g refl)
    ∙ ap (λ o. some (with_patch v.major v.minor o)) (scan_int-shown v.patch tail f e)

-- The colon of an epoch.
digits-has_byte : (xs t : List ℕ) → IsDigits xs → has_byte b':' (xs ++ t) ≡ has_byte b':' t
digits-has_byte [] t h = refl
digits-has_byte (x ∷ xs) t (h, hs) = ground (arith, digits-has_byte xs t hs)

digits-behind_first : (xs t : List ℕ) → IsDigits xs → behind_first b':' (xs ++ b':' ∷ t) ≡ t
unfolding behind_first
digits-behind_first [] t h = refl
digits-behind_first (x ∷ xs) t (h, hs) = ground (arith, digits-behind_first xs t hs)

body-has_byte :
    (v : Version) (tail : List ℕ) → has_byte b':' (version_body v tail) ≡ has_byte b':' tail
body-has_byte v tail =
    digits-has_byte (shown v.major) _ (decimal-IsDigits 10 v.major)
    ∙ digits-has_byte (shown v.minor) _ (decimal-IsDigits 10 v.minor)
    ∙ digits-has_byte (shown v.patch) tail (decimal-IsDigits 10 v.patch)

-- A text that begins with a digit is neither empty nor "unknown".
parse-digits :
    (xs t : List ℕ)
    → IsDigits xs
    → 0 < length xs
    → parse_ceph_version (xs ++ t) ≡ scan_version (without_epoch (xs ++ t))
unfolding parse_ceph_version
parse-digits [] t h l = absurd (omega arith)
parse-digits (x ∷ xs) t (h, hs) l = ground arith

-- What rpm puts before the version, if anything.
abbrev pub with_epoch : Option ℕ → List ℕ → List ℕ
with_epoch none text = text
with_epoch (some epoch) text = shown epoch ++ b':' ∷ text

-- Without an epoch there is no colon in the text at all.
abbrev pub IsTail : Option ℕ → List ℕ → Type 0
IsTail none tail = (stops tail ≡ true) × (has_byte b':' tail ≡ false)
IsTail (some epoch) tail = stops tail ≡ true

-- A version of three numbers, each an `int`, with or without an epoch and with any tail that neither
-- goes on with a digit nor, where there is no epoch, contains a colon, is read back.
pub parse_ceph_version-printed :
    (v : Version) (epoch : Option ℕ) (tail : List ℕ)
    → IsSmall v
    → IsTail epoch tail
    → parse_ceph_version (with_epoch epoch (version_body v tail)) ≡ some v
unfolding without_epoch
parse_ceph_version-printed v none tail small (e, no_colon) =
    parse-digits (shown v.major) _ (decimal-IsDigits 10 v.major) (decimal-length 9 v.major)
    ∙ rw (body-has_byte v tail ∙ no_colon) (scan_version-body v tail small e)
parse_ceph_version-printed v (some epoch) tail small e =
    parse-digits (shown epoch) _ (decimal-IsDigits 10 epoch) (decimal-length 9 epoch)
    ∙ rw (digits-has_byte (shown epoch) (b':' ∷ version_body v tail) (decimal-IsDigits 10 epoch)) (
        rw (digits-behind_first (shown epoch) (version_body v tail) (decimal-IsDigits 10 epoch))
          (scan_version-body v tail small e))

-- At least 19.2, number by number.
abbrev pub reaches_squid : Version → Bool
reaches_squid v = ltb 19 v.major || (v.major == 19 && leb 2 v.minor)

at_least_squid-reaches :
    (v : Version)
    → v.major < 200000
    → v.minor < 100
    → v.patch < 100
    → at_least_squid v ≡ reaches_squid v
unfolding at_least_squid
at_least_squid-reaches v h g f = ground arith

-- A printed version whose minor and patch numbers are below 100, and whose major number is below
-- 200000, counts as Squid or above exactly if it is at least 19.2, number by number.
pub is_squid-printed :
    (v : Version) (epoch : Option ℕ) (tail : List ℕ)
    → v.major < 200000
    → v.minor < 100
    → v.patch < 100
    → IsTail epoch tail
    → is_ceph_version_squid_or_above (with_epoch epoch (version_body v tail)) ≡ reaches_squid v
is_squid-printed v epoch tail h g f t =
    ap squid_of (parse_ceph_version-printed v epoch tail (omega arith, omega arith, omega arith) t)
    ∙ at_least_squid-reaches v h g f
