-- ===== src/Version/Package/Known.antt =====
-- What `get_package_version` and the build id of src/version_utils.cc are made of.
use cephtrace.Base.{
  ℕ, ◌+◌, ◌-◌, ◌*◌, ◌/◌, ◌%◌, ◌<◌, ◌≡◌, ◌⊎◌, inl, refl, arith, true, false, List, [], ◌∷◌, ltb,
  if◌then◌else◌, is_empty, Any, All, codes,
}
use mathlib.Core.Path.{ap₂}
use cephtrace.Select.Process.{unknown_text}
use cephtrace.Select.Targets.{contains}
use cephtrace.Version.Text.{System}
use cephtrace.Version.Package.{
  library_base_name, alt_names, output_of, dpkg_version, installed, rpm_version,
  get_package_version, lower_hex, hex_text,
}

-- The text is what one of the queries prints: of dpkg, or of rpm for a package that is installed.
abbrev pub IsDpkg : System → List (List ℕ) → List ℕ → Type 0
IsDpkg sys names r = Any (λ pkg. r ≡ output_of (sys.dpkg pkg)) names

abbrev pub IsRpm : System → List (List ℕ) → List ℕ → Type 0
IsRpm sys names r =
    Any (λ pkg. (r ≡ output_of (sys.rpm pkg)) × (contains (codes "not installed") r ≡ false)) names

module _ (sys : System) where
  dpkg_version-IsDpkg :
      (names : List (List ℕ))
      → (is_empty (dpkg_version sys names) ≡ true) ⊎ IsDpkg sys names (dpkg_version sys names)
  unfolding dpkg_version
  dpkg_version-IsDpkg [] = inl refl
  dpkg_version-IsDpkg (pkg ∷ pkgs) = ground (arith, dpkg_version-IsDpkg pkgs)

  installed-rpm :
      (r : List ℕ)
      → (is_empty (installed r) ≡ true)
        ⊎ ((installed r ≡ r) × (contains (codes "not installed") (installed r) ≡ false))
  unfolding installed
  installed-rpm r = ground arith

  rpm_version-IsRpm :
      (names : List (List ℕ))
      → (is_empty (rpm_version sys names) ≡ true) ⊎ IsRpm sys names (rpm_version sys names)
  unfolding rpm_version
  rpm_version-IsRpm [] = inl refl
  rpm_version-IsRpm (pkg ∷ pkgs) =
      ground (arith, installed-rpm (output_of (sys.rpm pkg)), rpm_version-IsRpm pkgs)

  -- The version of the package that owns a path is never empty: it is what dpkg prints for one of
  -- the names tried, or what rpm prints for one of them without saying that it is not installed, or
  -- "unknown".
  pub get_package_version-known :
      (library_path : List ℕ)
      → let names = alt_names (library_base_name library_path) in
        let r = get_package_version sys library_path in
        (is_empty r ≡ false) × (IsDpkg sys names r ⊎ IsRpm sys names r ⊎ (r ≡ unknown_text))
  unfolding get_package_version
  get_package_version-known library_path =
      let names = alt_names (library_base_name library_path) in
      ground (arith, dpkg_version-IsDpkg names, rpm_version-IsRpm names)

abbrev pub digit_of : ℕ → ℕ
digit_of c = if ltb c b'a' then c - b'0' else c - b'a' + 10

-- Two hexadecimal digits for each byte.
abbrev pub read_bytes : List ℕ → List ℕ
read_bytes [] = []
read_bytes (c ∷ []) = []
read_bytes (c ∷ d ∷ cs) = (16 * digit_of c + digit_of d) ∷ read_bytes cs

lower_hex-digit_of : (d : ℕ) → d < 16 → digit_of (lower_hex d) ≡ d
unfolding lower_hex
lower_hex-digit_of d h = ground arith

-- The text of a build id gives back its bytes.
pub hex_text-read_bytes : (bs : List ℕ) → All (λ b. b < 256) bs → read_bytes (hex_text bs) ≡ bs
unfolding hex_text
hex_text-read_bytes [] h = refl
hex_text-read_bytes (b ∷ bs) (h, hs) =
    ap₂ (λ x xs. x ∷ xs)
      (omega (
        arith,
        lower_hex-digit_of (b / 16) (omega arith),
        lower_hex-digit_of (b % 16) (omega arith),
      ))
      (hex_text-read_bytes bs hs)
