-- ===== src/Version/Package.antt =====
-- src/version_utils.cc: `get_package_version`, `get_elf_build_id`, `get_host_arch` and the text of
-- `print_tool_version`.
pub mod Known
use cephtrace.Base.{
  ℕ, ◌+◌, ◌-◌, ◌/◌, ◌%◌, Bool, true, false, not, ◌&&◌, ◌||◌, List, [], ◌∷◌, ◌++◌, Option, none,
  some, ltb, ◌==◌, if◌then◌else◌, same_bytes, is_empty, drop, codes,
}
use cephtrace.Select.Process.{get_basename, unknown_text}
use cephtrace.Select.Targets.{starts_with, contains}
use cephtrace.Version.Text.{System, before_word, chomp}
use cephtrace.Version.Search.{or_search}

-- The name of the library in the path, without the suffix behind ".so" and without "lib".
unfoldable pub library_base_name : List ℕ → List ℕ
library_base_name library_path =
    let base_name = before_word (codes ".so") (get_basename library_path) in
    if starts_with (codes "lib") base_name then drop 3 base_name else base_name

unfoldable pub alt_names : List ℕ → List (List ℕ)
alt_names base_name =
    if same_bytes base_name (codes "rados")
    then codes "librados2" ∷ codes "ceph-common" ∷ []
    else if same_bytes base_name (codes "rbd")
    then codes "librbd1" ∷ codes "ceph-common" ∷ []
    else if same_bytes base_name (codes "ceph-common")
    then codes "ceph-common" ∷ []
    else if same_bytes base_name (codes "ceph-osd")
    then codes "ceph-osd" ∷ codes "ceph-common" ∷ []
    else base_name ∷ []

abbrev pub output_of : Option (List ℕ) → List ℕ
output_of none = []
output_of (some printed) = chomp printed

-- The loops over the package names.
unfoldable pub dpkg_version : System → List (List ℕ) → List ℕ
dpkg_version sys [] = []
dpkg_version sys (pkg ∷ pkgs) = or_search (output_of (sys.dpkg pkg)) (dpkg_version sys pkgs)

unfoldable pub installed : List ℕ → List ℕ
installed result = if contains (codes "not installed") result then [] else result

unfoldable pub rpm_version : System → List (List ℕ) → List ℕ
rpm_version sys [] = []
rpm_version sys (pkg ∷ pkgs) =
    or_search (installed (output_of (sys.rpm pkg))) (rpm_version sys pkgs)

unfoldable pub get_package_version : System → List ℕ → List ℕ
get_package_version sys library_path =
    let names = alt_names (library_base_name library_path) in
    let has_dpkg = sys.access_x (codes "/usr/bin/dpkg") in
    let has_rpm = sys.access_x (codes "/usr/bin/rpm") in
    or_search (if has_dpkg then dpkg_version sys names else [])
      (or_search (if has_rpm then rpm_version sys names else []) unknown_text)

-- A note of an ELF file, and a section, as libelf gives them: `notes` is `none` without data.
pub record ElfNote : Type 0 where
  pub is_build_id : Bool
  pub desc : List ℕ

pub record ElfSection : Type 0 where
  pub is_note : Bool
  pub name : Option (List ℕ)
  pub notes : Option (List ElfNote)

-- `%02x` of a byte.
unfoldable pub lower_hex : ℕ → ℕ
lower_hex digit = if ltb digit 10 then b'0' + digit else b'a' + digit - 10

unfoldable pub hex_text : List ℕ → List ℕ
hex_text [] = []
hex_text (b ∷ bs) = lower_hex (b / 16) ∷ lower_hex (b % 16) ∷ hex_text bs

-- The first note that is a build id.
unfoldable pub build_id_of_notes : List ElfNote → List ℕ
build_id_of_notes [] = []
build_id_of_notes (note ∷ notes) =
    let rest = build_id_of_notes notes in if note.is_build_id then hex_text note.desc else rest

abbrev pub has_name : Option (List ℕ) → Bool
has_name none = false
has_name (some name) = same_bytes name (codes ".note.gnu.build-id")

abbrev pub build_id_of_section : ElfSection → List ℕ
build_id_of_section section =
    if section.is_note && has_name section.name
    then elim section.notes [ none ↦ [] | some notes ↦ build_id_of_notes notes ]
    else []

unfoldable pub build_id_of_sections : List ElfSection → List ℕ
build_id_of_sections [] = []
build_id_of_sections (section ∷ sections) =
    or_search (build_id_of_section section) (build_id_of_sections sections)

-- `none`: the file cannot be opened, or libelf refuses it.
unfoldable pub get_elf_build_id : Option (List ElfSection) → List ℕ
get_elf_build_id none = []
get_elf_build_id (some sections) = build_id_of_sections sections

-- From what uname returns.
unfoldable pub get_host_arch : Option (List ℕ) → List ℕ
get_host_arch none = []
get_host_arch (some m) =
    if same_bytes m (codes "x86_64")
    then codes "amd64"
    else if same_bytes m (codes "aarch64")
    then codes "arm64"
    else if same_bytes m (codes "ppc64le")
    then codes "ppc64el"
    else if same_bytes m (codes "s390x")
    then codes "s390x"
    else if same_bytes m (codes "armv7l") || same_bytes m (codes "armv6l")
    then codes "armhf"
    else if same_bytes m (codes "i686") || same_bytes m (codes "i386")
    then codes "i386"
    else m

-- What the Makefile defines.
pub record BuildInfo : Type 0 where
  pub version : List ℕ
  pub git_describe : List ℕ
  pub git_branch : List ℕ
  pub build_date : List ℕ

abbrev pub newline : List ℕ
newline = 10 ∷ []

unfoldable pub print_tool_version : BuildInfo → List ℕ → List ℕ
print_tool_version b tool_name =
    let is_dev_build = not (is_empty b.git_describe) in
    let branch =
      if not (is_empty b.git_branch) && not (same_bytes b.git_branch (codes "HEAD"))
      then codes " (branch " ++ b.git_branch ++ codes ")"
      else [] in
    tool_name
    ++ codes " "
    ++ b.version
    ++ (if is_dev_build then codes " (development build)" else [])
    ++ newline
    ++ (if is_dev_build
        then codes "Based on:  cephtrace "
          ++ b.version
          ++ newline
          ++ codes "Git:       "
          ++ b.git_describe
          ++ branch
          ++ newline
        else [])
    ++ codes "Built:     "
    ++ b.build_date
    ++ newline
