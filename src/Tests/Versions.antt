-- ===== src/Tests/Versions.antt =====
-- Versions, libraries and executables of a concrete host.
use cephtrace.Base.{
  ℕ, arith, ◌≡◌, ◌⊎◌, refl, true, List, [], ◌∷◌, none, some, codes, same_bytes, Any,
}
use cephtrace.Version.Text.{System, ProcEntry}
use cephtrace.Version.Ceph.{is_ceph_version_squid_or_above}
use cephtrace.Version.Ceph.Compare.{with_epoch, version_body, reaches_squid, is_squid-printed}
use cephtrace.Version.Search.{find_library_path_from_maps}
use cephtrace.Version.Search.Mapped.{ComesFrom, find_library_path_from_maps-ComesFrom}

abbrev radosgw_maps : List (List ℕ)
radosgw_maps =
    codes "7f00-7f10 r--p 00000000 08:01 42 /usr/lib/librados.so.2.0.0"
    ∷ codes "7f20-7f30 r--p 00000000 08:01 43 /usr/lib/librbd.so.1 (deleted)"
    ∷ []

abbrev proc_dirs : List ProcEntry
proc_dirs =
    record { is_dir = true; d_name = codes "42" }
    ∷ record { is_dir = true; d_name = codes "self" }
    ∷ []

abbrev system : System
system = record {
  access_x = λ path. same_bytes path (codes "/opt/bin/ceph-osd");
  access_f = λ path. same_bytes path (codes "/usr/lib/librados.so.2");
  path_env = some (codes "/usr/local/bin::/opt/bin");
  maps = λ pid. some radosgw_maps;
  exe_link = λ pid. some (codes "/usr/bin/ceph-osd (deleted)");
  proc_entries = some proc_dirs;
  dl_path = λ name. none;
  dpkg = λ pkg. none;
  rpm = λ pkg. none;
}

find_library_path_from_maps-ComesFrom_example :
    let r = find_library_path_from_maps system (codes "librados.so.2") 42 in
    (r ≡ []) ⊎ Any (ComesFrom system (codes "librados.so.2") 42 r) radosgw_maps
find_library_path_from_maps-ComesFrom_example =
    find_library_path_from_maps-ComesFrom system (codes "librados.so.2") 42 radosgw_maps refl

is_squid-printed_example :
    is_ceph_version_squid_or_above (
      with_epoch
        (some 2)
        (version_body (record { major = 19; minor = 2; patch = 1 }) (codes "-1.el9")))
    ≡ reaches_squid (record { major = 19; minor = 2; patch = 1 })
is_squid-printed_example =
    is_squid-printed (record { major = 19; minor = 2; patch = 1 }) (some 2) (codes "-1.el9")
      (omega arith) (omega arith) (omega arith) refl
