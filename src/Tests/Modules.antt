-- ===== src/Tests/Modules.antt =====
-- The import of embedded DWARF data on a concrete table.
use cephtrace.Base.{◌≡◌, some, ℕ, arith, List, [], ◌∷◌, none, codes, All, false}
use cephtrace.Select.Embedded.{
  BuildId, Named, VarPath, EmbeddedVersion, EmbeddedTables, osdtrace, find_embedded_match,
}
use cephtrace.Select.Embedded.Import.{lookup_name, DwarfMaps, cleared, import_from_embedded}
use cephtrace.Select.Embedded.Import.Last.{ImportOutcome, import_from_embedded-outcome}
use cephtrace.Select.Hprobes.{Hprobes, fill_map_hprobes}
use cephtrace.Select.Process.{get_basename}
use cephtrace.Select.Hprobes.Placed.{IsPlaced, fill_map_hprobes-IsPlaced}

abbrev path_of : ℕ → VarPath
path_of reg = record { varloc = record { reg = reg; offset = 0; stack = false }; fields = [] }

abbrev dequeue : Named (List VarPath)
dequeue = record { name = codes "OSD::dequeue_op"; value = path_of 3 ∷ path_of 4 ∷ [] }

abbrev enqueue : Named (List VarPath)
enqueue = record { name = codes "OSD::enqueue_op"; value = path_of 5 ∷ [] }

abbrev squid_id : BuildId
squid_id = record { module_name = codes "ceph-osd"; build_id = codes "0a1b" }

abbrev squid : EmbeddedVersion
squid = record {
  version = codes "19.2.0";
  modules =
      record {
        id = squid_id;
        type_sizes = [];
        member_offsets = [];
        func2pc = record { name = codes "OSD::enqueue_op"; value = 4096 } ∷ [];
        func2vf = enqueue ∷ dequeue ∷ [];
      }
      ∷ [];
}

abbrev squid_tables : EmbeddedTables
squid_tables = record { osdtrace = squid ∷ []; radostrace = [] }

import_from_embedded-outcome_example :
    ImportOutcome cleared
      (import_from_embedded squid_tables (squid_id ∷ []) osdtrace cleared)
      (find_embedded_match squid_tables (squid_id ∷ []) osdtrace)
import_from_embedded-outcome_example =
    import_from_embedded-outcome squid_tables (squid_id ∷ []) osdtrace cleared

-- The maps after that import, in the order of the names.
abbrev squid_maps : DwarfMaps
squid_maps = record cleared {
  mod_func2vf = record { name = codes "ceph-osd"; value = dequeue ∷ enqueue ∷ [] } ∷ [];
}

abbrev squid_functions : List (Named (List VarPath))
squid_functions = dequeue ∷ enqueue ∷ []

fill_map_hprobes-IsPlaced_example :
    (filled : Hprobes) × (fill_map_hprobes (codes "/usr/bin/ceph-osd") squid_maps (λ k. none)
      ≡ some filled)
    × All (IsPlaced filled) squid_functions
unfolding lookup_name get_basename
fill_map_hprobes-IsPlaced_example =
    fill_map_hprobes-IsPlaced (codes "/usr/bin/ceph-osd") squid_maps (λ k. none)
      (((λ e. cc), omega arith), (((λ e. cc), omega arith), tt))
      (((λ e. ground arith), tt), (tt, tt))
      ((omega arith, (omega arith, tt)), ((omega arith, tt), tt))
