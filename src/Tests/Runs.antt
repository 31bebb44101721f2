-- ===== src/Tests/Runs.antt =====
-- Runs of osdtrace, from the command line.
use cephtrace.Base.{◌≡◌, refl, Bool, true, false, [], ◌∷◌, none, some, codes}
use cephtrace.Bpf.Tracer.{Config}
use cephtrace.Select.Embedded.{
  is_embedded_traceable, find_embedded_match, wanted, scan, is_match, same_id,
}
use cephtrace.Select.Embedded.Import.{lookup_name, DwarfMaps, cleared}
use cephtrace.Select.Hprobes.{fill_functions}
use cephtrace.Select.Process.{get_basename, annotate, insert, select_all_traceable_osds}
use cephtrace.Select.Targets.{target_of, selected_ids, resolve_trace_targets}
use cephtrace.Select.Args.{all, single, apply_opt, parse_args, is_enabled}
use cephtrace.Dwarf.Cache.{get_type_size}
use cephtrace.Dwarf.Functions.{parsed}
use cephtrace.Select.Main.{
  Machine, load_dwarf_data, load_binary, attach_probe, attach_probes, attach_all, RunOutcome, ended,
  overruns, traces, osd_op, run_tracer, main_with, main,
}
use cephtrace.Select.Main.Traced.{Starts, main-Starts}
use cephtrace.Tests.Files.{trees}
use cephtrace.Tests.Targets.{host, tables}

-- The data of a binary in which the function of the single mode is known.
abbrev single_maps : DwarfMaps
single_maps = record cleared {
  mod_func2pc =
      record {
        name = codes "ceph-osd";
        value = record { name = codes "PrimaryLogPG::log_op_stats"; value = 4096 } ∷ [];
      }
      ∷ [];
  mod_type_sizes =
      record { name = codes "ceph-osd"; value = record { name = osd_op; value = 184 } ∷ [] } ∷ [];
}

abbrev rodata : Config
rodata = record {
  hprobes = λ v. none;
  ceph_osd_op_size = 0;
  ceph_osd_op_buffer_carriage_offset = 0;
  ceph_osd_op_cls_class_offset = 0;
  ceph_osd_op_cls_method_offset = 0;
  latency_threshold_ns = 0;
  bootstamp_ns = 0;
}

abbrev machine : Machine trees
machine = record {
  tables = tables;
  host = host;
  osd_deleted = some false;
  elf_build_id = λ path. [];
  parse = λ path. parsed single_maps;
  file = λ path. none;
  opens = true;
  loads = true;
  attaches = λ a. true;
  has_ring_buffer = true;
  bootstamp = 5;
  rodata = rodata;
}

main-Starts_example : Starts trees machine (main trees machine (single ∷ all ∷ []))
main-Starts_example = main-Starts trees machine (single ∷ all ∷ [])

abbrev is_tracing : RunOutcome → Bool
is_tracing ended = false
is_tracing overruns = false
is_tracing (traces r) = true

-- The machine lets the program poll.
run_polls : is_tracing (main trees machine (single ∷ all ∷ [])) ≡ true
unfolding main main_with parse_args apply_opt resolve_trace_targets target_of selected_ids
    select_all_traceable_osds annotate get_basename is_embedded_traceable find_embedded_match wanted
    scan is_match same_id insert load_dwarf_data load_binary run_tracer get_type_size lookup_name
    attach_all attach_probes attach_probe is_enabled fill_functions
run_polls = refl
