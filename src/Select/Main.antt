-- ===== src/Select/Main.antt =====
-- src/osdtrace.cc: from the command line to the polling of the ring buffer, `main` with
-- `load_dwarf_data`, `run_tracer` and the attaching of probes. What the machine does is a parameter.
pub mod Attach
pub mod Traced
use cephtrace.Base.{
  is_positive, is_natural, ℕ, suc, ◌+◌, ◌*◌, ◌%◌, ◌^◌, Bool, true, false, not, ◌&&◌, ◌||◌, List, [],
  ◌∷◌, ◌++◌, Option, none, some, ltb, ◌==◌, if◌then◌else◌, same_bytes, is_empty, codes, minus_one,
  u64_mod, length,
}
use cephtrace.Bpf.Queue.{require, or_zero}
use cephtrace.Bpf.Tracer.{Config}
use cephtrace.Select.Embedded.{BuildId, EmbeddedTables, osdtrace}
use cephtrace.Select.Embedded.Import.{
  lookup_name, DwarfMaps, cleared, Imported, import_from_embedded,
}
use cephtrace.Select.Embedded.Import.Last.{lookup_in}
use cephtrace.Select.Process.{Options, Host, unknown_text, get_basename}
use cephtrace.Select.Targets.{TraceTarget, resolve_trace_targets}
use cephtrace.Select.Args.{
  Opt, Settings, initial_settings, ArgsResult, proceeds, fails, throws, exits, parse_args,
  AttachEntry, attach_list, is_enabled,
}
use cephtrace.Select.Hprobes.{Hprobes, fill_map_hprobes}
use cephtrace.Select.OsdId.Spelled.{decimal}
use cephtrace.Dwarf.Cache.{get_type_size, get_member_offset}
use cephtrace.Dwarf.Functions.{Parsed, aborted, parsed}
use cephtrace.Dwarf.Json.{JsonLibrary, Attempt, import_from_json}

-- A probe that is attached: its entry, the pid (-1 for all processes), the path and the address.
pub record Attached : Type 0 where
  pub entry : AttachEntry
  pub pid : ℕ
  pub path : List ℕ
  pub addr : ℕ

-- The machine: what /proc and the host say; `check_executable_deleted` of ceph-osd, `none` for its
-- exception; the build id of a file; the parse of a binary; the files that can be read; and whether
-- libbpf loads the program, attaches a probe, and sets up the ring buffer.
pub record Machine (lib : JsonLibrary) : Type 0 where
  pub tables : EmbeddedTables
  pub host : Host
  pub osd_deleted : Option Bool
  pub elf_build_id : List ℕ → List ℕ
  pub parse : List ℕ → Parsed
  pub file : List ℕ → Option lib.Text
  pub opens : Bool
  pub loads : Bool
  pub attaches : Attached → Bool
  pub has_ring_buffer : Bool
  pub bootstamp : ℕ
  pub rodata : Config

abbrev pub options_of : Settings → Options
options_of s = record {
  process_ids = s.process_ids;
  requested_osd_ids = s.requested_osd_ids;
  export_json = s.export_json;
  import_json = s.import_json;
  trace_all = s.trace_all;
}

-- The path of a file below the root of a process.
abbrev pub below_root : ℕ → List ℕ → List ℕ
below_root pid path = (codes "/proc/" ++ decimal 20 pid) ++ codes "/root" ++ path

abbrev pub buildid_path : TraceTarget → List ℕ → List ℕ
buildid_path t [] = t.osd_path
buildid_path t (pid ∷ pids) = below_root pid t.osd_path

abbrev pub maps_of_parse : Parsed → Option DwarfMaps
maps_of_parse aborted = none
maps_of_parse (parsed maps) = some maps

module _ (lib : JsonLibrary) (m : Machine lib) where
  abbrev imported_maps : Attempt DwarfMaps → Option DwarfMaps
  imported_maps a = if a.completed then some a.value else none

  -- Without a version that can be compared, nothing is imported.
  unfoldable pub load_json : Settings → TraceTarget → Option DwarfMaps
  load_json s t =
      let installed = m.host.package_version t.osd_path in
      let version = if s.skips_version_check then [] else installed in
      if not s.skips_version_check && same_bytes installed unknown_text
      then none
      else imported_maps (import_from_json lib version (m.file s.json_input_file) cleared)

  abbrev embedded_or_parse : TraceTarget → Imported → Option DwarfMaps
  embedded_or_parse t r = if r.found then some r.maps else maps_of_parse (m.parse t.osd_path)

  unfoldable pub load_binary : Settings → TraceTarget → Option DwarfMaps
  load_binary s t =
      let id = m.elf_build_id (buildid_path t t.pids) in
      let osd : BuildId = record { module_name = get_basename t.osd_path; build_id = id } in
      if s.export_json || is_empty id
      then maps_of_parse (m.parse t.osd_path)
      else embedded_or_parse t (import_from_embedded m.tables (osd ∷ []) osdtrace cleared)

  abbrev pub old_binary : Settings → Option Bool
  old_binary s = if s.export_json then some false else m.osd_deleted

  -- `load_dwarf_data`: `none` if it fails, or ends the program.
  unfoldable pub load_dwarf_data : Settings → TraceTarget → Option DwarfMaps
  load_dwarf_data s t =
      require (old_binary s) none λ deleted.
        if deleted then none else if s.import_json then load_json s t else load_binary s t

  -- `func2pc[funcname]`, which is 0 for a function that is not known.
  abbrev pub func_addr : DwarfMaps → List ℕ → List ℕ → ℕ
  func_addr maps path funcname = or_zero (lookup_in (get_basename path) funcname maps.mod_func2pc)

  abbrev pub attach_path : List ℕ → ℕ → List ℕ
  attach_path path pid = if pid == minus_one then path else below_root pid (codes "/" ++ path)

  -- `attach_probe`, for one process or for all.
  unfoldable pub attach_probe : DwarfMaps → List ℕ → AttachEntry → ℕ → Option Attached
  attach_probe maps path e pid =
      let a : Attached = record {
        entry = e;
        pid = pid;
        path = attach_path path pid;
        addr = func_addr maps path e.func;
      } in
      if a.addr == 0 then none else if m.attaches a then some a else none

  abbrev pub after_attach : Option Attached → List Attached × Bool → List Attached × Bool
  after_attach none rest = ([], false)
  after_attach (some a) (made, all) = (a ∷ made, all)

  -- The loop over the processes ends at the first failure; what is attached stays.
  abbrev pub attach_pids : DwarfMaps → List ℕ → AttachEntry → List ℕ → List Attached × Bool
  attach_pids maps path e [] = ([], true)
  attach_pids maps path e (pid ∷ pids) =
      after_attach (attach_probe maps path e pid) (attach_pids maps path e pids)

  -- `attach_probes`: what is attached, and whether it returns 0.
  unfoldable pub attach_probes : DwarfMaps → TraceTarget → AttachEntry → List Attached × Bool
  attach_probes maps t e =
      if is_empty t.pids
      then attach_pids maps t.osd_path e (minus_one ∷ [])
      else attach_pids maps t.osd_path e t.pids

  -- The loop over the list of probes, with the number of those that returned 0.
  unfoldable pub attach_all : ℕ → DwarfMaps → TraceTarget → List AttachEntry → List Attached × ℕ
  attach_all mode maps t [] = ([], 0)
  attach_all mode maps t (e ∷ es) =
      let (made, ok) = attach_probes maps t e in
      let (more, n) = attach_all mode maps t es in
      if is_enabled mode e then (made ++ more, if ok then suc n else n) else (more, n)

-- A run that polls the ring buffer, with this configuration, this data and these probes.
pub record Tracing : Type 0 where
  pub settings : Settings
  pub target : TraceTarget
  pub maps : DwarfMaps
  pub config : Config
  pub attached : List Attached

-- What a run of the program comes to: it ends before the tracing, it writes behind the end of an
-- array, or it polls.
pub data RunOutcome : Type 0 where
  ended : RunOutcome
  overruns : RunOutcome
  traces : Tracing → RunOutcome

abbrev pub osd_op : List ℕ
osd_op = codes "OSDOp"

module _ (lib : JsonLibrary) (m : Machine lib) where
  abbrev offset_in : DwarfMaps → TraceTarget → List (List ℕ) → ℕ
  offset_in maps t path = get_member_offset maps t.osd_path osd_op path

  -- The constants of the program: the offsets are set if all three are known.
  unfoldable pub config_of : Settings → TraceTarget → DwarfMaps → Hprobes → Config
  config_of s t maps filled =
      let size = get_type_size maps t.osd_path osd_op in
      let carriage = offset_in maps t (codes "indata" ∷ codes "_carriage" ∷ []) in
      let cls = offset_in maps t (codes "op" ∷ codes "cls" ∷ codes "class_len" ∷ []) in
      let method = offset_in maps t (codes "op" ∷ codes "cls" ∷ codes "method_len" ∷ []) in
      let known = is_natural carriage && is_natural cls && is_natural method in
      record {
        hprobes = filled;
        ceph_osd_op_size = size;
        ceph_osd_op_buffer_carriage_offset =
            if known then carriage else m.rodata.ceph_osd_op_buffer_carriage_offset;
        ceph_osd_op_cls_class_offset = if known then cls else m.rodata.ceph_osd_op_cls_class_offset;
        ceph_osd_op_cls_method_offset =
            if known then method else m.rodata.ceph_osd_op_cls_method_offset;
        latency_threshold_ns =
            if s.threshold == 0
            then m.rodata.latency_threshold_ns
            else s.threshold * 1000000 % u64_mod;
        bootstamp_ns = m.bootstamp;
      }

  abbrev pub polls : Settings → TraceTarget → DwarfMaps → Hprobes → List Attached × ℕ → RunOutcome
  polls s t maps filled (made, n) =
      if n == 0 || not m.has_ring_buffer
      then ended
      else traces (record {
        settings = s;
        target = t;
        maps = maps;
        config = config_of s t maps filled;
        attached = made;
      })

  -- `run_tracer`, up to the loop.
  unfoldable pub run_tracer : Settings → TraceTarget → DwarfMaps → RunOutcome
  run_tracer s t maps =
      if not m.opens || not (is_positive (get_type_size maps t.osd_path osd_op))
      then ended
      else if not m.loads
      then ended
      else require (fill_map_hprobes t.osd_path maps m.rodata.hprobes) overruns
          λ filled. polls s t maps filled (attach_all lib m s.probe_mode maps t attach_list)

  unfoldable pub main_with : Settings → RunOutcome
  main_with s =
      if s.lists_embedded || s.list_only
      then ended
      else require (resolve_trace_targets m.tables m.host (options_of s)) ended λ t.
        require (load_dwarf_data lib m s t) ended
          λ maps. if s.export_json then ended else run_tracer s t maps

  abbrev pub after_args : ArgsResult → RunOutcome
  after_args (proceeds s) = main_with s
  after_args fails = ended
  after_args throws = ended
  after_args (exits code) = ended

  unfoldable pub main : List Opt → RunOutcome
  main opts = after_args (parse_args opts initial_settings)
