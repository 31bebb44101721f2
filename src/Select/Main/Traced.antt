-- ===== src/Select/Main/Traced.antt =====
-- What holds when osdtrace starts to poll the ring buffer.
use cephtrace.Base.{
  is_positive, ◌≡◌, ◌≢◌, refl, ap, arith, Bool, true, false, not, ◌||◌, List, [], Option, none,
  some, ◌==◌, if◌then◌else◌, All, nonempty,
}
use cephtrace.Bpf.Queue.{require}
use cephtrace.Bpf.Rules.{require_rule, if_rule}
use cephtrace.Select.Embedded.Import.{DwarfMaps}
use cephtrace.Select.Targets.{TraceTarget, resolve_trace_targets}
use cephtrace.Select.Targets.Resolved.{IsTarget, resolve_trace_targets-IsTarget}
use cephtrace.Select.Args.{
  Opt, Settings, initial_settings, ArgsResult, proceeds, fails, throws, exits, parse_args,
  attach_list,
}
use cephtrace.Select.Args.Modes.{IsValid, parse_args-IsValid}
use cephtrace.Select.Hprobes.{Hprobes, fill_map_hprobes}
use cephtrace.Dwarf.Cache.{get_type_size}
use cephtrace.Dwarf.Json.{JsonLibrary}
use cephtrace.Select.Main.{
  Machine, options_of, load_dwarf_data, old_binary, attach_all, Tracing, RunOutcome, ended,
  overruns, traces, osd_op, config_of, polls, run_tracer, main_with, after_args, main,
}
use cephtrace.Select.Main.Attach.{IsProbe, attach_all-AreAttached}

module _ (lib : JsonLibrary) (m : Machine lib) where
  pub record IsTraced (r : Tracing) : Type 0 where
    pub valid : IsValid r.settings
    pub target : IsTarget m.host r.target
    pub not_listing : (r.settings.lists_embedded || r.settings.list_only) ≡ false
    pub not_exporting : r.settings.export_json ≡ false
    pub fresh : m.osd_deleted ≡ some false
    pub stride : r.config.ceph_osd_op_size ≡ get_type_size r.maps r.target.osd_path osd_op
    pub positive : is_positive r.config.ceph_osd_op_size ≡ true
    pub some_probe : r.attached ≢ []
    pub probes : All (IsProbe lib m r.settings.probe_mode r.maps r.target) r.attached

  abbrev pub Starts : RunOutcome → Type 0
  Starts ended = Unit
  Starts overruns = Unit
  Starts (traces r) = IsTraced r

  -- Outside an export, data is loaded only if no ceph-osd runs a deleted file.
  load_dwarf_data-fresh :
      (s : Settings) (t : TraceTarget) (maps : DwarfMaps)
      → load_dwarf_data lib m s t ≡ some maps
      → s.export_json ≡ false
      → m.osd_deleted ≡ some false
  unfolding load_dwarf_data
  load_dwarf_data-fresh s t maps h live =
      checked m.osd_deleted (ap (λ x. if x then some false else m.osd_deleted) live) h
    where
      checked :
          (o : Option Bool)
          → old_binary lib m s ≡ o
          → load_dwarf_data lib m s t ≡ some maps
          → o ≡ some false
      checked none e g = absurd (ground arith)
      checked (some true) e g = absurd (ground arith)
      checked (some false) e g = refl

  module _ (s : Settings) (valid : IsValid s) (t : TraceTarget) (target : IsTarget m.host t) where
    abbrev traced : DwarfMaps → Hprobes → Tracing
    traced maps filled = record {
      settings = s;
      target = t;
      maps = maps;
      config = config_of lib m s t maps filled;
      attached = (attach_all lib m s.probe_mode maps t attach_list).0;
    }

    traced-IsTraced :
        (maps : DwarfMaps) (filled : Hprobes)
        → (s.lists_embedded || s.list_only) ≡ false
        → s.export_json ≡ false
        → m.osd_deleted ≡ some false
        → is_positive (get_type_size maps t.osd_path osd_op) ≡ true
        → ((attach_all lib m s.probe_mode maps t attach_list).1 == 0) ≡ false
        → IsTraced (traced maps filled)
    unfolding config_of
    traced-IsTraced maps filled listing live fresh sized counted =
        let made = attach_all-AreAttached lib m s.probe_mode maps t attach_list in
        record {
          valid = valid;
          target = target;
          not_listing = listing;
          not_exporting = live;
          fresh = fresh;
          stride = refl;
          positive = sized;
          some_probe = nonempty _ (made.found counted);
          probes = made.probes;
        }

    run_tracer-Starts :
        (maps : DwarfMaps)
        → (s.lists_embedded || s.list_only) ≡ false
        → s.export_json ≡ false
        → m.osd_deleted ≡ some false
        → Starts (run_tracer lib m s t maps)
    unfolding run_tracer
    run_tracer-Starts maps listing live fresh =
        let made = attach_all lib m s.probe_mode maps t attach_list in
        let sized = is_positive (get_type_size maps t.osd_path osd_op) in
        let fill = fill_map_hprobes t.osd_path maps m.rodata.hprobes in
        let last : Hprobes → RunOutcome = λ filled. polls lib m s t maps filled made in
        let loaded = if not m.loads then ended else require fill overruns last in
        if_rule Starts (not m.opens || not sized) ended loaded (λ _. tt)
          λ opened.
            if_rule Starts (not m.loads) ended (require fill overruns last) (λ _. tt)
              λ _. require_rule Starts fill overruns last tt λ filled is_filled.
                if_rule Starts (made.1 == 0 || not m.has_ring_buffer) ended
                  (traces (traced maps filled)) (λ _. tt)
                  (λ go.
                    traced-IsTraced maps filled listing live fresh (ground arith) (ground arith))

  main_with-Starts : (s : Settings) → IsValid s → Starts (main_with lib m s)
  unfolding main_with
  main_with-Starts s valid =
      let run : TraceTarget → DwarfMaps → RunOutcome =
        λ t maps. if s.export_json then ended else run_tracer lib m s t maps in
      let load : TraceTarget → RunOutcome =
        λ t. require (load_dwarf_data lib m s t) ended (run t) in
      let found = resolve_trace_targets m.tables m.host (options_of s) in
      if_rule Starts (s.lists_embedded || s.list_only) ended (require found ended load) (λ _. tt)
        λ listing. require_rule Starts found ended load tt λ t is_t.
          let target = resolve_trace_targets-IsTarget m.tables m.host (options_of s) t is_t in
          require_rule Starts (load_dwarf_data lib m s t) ended (run t) tt λ maps is_maps.
            if_rule Starts s.export_json ended (run_tracer lib m s t maps) (λ _. tt)
              λ live.
                run_tracer-Starts s valid t target maps listing live
                  (load_dwarf_data-fresh s t maps is_maps live)

  -- If osdtrace comes to poll the ring buffer: its options are valid and ask neither for a list nor
  -- for an export; its target is one that can be traced, and no ceph-osd runs a deleted file; the
  -- size of an OSDOp that the program in the kernel walks with is the one of the data, and is
  -- positive; at least one probe is attached; and every attached probe is one of the mode, at the
  -- address the data has for its function, which is not 0, on a process of the target, or on all
  -- if the target has none.
  pub main-Starts : (opts : List Opt) → Starts (main lib m opts)
  unfolding main
  main-Starts opts = args (parse_args opts initial_settings) refl
    where
      args : (r : ArgsResult) → parse_args opts initial_settings ≡ r → Starts (after_args lib m r)
      args (proceeds s) e = main_with-Starts s (parse_args-IsValid opts s e).0
      args fails e = tt
      args throws e = tt
      args (exits code) e = tt
