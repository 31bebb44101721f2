-- ===== src/Tests/Modes.antt =====
-- The command line and the events of osdtrace on concrete inputs.
use cephtrace.Base.{refl, List, [], ◌∷◌, some, codes, true}
use cephtrace.Bpf.Types.{zero_op_v}
use cephtrace.Bpf.Tracer.{Event, op_event, bluestore_event}
use cephtrace.Select.OsdId.{stoi, bounded, digits}
use cephtrace.Select.Process.{insert}
use cephtrace.Select.Args.{
  id, single, Settings, initial_settings, comma_tokens, insert_ids, apply_opt, parse_args,
}
use cephtrace.Select.Args.Modes.{IsValid, Agrees, parse_args-IsValid}
use cephtrace.Select.Discover.{ProcHost, discover_ceph_osd_processes}
use cephtrace.Select.Discover.Found.{IsDiscovery, discover_ceph_osd_processes-IsDiscovery}
use cephtrace.Report.Events.{Reporting, no_events, handle_events}
use cephtrace.Report.Events.Known.{Reported, handle_events-Reported}

abbrev single_settings : Settings
single_settings = record initial_settings { probe_mode = 1; requested_osd_ids = 3 ∷ 7 ∷ [] }

parse_args-IsValid_example : IsValid single_settings × Agrees 1
unfolding parse_args apply_opt insert_ids comma_tokens stoi bounded digits insert
parse_args-IsValid_example =
    parse_args-IsValid (single ∷ id (codes "7,3") ∷ []) single_settings refl

abbrev reporting : Reporting
reporting = record {
  probe_mode = 6;
  threshold = 0;
  bootstamp = 0;
  cmdline = λ pid. some (codes "ceph-osd" ∷ codes "-i" ∷ codes "3" ∷ []);
}

abbrev events : List Event
events =
    op_event (record zero_op_v { pid = 42; recv_stamp = 5; reply_stamp = 9000 })
    ∷ bluestore_event (record { pid = 43; lat = 2000; name = codes "read" })
    ∷ []

handle_events-Reported_example :
    Reported reporting events no_events (handle_events reporting events no_events)
handle_events-Reported_example = handle_events-Reported reporting events

-- A container's OSD whose binary has been replaced.
abbrev proc_host : ProcHost
proc_host = record {
  proc_dir = some (record { is_dir = true; d_name = codes "42" } ∷ []);
  exe_link = λ pid. some (codes "/usr/bin/ceph-osd (deleted)");
  first_argument = λ pid. [];
  mnt_ns = λ pid. codes "mnt:[2]";
  self_ns = codes "mnt:[1]";
}

discover_ceph_osd_processes-IsDiscovery_example :
    IsDiscovery reporting proc_host
      (record { is_dir = true; d_name = codes "42" } ∷ [])
      (discover_ceph_osd_processes reporting proc_host)
discover_ceph_osd_processes-IsDiscovery_example =
    discover_ceph_osd_processes-IsDiscovery reporting proc_host
      (record { is_dir = true; d_name = codes "42" } ∷ []) refl
