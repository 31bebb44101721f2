-- ===== src/Report/Events.antt =====
-- src/osdtrace.cc: `handle_event`, which takes the records of the ring buffer one by one, with
-- `exists`, `osd_pid_to_id` and `handle_bluestore`. A write behind the end of an array ends the model.
pub mod Known
use cephtrace.Base.{
  ℕ, ◌+◌, ◌/◌, Bool, true, false, not, ◌&&◌, List, [], ◌∷◌, ◌++◌, Option, none, some, ◌==◌,
  if◌then◌else◌, ltb, length, any, is_empty, codes, minus_one, bit_and,
}
use cephtrace.Bpf.Types.{OpValue, BluestoreLat}
use cephtrace.Bpf.Tracer.{Event, op_event, bluestore_event}
use cephtrace.Bpf.Queue.{require}
use cephtrace.Report.Op.{Row, handle_full, c_string}
use cephtrace.Report.Histogram.{SizeRanges, handle_single}
use cephtrace.Select.OsdId.{parse_osd_id_from_tokens}
use cephtrace.Select.Args.{op_single_probe, op_full_probe, bluestore_probe}

-- The globals that are set before the first event, and the command lines that /proc shows.
pub record Reporting : Type 0 where
  pub probe_mode : ℕ
  pub threshold : ℕ
  pub bootstamp : ℕ
  pub cmdline : ℕ → Option (List (List ℕ))

-- What is printed for an event.
pub data Printed : Type 0 where
  op_row : ℕ → Row → Printed
  bluestore_row : ℕ → List ℕ → ℕ → Printed

-- `osds` and `pids`, whose common length is `num_osd`; `osd_wsrl` and `osd_rsrl` by OSD; and what has
-- been printed, the newest first.
pub record Reporter : Type 0 where
  pub osds : List ℕ
  pub pids : List ℕ
  pub ranges : ℕ → SizeRanges
  pub printed : List Printed

abbrev pub no_events : Reporter
no_events = record {
  osds = [];
  pids = [];
  ranges = λ id. record { wvecs = []; rvecs = [] };
  printed = [];
}

unfoldable pub exists : Reporter → ℕ → Bool
exists r id = any (λ osd. osd == id) r.osds

-- The id that was recorded with the pid.
unfoldable pub id_of_pid : ℕ → List ℕ → List ℕ → Option ℕ
id_of_pid pid (p ∷ ps) (o ∷ os) =
    let rest = id_of_pid pid ps os in if p == pid then some o else rest
id_of_pid pid [] os = none
id_of_pid pid (p ∷ ps) [] = none

abbrev pub id_of_tokens : Option (List (List ℕ)) → ℕ
id_of_tokens none = minus_one
id_of_tokens (some args) = parse_osd_id_from_tokens args

abbrev pub known_or : Option ℕ → ℕ → ℕ
known_or none id = id
known_or (some id) other = id

unfoldable pub osd_pid_to_id : Reporting → Reporter → ℕ → ℕ
osd_pid_to_id g r pid = known_or (id_of_pid pid r.pids r.osds) (id_of_tokens (g.cmdline pid))

unfoldable pub handle_bluestore : BluestoreLat → ℕ → Printed
handle_bluestore val osd_id =
    let name = c_string val.name in
    bluestore_row osd_id (if is_empty name then codes "?" else name) (val.lat / 1000)

-- `handle_single` on the vectors of the OSD.
abbrev pub single_event : Reporting → OpValue → ℕ → Reporter → Reporter
single_event g val osd_id r = record r {
  ranges = λ id. if id == osd_id then handle_single g.bootstamp val (r.ranges id) else r.ranges id;
}

abbrev pub print_row : ℕ → Option Row → Reporter → Reporter
print_row osd_id none r = r
print_row osd_id (some row) r = record r { printed = op_row osd_id row ∷ r.printed }

unfoldable pub handles_op : ℕ → Bool
handles_op mode = not (bit_and mode (op_single_probe + op_full_probe) == 0)

unfoldable pub handles_bluestore : ℕ → Bool
handles_bluestore mode = not (bit_and mode bluestore_probe == 0)

-- An op event in a mode that has ops.
unfoldable pub report_op : Reporting → OpValue → ℕ → Reporter → Reporter
report_op g val osd_id r =
    if g.probe_mode == op_single_probe
    then single_event g val osd_id r
    else if not (bit_and g.probe_mode op_full_probe == 0)
    then print_row osd_id (handle_full g.threshold g.bootstamp val) r
    else r

-- The elements of the arrays `osds` and `pids`.
abbrev pub max_osd : ℕ
max_osd = 4000

abbrev pub with_osd : ℕ → ℕ → Reporter → Reporter
with_osd osd_id pid r = record r { osds = r.osds ++ osd_id ∷ []; pids = r.pids ++ pid ∷ [] }

-- At the end an id that is new is recorded with its pid: `none` is a write to `osds[MAX_OSD]`, which
-- the code does not check for.
unfoldable pub record_osd : ℕ → ℕ → Reporter → Option Reporter
record_osd osd_id pid r =
    if exists r osd_id
    then some r
    else if ltb (length r.osds) max_osd
    then some (with_osd osd_id pid r)
    else none

unfoldable pub handle_event : Reporting → Event → Reporter → Option Reporter
handle_event g (op_event val) r =
    let osd_id = osd_pid_to_id g r val.pid in
    if handles_op g.probe_mode
    then record_osd osd_id val.pid (report_op g val osd_id r)
    else record_osd minus_one 0 r
handle_event g (bluestore_event val) r =
    let osd_id = osd_pid_to_id g r val.pid in
    if handles_bluestore g.probe_mode
    then record_osd osd_id val.pid (record r { printed = handle_bluestore val osd_id ∷ r.printed })
    else record_osd minus_one 0 r

unfoldable pub handle_events : Reporting → List Event → Reporter → Option Reporter
handle_events g [] r = some r
handle_events g (e ∷ es) r = require (handle_event g e r) none (handle_events g es)
