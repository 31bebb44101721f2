-- ===== src/Lib.antt =====
-- cephtrace: tracers for Ceph. osdtrace attaches uprobes to ceph-osd; the probes, which run in the
-- kernel (src/osdtrace.bpf.c), follow each op through the OSD in hash maps and submit one record
-- to a ring buffer when it completes; userspace (src/osdtrace.cc) turns the records into rows and
-- histograms. The offsets that the probes use come from DWARF data, which is embedded for known
-- builds; the processes to trace are those that the command line asks for.
-- radostrace does the same for the ops of librados clients, with two probes, and kfstrace for the
-- requests of the kernel's client to OSDs and MDSs, with kprobes.
--
-- Files:
--   Base: the names that all modules share; lists and machine words over the native numbers.
--   Bpf/Types: the structs of src/bpf_ceph_types.h. An `int` is a bit pattern.
--   Bpf/Maps: a BPF hash map as an interface. An LRU map may evict on insertion and may refuse one.
--   Bpf/Tracer: a hit of a uprobe (registers, user memory, clock), the constants, the state.
--   Bpf/Fetch: src/bpf_utils.h, `fetch_register` and `fetch_var_member_addr`, with the two read
--     helpers of src/osdtrace.bpf.c. Fetch/Chain compares the unrolled chain with a loop.
--   Bpf/Queue: `uprobe_enqueue_op`, `uprobe_dequeue_op`, `uprobe_execute_ctx`.
--   Bpf/Store: the probes of the transaction and of BlueStore.
--   Bpf/Reply: the probes that complete an op, and the two of BlueStore's own latencies.
--   Bpf/Notes: the probes that note down peers and delays.
--   Bpf/Entry, Bpf/Rules, Bpf/Invariant: what holds of an entry, how it passes through the guards of
--     a probe, and one lemma per probe.
--   Bpf/Run: all twenty-one probes as one step function, and a run over a list of hits.
--   Bpf/Effects: what the enqueueing and the completing probes do to the maps and the ring buffer.
--   Report/Op: `generate_op` and `handle_full` of src/osdtrace.cc. Report/Latency is about the
--     latencies in its rows.
--   Report/Histogram: `knum`, `lsb`, `index`, `handle_single` and the part of `print_srl` that
--     chooses what is printed.
--   Report/Name: `format_object_name`.
--   Report/Events: `handle_event` and what it keeps about the OSDs.
--   Rados/Types, Rados/Probes, Rados/Run: the two uprobes of src/radostrace.bpf.c, for clients of
--     librados, and a run over their hits.
--   Bpf/OpNames: the tables of op names.
--   Rados/Csv, Rados/Report: `csv_escape`, `print_event` (the row of the CSV file) and
--     `report_hung_ops` of src/radostrace.cc. A stringstream that is given a null pointer fails.
--   Rados/Clients: `discover_ceph_clients` of src/radostrace.cc, with std::sort as insertion.
--   Kfs/Types, Kfs/Osd, Kfs/Name, Kfs/Mds, Kfs/Run: the four kprobes of src/kfstrace.bpf.c, for
--     requests of the kernel client to OSDs and MDSs, and a run over their hits. Kfs/Mds/Target says
--     which request a hit names, Kfs/Mds/Lifecycle is the life of a request, Kfs/Run/Reported its end.
--   Kfs/Show: `handle_event` with `format_ops` and `handle_mds_event` of src/kfstrace.cc. Show/Acting is
--     about the acting set.
--   Kfs/Main: `main` of src/kfstrace.cc. Main/Tracing is about what it polls with, Main/Status about
--     its exit status.
--   Select/Embedded: `find_embedded_match` and `is_embedded_traceable` of src/dwarf_parser.cc;
--     Select/Embedded/Import: `import_from_embedded`.
--   Select/Discover: `discover_ceph_osd_processes` of src/osdtrace.cc, with std::sort as insertion.
--   Select/Args: `parse_args` of src/osdtrace.cc and the probes that a mode attaches.
--   Select/Hprobes: `fill_map_hprobes` of src/osdtrace.cc.
--   Select/Process: `annotate_traceability` and `select_all_traceable_osds` of src/osdtrace.cc, with
--     `get_basename` of src/utils.h.
--   Select/Targets: `resolve_requested_osd_ids` and `resolve_trace_targets` of src/osdtrace.cc.
--   Select/OsdId: `parse_osd_id_from_tokens` of src/utils.h, with std::stoi.
--   Select/Main: `main`, `load_dwarf_data`, `attach_probes` and `run_tracer` of src/osdtrace.cc, up to
--     the polling. Main/Attach is about the probes, Main/Traced about the runs that poll.
--   Dwarf/Types: libdw as an interface: the tree of debugging entries, attributes, expressions.
--   Dwarf/Expr: `translate_expr` and `abi_stack_location` of src/dwarf_parser.cc. Dwarf/Abi: where a
--     parameter without a location arrives (`abi_param_location`), and `translate_param_location`.
--   Dwarf/Members: the search for a member of a type, its offset, and its type.
--   Dwarf/Cache: the types kept by name, `preprocess_module` and what was asked for.
--   Dwarf/Fields: `find_class_member` and `translate_fields`, for the paths of the probes.
--   Dwarf/Functions: `handle_function` and `handle_module`, which describe the functions to probe.
--   Dwarf/Json: `export_to_json` and `import_from_json`, over a JSON library.
--   Version/Text, Version/Ceph, Version/Search, Version/Deleted, Version/Package:
--     src/version_utils.cc, with the operations of std::string and `sscanf` that it uses.
--   Tests: a map that never evicts, and runs on concrete inputs.
--
-- Bounds: the loops of the probes run at most MAX_DETAIL_OPS = 8 rounds, as in the source. `lsb`
-- has 32 rounds of fuel, and a positive `int` has at most 31 bits. 64-bit subtractions wrap, and
-- so do the offsets of parameters and of members. A write behind the end of an array (more than
-- MAX_OSD = 4000 ids, more than ten members of a variable) ends the model without a value. The
-- loops over debugging entries take fuel, a round for each type that is looked at or unwrapped; it
-- is enough when a measure of the entries falls, which it does where no type contains itself and
-- no typedef leads back to itself. Fuel that is out is a result of its own, but for a parameter
-- whose type has more wrappers than the fuel: that one counts as a parameter that cannot be
-- classified.
--
-- Parameters: the kernel's maps, what a read of user memory or of a kernel struct returns, the
-- enumerators that the generated header ceph_btf_local.h takes from the kernel, the clock, and
-- whether the ring buffer has room; whether libbpf loads the programs of
-- osdtrace and kfstrace and attaches a probe, and what a poll returns; atoi and atoll; how printf shows
-- milliseconds; libdw and the JSON library; for the selection, the generated
-- tables of build ids and what /proc, the binaries, the file system and the package database of
-- the host say. One hit of a probe is one step, so that two probes do not interleave on one
-- entry; the per-CPU counter of lost events is one counter.
--
-- Not modelled: logging with bpf_printk and the columns of printf; the opening of files, and what
-- libdwfl does with them; the rest of the userspace of radostrace; what
-- libbpf does to load a program and to attach a probe; scripts, tests and data files.
pub mod Base
pub mod Bpf
pub mod Report
pub mod Rados
pub mod Kfs
pub mod Select
pub mod Version
pub mod Dwarf
mod Tests
