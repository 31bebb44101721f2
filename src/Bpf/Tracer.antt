-- ===== src/Bpf/Tracer.antt =====
-- What a probe of src/osdtrace.bpf.c runs on: the traced thread that hit the uprobe, the constants
-- that userspace sets before loading, and the state that the maps and the ring buffer keep.
use cephtrace.Base.{ℕ, ◌+◌, ◌/◌, Bool, List, ◌∷◌, Option, u32_mod, if◌then◌else◌}
use cephtrace.Bpf.Types.{OpKey, CtxKey, OpValue, BluestoreLat, VarField}
use cephtrace.Bpf.Maps.{BpfMap}

-- `struct pt_regs` of x86-64, the registers that DWARF numbers.
pub record PtRegs : Type 0 where
  pub rax : ℕ
  pub rdx : ℕ
  pub rcx : ℕ
  pub rbx : ℕ
  pub rsi : ℕ
  pub rdi : ℕ
  pub rbp : ℕ
  pub rsp : ℕ
  pub r8 : ℕ
  pub r9 : ℕ
  pub r10 : ℕ
  pub r11 : ℕ
  pub r12 : ℕ
  pub r13 : ℕ
  pub r14 : ℕ
  pub r15 : ℕ

-- `struct user_pt_regs` of arm64.
pub record UserPtRegs : Type 0 where
  pub regs : ℕ → ℕ
  pub sp : ℕ

pub data Regs : Type 0 where
  x86 : PtRegs → Regs
  arm64 : UserPtRegs → Regs

-- One hit of a uprobe. `now` and `later` are the first and the second reading of
-- `bpf_ktime_get_boot_ns` in it. `read_user a n` is what `bpf_probe_read_user` copies from the n
-- bytes at a (zeros where the address faults), `read_user_str` the same for
-- `bpf_probe_read_user_str`. `has_room` says whether `bpf_ringbuf_reserve` finds space.
pub record Hit : Type 0 where
  pub regs : Regs
  pub parm2 : ℕ
  pub parm3 : ℕ
  pub parm4 : ℕ
  pub pid_tgid : ℕ
  pub now : ℕ
  pub later : ℕ
  pub read_user : ℕ → ℕ → List ℕ
  pub read_user_str : ℕ → ℕ → List ℕ
  pub has_room : Bool

-- The `const volatile` globals, and the `hprobes` map, which userspace fills before attaching.
pub record Config : Type 0 where
  pub hprobes : ℕ → Option VarField
  pub ceph_osd_op_size : ℕ
  pub ceph_osd_op_buffer_carriage_offset : ℕ
  pub ceph_osd_op_cls_class_offset : ℕ
  pub ceph_osd_op_cls_method_offset : ℕ
  pub latency_threshold_ns : ℕ
  pub bootstamp_ns : ℕ

-- The three LRU hashes that the kernel keeps for the tracer.
pub record Kernel : Type 1 where
  pub ops : BpfMap OpKey OpValue
  pub ptid_opk : BpfMap ℕ OpKey
  pub ctx_opk : BpfMap CtxKey OpKey

pub data Event : Type 0 where
  op_event : OpValue → Event
  bluestore_event : BluestoreLat → Event

-- `rb` holds every event submitted so far, the newest first.
pub record Tracer (k : Kernel) : Type 0 where
  pub ops : k.ops.Map
  pub ptid_opk : k.ptid_opk.Map
  pub ctx_opk : k.ctx_opk.Map
  pub rb : List Event
  pub rb_drops : ℕ

-- `get_pid` of src/bpf_utils.h.
unfoldable pub get_pid : Hit → ℕ
get_pid c = c.pid_tgid / u32_mod

-- `count_rb_drop`.
abbrev pub count_rb_drop : {k : Kernel} → Tracer k → Tracer k
count_rb_drop s = record s { rb_drops = s.rb_drops + 1 }

-- Reserve, copy and submit; a full ring buffer counts the loss.
abbrev pub submit : {k : Kernel} → Hit → Event → Tracer k → Tracer k
submit c e s = if c.has_room then record s { rb = e ∷ s.rb } else count_rb_drop s
