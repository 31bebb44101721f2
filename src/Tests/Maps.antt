-- ===== src/Tests/Maps.antt =====
-- A map of the kernel as a function, which neither evicts nor refuses anything, and the inputs of
-- the tests.
use mathlib.Core.Logic.{ite, if_pos, if_neg}
use cephtrace.Base.{
  ℕ, ◌+◌, ◌-◌, ◌*◌, ◌/◌, Bool, true, [], ◌∷◌, Option, none, some, inl, refl, ℕ_discrete, replicate,
  take, if◌then◌else◌, ◌==◌, ◌||◌,
}
use cephtrace.Bpf.Fetch.{zero_field}
use cephtrace.Bpf.Types.{OpKey, CtxKey, VarField}
use cephtrace.Bpf.Maps.{BpfMap}
use cephtrace.Bpf.Tracer.{x86, Hit, Config, Kernel}

abbrev pub plain_map : {K V : Type 0} → Discrete K → BpfMap K V
plain_map {K} {V} d = record {
  Map = K → Option V;
  empty = λ _. none;
  lookup = λ m k. m k;
  update = λ m k v j. ite (d j k) (some v) (m j);
  delete = λ m k j. ite (d j k) none (m j);
  write = λ m k v j. ite (d j k) (some v) (m j);
  same_key = d;
  lookup-empty = λ k. refl;
  lookup-update_self = λ m k v. inl (if_pos (d k k) refl (some v) _);
  lookup-update_ne = λ m k j v n. inl (if_neg (d j k) n _ _);
  lookup-delete_self = λ m k. if_pos (d k k) refl _ _;
  lookup-delete_ne = λ m k j n. if_neg (d j k) n _ _;
  lookup-write_self = λ m k v w e. if_pos (d k k) refl (some v) _;
  lookup-write_ne = λ m k j v n. if_neg (d j k) n _ _;
}

abbrev pub OpKey_discrete : Discrete OpKey
OpKey_discrete = hlevel (ℕ_discrete)

abbrev pub CtxKey_discrete : Discrete CtxKey
CtxKey_discrete = hlevel (ℕ_discrete)

abbrev pub plain_kernel : Kernel
plain_kernel = record {
  ops = plain_map OpKey_discrete;
  ptid_opk = plain_map ℕ_discrete;
  ctx_opk = plain_map CtxKey_discrete;
}

-- What the traced process keeps in the variable of an id: an OSD op of owner 7 and tid 9.
abbrev user_value : ℕ → ℕ
user_value varid =
    if varid == 0 || varid == 10
    then 42
    else if varid == 1 || varid == 11 || varid == 90 || varid == 170
    then 7
    else if varid == 2 || varid == 12 || varid == 91 || varid == 171
    then 9
    else varid

-- Variable number varid stands 16 · varid bytes behind the address in rdi.
abbrev pub user_var : ℕ → VarField
user_var varid = record {
  varloc = record { reg = 5; offset = 0; stack = Bool.false };
  fields = zero_field ∷ record { offset = 16 * varid; pointer = Bool.false } ∷ [];
  size = 2;
}

abbrev pub config : Config
config = record {
  hprobes = λ varid. some (user_var varid);
  ceph_osd_op_size = 8;
  ceph_osd_op_buffer_carriage_offset = 24;
  ceph_osd_op_cls_class_offset = 4;
  ceph_osd_op_cls_method_offset = 5;
  latency_threshold_ns = 0;
  bootstamp_ns = 0;
}

abbrev pub hit_at : ℕ → Hit
hit_at t = record {
  regs = x86 (record {
    rax = 0;
    rdx = 0;
    rcx = 0;
    rbx = 0;
    rsi = 0;
    rdi = 4096;
    rbp = 0;
    rsp = 0;
    r8 = 0;
    r9 = 0;
    r10 = 0;
    r11 = 0;
    r12 = 0;
    r13 = 0;
    r14 = 0;
    r15 = 0;
  });
  parm2 = 0;
  parm3 = 5;
  parm4 = 0;
  pid_tgid = 4294967296 * 3 + 1;
  now = t;
  later = t + 1;
  read_user = λ addr n. take n (user_value ((addr - 4096) / 16) ∷ replicate 7 0);
  read_user_str = λ addr n. [];
  has_room = true;
}

abbrev pub key_7_9 : OpKey
key_7_9 = record { pid = 3; owner = 7; tid = 9 }
