-- ===== src/Bpf/Fetch.antt =====
-- src/bpf_utils.h and the `read_hprobe_*` helpers of src/osdtrace.bpf.c: from a register to the
-- bytes of a variable, by the offsets and pointers that the DWARF data gives.
pub mod Chain
use cephtrace.Base.{
  ℕ, zero, suc, ◌+◌, ◌*◌, ◌%◌, Bool, List, [], ◌∷◌, Option, none, some, leb, ltb, ◌==◌,
  if◌then◌else◌, get_or, add64, sign_extend, little_endian, u64_mod,
}
use cephtrace.Bpf.Types.{VarField, Field}
use cephtrace.Bpf.Tracer.{PtRegs, UserPtRegs, Regs, x86, arm64, Hit, Config}

fetch_x86 : PtRegs → ℕ → ℕ
fetch_x86 c reg =
    if reg == 0
    then c.rax
    else if reg == 1
    then c.rdx
    else if reg == 2
    then c.rcx
    else if reg == 3
    then c.rbx
    else if reg == 4
    then c.rsi
    else if reg == 5
    then c.rdi
    else if reg == 6
    then c.rbp
    else if reg == 7
    then c.rsp
    else if reg == 8
    then c.r8
    else if reg == 9
    then c.r9
    else if reg == 10
    then c.r10
    else if reg == 11
    then c.r11
    else if reg == 12
    then c.r12
    else if reg == 13
    then c.r13
    else if reg == 14
    then c.r14
    else if reg == 15
    then c.r15
    else 0

-- A negative `reg` is a pattern above 31.
fetch_arm64 : UserPtRegs → ℕ → ℕ
fetch_arm64 c reg = if leb reg 30 then c.regs reg else if reg == 31 then c.sp else 0

unfoldable pub fetch_register : Regs → ℕ → ℕ
unfolding fetch_x86 fetch_arm64
fetch_register (x86 c) reg = fetch_x86 c reg
fetch_register (arm64 c) reg = fetch_arm64 c reg

abbrev pub zero_field : Field
zero_field = record { offset = 0; pointer = Bool.false }

-- `vf->fields[i]`.
abbrev pub field_at : VarField → ℕ → Field
field_at vf i = get_or vf.fields i zero_field

-- `bpf_probe_read_user(&tmpaddr, sizeof(tmpaddr), addr)`.
abbrev pub read_addr : Hit → ℕ → ℕ
read_addr c addr = little_endian (c.read_user addr 8)

-- One of the blocks for the fields 2 to 9.
unfoldable pub follow : Hit → Field → ℕ → ℕ
follow c f addr =
    if f.pointer
    then add64 (read_addr c addr) (sign_extend f.offset)
    else add64 addr (sign_extend f.offset)

-- The special handling of the first member.
unfoldable pub first_member : Hit → VarField → ℕ → ℕ
first_member c vf addr =
    let onstack = add64 addr (sign_extend vf.varloc.offset) in
    let base =
      if vf.varloc.stack
      then if (field_at vf 1).pointer then read_addr c onstack else onstack
      else addr in
    add64 base (sign_extend (field_at vf 1).offset)

-- `fetch_var_member_addr`, on a `vf` that is not NULL; the blocks stand one after the other, as in
-- the source, each behind its test of `vf->size`.
unfoldable pub fetch_var_member_addr : Hit → ℕ → VarField → ℕ
unfolding follow first_member
fetch_var_member_addr c cur vf =
    let a1 = first_member c vf cur in
    let a2 = follow c (field_at vf 2) a1 in
    let a3 = follow c (field_at vf 3) a2 in
    let a4 = follow c (field_at vf 4) a3 in
    let a5 = follow c (field_at vf 5) a4 in
    let a6 = follow c (field_at vf 6) a5 in
    let a7 = follow c (field_at vf 7) a6 in
    let a8 = follow c (field_at vf 8) a7 in
    let a9 = follow c (field_at vf 9) a8 in
    if cur == 0
    then 0
    else if leb vf.size 2
    then a1
    else if leb vf.size 3
    then a2
    else if leb vf.size 4
    then a3
    else if leb vf.size 5
    then a4
    else if leb vf.size 6
    then a5
    else if leb vf.size 7
    then a6
    else if leb vf.size 8
    then a7
    else if leb vf.size 9
    then a8
    else a9

-- `fetch_var_member_addr(fetch_register(ctx, vf->varloc.reg), vf)`.
abbrev pub var_addr : Hit → VarField → ℕ
var_addr c vf = fetch_var_member_addr c (fetch_register c.regs vf.varloc.reg) vf

-- `none` is the return value -1: userspace has stored no variable under this id.
unfoldable pub read_hprobe_varfield : Config → Hit → ℕ → ℕ → Option ℕ
read_hprobe_varfield g c varid size = elim (g.hprobes varid) [
  | none ↦ none
  | some vf ↦ some (little_endian (c.read_user (var_addr c vf) size))
]

-- `to_nsec` of a `utime_t`.
unfoldable pub to_nsec : ℕ → ℕ → ℕ
to_nsec sec nsec = (sec * 1000000000 + nsec) % u64_mod

unfoldable pub read_hprobe_utime : Config → Hit → ℕ → Option ℕ
unfolding to_nsec
read_hprobe_utime g c varid = elim (g.hprobes varid) [
  | none ↦ none
  | some vf ↦
      let addr = var_addr c vf in
      some (
        to_nsec (little_endian (c.read_user addr 4)) (little_endian (c.read_user (add64 addr 4) 4)))
]
