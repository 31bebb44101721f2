-- ===== src/Bpf/Fetch/Chain.antt =====
-- The unrolled member chain of `fetch_var_member_addr` against a loop over the members.
use cephtrace.Base.{ℕ, zero, suc, ◌+◌, ◌-◌, ◌≡◌, arith, min, ◌==◌, if◌then◌else◌}
use cephtrace.Bpf.Types.{VarField}
use cephtrace.Bpf.Tracer.{Hit}
use cephtrace.Bpf.Fetch.{field_at, follow, first_member, fetch_var_member_addr}

-- Follow n members, the first of which is number i.
abbrev pub walk : Hit → VarField → ℕ → ℕ → ℕ → ℕ
walk c vf i zero addr = addr
walk c vf i (suc n) addr = walk c vf (i + 1) n (follow c (field_at vf i) addr)

-- From a null base address the result is 0. From any other it is the address that the first member
-- gives, followed through each further member in use, in order, up to member 9.
pub fetch-walk :
    (c : Hit) (vf : VarField) (cur : ℕ)
    → fetch_var_member_addr c cur vf
      ≡ (if cur == 0 then 0 else walk c vf 2 (min vf.size 10 - 2) (first_member c vf cur))
unfolding fetch_var_member_addr
fetch-walk c vf cur = ground arith
