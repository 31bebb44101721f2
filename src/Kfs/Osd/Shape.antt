-- ===== src/Kfs/Osd/Shape.antt =====
-- What the reads of `trace_send_request` leave in the entry of a new request.
use cephtrace.Base.{
  ℕ, zero, suc, ◌+◌, ◌≤◌, ◌≡◌, refl, arith, false, List, [], ◌∷◌, length, set, ◌&&◌, get_or, ◌==◌,
  ltb, ◌<◌,
}
use cephtrace.Bpf.Rules.{require_rule, if_rule}
use cephtrace.Kfs.Types.{
  RequestKey, KernelTraceEvent, zero_event, kfs_zero_cls_op, KHit, Btf, ceph_pg_max_size,
  ceph_oid_inline_len, ceph_osd_max_ops, op_code, r_num_ops,
}
use cephtrace.Kfs.Osd.{
  read_acting, read_object_name, read_pg, read_direction, kfs_call, read_op, read_ops_loop,
  read_ops, new_request, fill_request,
}

-- The fields that identify a request and time it.
pub record IsRequest (t : ℕ) (key : RequestKey) (v : KernelTraceEvent) : Type 0 where
  pub same_client : v.client_id ≡ key.client_id
  pub same_tid : v.tid ≡ key.tid
  pub started : v.start_time ≤ t
  pub not_ended : v.end_time ≡ 0

-- Sizes and flags: the counts stay within their arrays, and a request is not both a read and a
-- write.
pub record IsBounded (v : KernelTraceEvent) : Type 0 where
  pub acting_bound : v.acting_size ≤ ceph_pg_max_size
  pub name_bound : v.object_name_len < ceph_oid_inline_len
  pub ops_bound : v.ops_size ≤ ceph_osd_max_ops
  pub ops_length : length v.ops ≡ ceph_osd_max_ops
  pub cls_ops_length : length v.cls_ops ≡ ceph_osd_max_ops
  pub one_direction : (v.is_read && v.is_write) ≡ false

-- Both, as a product.
abbrev Shape : ℕ → RequestKey → KernelTraceEvent → Type 0
Shape t key v =
    (v.client_id ≡ key.client_id)
    × (v.tid ≡ key.tid)
    × (v.start_time ≡ t)
    × (v.end_time ≡ 0)
    × (v.acting_size ≤ 8)
    × (v.object_name_len ≤ 23)
    × (v.ops_size ≤ 3)
    × (length v.ops ≡ 3)
    × (length v.cls_ops ≡ 3)
    × ((v.is_read && v.is_write) ≡ false)

length-set : {A : Type 0} (xs : List A) (i : ℕ) (a : A) → length (set xs i a) ≡ length xs
length-set [] i a = refl
length-set (x ∷ xs) zero a = refl
length-set (x ∷ xs) (suc i) a = ground (arith, length-set xs i a)

module _ (b : Btf) (c : KHit) (req t : ℕ) (key : RequestKey) where
  read_acting-Shape : (v : KernelTraceEvent) → Shape t key v → Shape t key (read_acting c req v)
  unfolding read_acting
  read_acting-Shape v h = ground arith

  read_object_name-Shape :
      (v : KernelTraceEvent) → Shape t key v → Shape t key (read_object_name c req v)
  unfolding read_object_name
  read_object_name-Shape v h = ground arith

  read_pg-Shape : (v : KernelTraceEvent) → Shape t key v → Shape t key (read_pg c req v)
  unfolding read_pg
  read_pg-Shape v h = ground arith

  read_direction-Shape :
      (v : KernelTraceEvent) → Shape t key v → Shape t key (read_direction b c req v)
  unfolding read_direction
  read_direction-Shape v h = ground arith

  read_op-Shape : (i : ℕ) (v : KernelTraceEvent) → Shape t key v → Shape t key (read_op b c req i v)
  unfolding read_op
  read_op-Shape i v h = require_rule (Shape t key) (c.core_read req (op_code i)) _ _ h λ op_type _.
      ground (
        arith,
        length-set v.ops i op_type,
        length-set v.cls_ops i (kfs_call c req i (get_or v.cls_ops i kfs_zero_cls_op)),
      )

  read_ops_loop-Shape :
      (rounds i : ℕ) (v : KernelTraceEvent)
      → Shape t key v
      → Shape t key (read_ops_loop b c req rounds i v)
  unfolding read_ops_loop
  read_ops_loop-Shape zero i v h = h
  read_ops_loop-Shape (suc rounds) i v h =
      if_rule (Shape t key) (ltb i v.ops_size) _ _
        (λ _. read_ops_loop-Shape rounds (i + 1) (read_op b c req i v) (read_op-Shape i v h))
        (λ _. h)

  read_ops-Shape : (v : KernelTraceEvent) → Shape t key v → Shape t key (read_ops b c req v)
  unfolding read_ops
  read_ops-Shape v h = require_rule (Shape t key) (c.core_read req r_num_ops) _ _ h λ num _.
      if_rule (Shape t key) (num == 0) _ _ (λ _. h) λ _. read_ops_loop-Shape 3 0 _ (ground arith)

module _ (b : Btf) (c : KHit) (req : ℕ) (key : RequestKey) (primary_osd : ℕ) where
  new_request-Shape : Shape c.now key (new_request c key primary_osd zero_event)
  unfolding new_request
  new_request-Shape = ground arith

  fill_request-Shape : Shape c.now key (fill_request b c req key primary_osd zero_event)
  unfolding fill_request
  fill_request-Shape = read_ops-Shape b c req c.now key _ (
      read_direction-Shape b c req c.now key _ (
        read_pg-Shape b c req c.now key _ (
          read_object_name-Shape b c req c.now key _
            (read_acting-Shape b c req c.now key _ new_request-Shape))))

  pub fill_request-IsRequest : IsRequest c.now key (fill_request b c req key primary_osd zero_event)
  fill_request-IsRequest =
      let h = fill_request-Shape in
      record { same_client = h.0; same_tid = h.1; started = omega (arith, h.2); not_ended = h.3 }

  pub fill_request-IsBounded : IsBounded (fill_request b c req key primary_osd zero_event)
  fill_request-IsBounded =
      let h = fill_request-Shape in
      record {
        acting_bound = h.4;
        name_bound = omega (arith, h.5);
        ops_bound = h.6;
        ops_length = h.7;
        cls_ops_length = h.8;
        one_direction = h.9;
      }
