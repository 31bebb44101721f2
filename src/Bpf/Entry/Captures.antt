-- ===== src/Bpf/Entry/Captures.antt =====
-- Sampling the ops and the name of a request leaves all that an entry is tracked by alone.
use cephtrace.Base.{
  ℕ, zero, suc, ◌+◌, ◌-◌, ◌/◌, ◌%◌, ◌||◌, not, arith, inl, inr, Bool-cases, leb, ◌==◌, u32_mod,
}
use cephtrace.Bpf.Types.{OpKey, OpValue, max_detail_ops}
use cephtrace.Bpf.Tracer.{Hit, Config}
use cephtrace.Bpf.Queue.{
  capture_one, capture_loop, capture_decoded_osd_ops, capture_ops, copy_object_name, capture_name,
}
use cephtrace.Bpf.Store.{txn_loop, txn_buffer, capture_txn, add_transaction}
use cephtrace.Bpf.Reply.{repop_name}
use cephtrace.Bpf.Fetch.{read_hprobe_varfield}
use cephtrace.Bpf.Rules.{require_rule, if_rule}
use cephtrace.Bpf.Entry.{IsTracked}

module _ (t : ℕ) (key : OpKey) (g : Config) (c : Hit) where
  capture_one-IsTracked :
      (start i : ℕ) (v : OpValue) → IsTracked t key v → IsTracked t key (capture_one g c start i v)
  unfolding capture_one
  capture_one-IsTracked start i v p = ground arith

  capture_loop-IsTracked :
      (rounds start i : ℕ) (v : OpValue)
      → IsTracked t key v
      → IsTracked t key (capture_loop g c start rounds i v)
  unfolding capture_loop
  capture_loop-IsTracked zero start i v p = p
  capture_loop-IsTracked (suc rounds) start i v p = elim (Bool-cases (leb v.detail_ops_total i)) [
    | inl e ↦ rw e p
    | inr e ↦
        rw e (capture_loop-IsTracked rounds start (i + 1) _ (capture_one-IsTracked start i v p))
  ]

  capture_decoded-IsTracked :
      (start finish : ℕ) (v : OpValue)
      → IsTracked t key v
      → IsTracked t key (capture_decoded_osd_ops g c v start finish)
  unfolding capture_decoded_osd_ops
  capture_decoded-IsTracked start finish v p = ground (
    arith,
    capture_loop-IsTracked max_detail_ops start 0
        (record v { detail_ops_total = (finish - start) / g.ceph_osd_op_size % u32_mod }),
  )

  pub capture_ops-IsTracked :
      (v : OpValue) → IsTracked t key v → IsTracked t key (capture_ops g c v)
  unfolding capture_ops
  capture_ops-IsTracked v p =
      if_rule (IsTracked t key) (g.ceph_osd_op_size == 0) _ _ (λ _. p)
        λ _. require_rule (IsTracked t key) (read_hprobe_varfield g c 24 8) _ _ p λ start _.
          if_rule (IsTracked t key) (start == 0) _ _ (λ _. p)
            λ _.
              require_rule (IsTracked t key) (read_hprobe_varfield g c 25 8) _ _ p
                λ finish _. capture_decoded-IsTracked start finish v p

  copy-IsTracked :
      (n addr : ℕ) (v : OpValue) → IsTracked t key v → IsTracked t key (copy_object_name c n addr v)
  unfolding copy_object_name
  copy-IsTracked n addr v p = ground arith

  pub capture_name-IsTracked :
      (v : OpValue) → IsTracked t key v → IsTracked t key (capture_name g c v)
  unfolding capture_name
  capture_name-IsTracked v p = ground arith

  pub repop_name-IsTracked : (v : OpValue) → IsTracked t key v → IsTracked t key (repop_name g c v)
  unfolding repop_name
  repop_name-IsTracked v p = ground arith

  txn_loop-IsTracked :
      (rounds buffer n i : ℕ) (v : OpValue)
      → IsTracked t key v
      → IsTracked t key (txn_loop c buffer n rounds i v)
  unfolding txn_loop
  txn_loop-IsTracked zero buffer n i v p = p
  txn_loop-IsTracked (suc rounds) buffer n i v p =
      elim (Bool-cases (leb n i || leb max_detail_ops v.detail_ops_captured)) [
        | inl e ↦ rw e p
        | inr e ↦ rw e (txn_loop-IsTracked rounds buffer n (i + 1) _ (ground arith))
      ]

  capture_txn-IsTracked :
      (n : ℕ) (v : OpValue) → IsTracked t key v → IsTracked t key (capture_txn g c n v)
  unfolding capture_txn
  capture_txn-IsTracked n v p =
      require_rule (IsTracked t key) (read_hprobe_varfield g c 201 8) _ _ p λ carriage _.
        require_rule (IsTracked t key) (txn_buffer c carriage) _ _ p
          λ buffer _. txn_loop-IsTracked max_detail_ops buffer n 0 v p

  counted-IsTracked :
      (captured total unavailable : ℕ) (v : OpValue)
      → IsTracked t key v
      → IsTracked t key (record v {
        detail_ops_captured = captured;
        detail_ops_total = total;
        detail_ops_unavailable = unavailable;
      })
  counted-IsTracked captured total unavailable v p = ground arith

  pub add_transaction-IsTracked :
      (v : OpValue) → IsTracked t key v → IsTracked t key (add_transaction g c v)
  unfolding add_transaction
  add_transaction-IsTracked v p =
      require_rule (IsTracked t key) (read_hprobe_varfield g c 200 8) _ _ p λ n _.
        if_rule (IsTracked t key) (n == 0) _ _ (λ _. p)
          λ _.
            let total = (v.detail_ops_total + n) % u32_mod in
            let q = counted-IsTracked v.detail_ops_captured total v.detail_ops_unavailable v p in
            require_rule (IsTracked t key) (read_hprobe_varfield g c 202 4) _ _ q λ m _.
              if_rule (IsTracked t key) (not (m == 1)) _ _ (λ _. counted-IsTracked 0 total 1 v p)
                λ _.
                  if_rule (IsTracked t key) (not (v.detail_ops_unavailable == 0)) _ _ (λ _. q)
                    λ _. capture_txn-IsTracked n _ q
