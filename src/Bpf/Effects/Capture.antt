-- ===== src/Bpf/Effects/Capture.antt =====
-- How many ops a sampling of `ctx->ops` records.
use cephtrace.Base.{ℕ, zero, suc, ◌+◌, ◌-◌, ◌*◌, ◌/◌, ◌%◌, ◌≤◌, ◌<◌, ◌≡◌, arith, min, u32_mod}
use cephtrace.Bpf.Types.{OpValue, max_detail_ops}
use cephtrace.Bpf.Tracer.{Hit, Config}
use cephtrace.Bpf.Queue.{capture_one, capture_loop, capture_decoded_osd_ops}

module _ (g : Config) (c : Hit) (start : ℕ) where
  capture_one-captured :
      (i : ℕ) (v : OpValue)
      → v.detail_ops_captured + 1 < u32_mod
      → ((capture_one g c start i v).detail_ops_captured ≡ v.detail_ops_captured + 1)
        × ((capture_one g c start i v).detail_ops_total ≡ v.detail_ops_total)
  unfolding capture_one
  capture_one-captured i v h = ground arith

  capture_loop-captured :
      (rounds i : ℕ) (v : OpValue)
      → v.detail_ops_captured + rounds < u32_mod
      → ((capture_loop g c start rounds i v).detail_ops_captured
          ≡ v.detail_ops_captured + min rounds (v.detail_ops_total - i))
        × ((capture_loop g c start rounds i v).detail_ops_total ≡ v.detail_ops_total)
  unfolding capture_loop
  capture_loop-captured zero i v h = ground arith
  capture_loop-captured (suc rounds) i v h = ground (
    arith,
    capture_one-captured i v,
    capture_loop-captured rounds (i + 1) (capture_one g c start i v),
  )

-- The number of ops in the vector, as a `__u32`.
abbrev pub op_count : Config → ℕ → ℕ → ℕ
op_count g start finish = (finish - start) / g.ceph_osd_op_size % u32_mod

-- A sampling of a vector, when the size of an op is known, the start is not null and the end is not
-- before it, adds the number of its ops, at most eight, to the count of captured ops, and sets the
-- total to that number, if the count does not come near 2^32. The count is not reset before.
pub capture-captured :
    (g : Config) (c : Hit) (v : OpValue) (start finish : ℕ)
    → 0 < g.ceph_osd_op_size
    → 0 < start
    → start ≤ finish
    → v.detail_ops_captured + max_detail_ops < u32_mod
    → ((capture_decoded_osd_ops g c v start finish).detail_ops_captured
        ≡ v.detail_ops_captured + min max_detail_ops (op_count g start finish))
      × ((capture_decoded_osd_ops g c v start finish).detail_ops_total ≡ op_count g start finish)
unfolding capture_decoded_osd_ops
capture-captured g c v start finish h1 h2 h3 h4 = ground (
  arith,
  capture_loop-captured g c start max_detail_ops 0
      (record v { detail_ops_total = op_count g start finish }),
)

-- Two samplings of one vector of one to eight ops, whose start is not null and whose end is not
-- before it, with the size of an op known, into an entry with no captured op before, leave a count
-- of captured ops that is twice the total, and so greater than it.
pub capture_twice :
    (g : Config) (c d : Hit) (v : OpValue) (start finish : ℕ)
    → 0 < g.ceph_osd_op_size
    → 0 < start
    → start ≤ finish
    → v.detail_ops_captured ≡ 0
    → 0 < op_count g start finish
    → op_count g start finish ≤ max_detail_ops
    → let w =
        capture_decoded_osd_ops g d (capture_decoded_osd_ops g c v start finish) start finish in
      (w.detail_ops_captured ≡ 2 * w.detail_ops_total)
      × (w.detail_ops_total < w.detail_ops_captured)
capture_twice g c d v start finish h1 h2 h3 h4 h5 h6 = omega (
  arith,
  capture-captured g c v start finish h1 h2 h3 (omega arith),
  capture-captured g d (capture_decoded_osd_ops g c v start finish) start finish h1 h2 h3
      (omega (arith, capture-captured g c v start finish h1 h2 h3 (omega arith))),
)
