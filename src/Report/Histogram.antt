-- ===== src/Report/Histogram.antt =====
-- src/osdtrace.cc: the latency histograms of `-s`, `knum`, `lsb`, `index`, `handle_single` and the
-- table that `print_srl` prints.
pub mod Slots
use cephtrace.Base.{
  ℕ, zero, suc, ◌+◌, ◌-◌, ◌*◌, ◌/◌, ◌%◌, ◌^◌, ◌≤◌, ◌<◌, ◌≡◌, ◌≢◌, arith, refl, List, [], ◌∷◌, ◌++◌,
  Option, none, some, ltb, leb, ◌==◌, if◌then◌else◌, min, take, set, get_or, replicate, length,
  sub64, u32_mod,
}
use cephtrace.Bpf.Types.{OpValue}

-- A `__u64` in an `int`; a pattern of 2^31 or more is negative.
unfoldable pub knum : ℕ → ℕ
knum x = x / 1024 % u32_mod

-- `while (x > 0) { r++; x = x >> 1; }`, with fuel. A negative x ends the loop at once.
unfoldable pub lsb_loop : ℕ → ℕ → ℕ → ℕ
lsb_loop zero x r = r
lsb_loop (suc fuel) x r = let rest = lsb_loop fuel (x / 2) (r + 1) in if x == 0 then r else rest

unfoldable pub lsb : ℕ → ℕ
lsb x = if ltb x (2 ^ 31) then lsb_loop 32 x 0 else 0

unfoldable pub index : ℕ → ℕ
unfolding lsb
index k = let b = lsb k in if leb b 2 then 0 else min 10 (b - 2)

-- The write and the read vectors of one OSD.
pub record SizeRanges : Type 0 where
  pub wvecs : List (List ℕ)
  pub rvecs : List (List ℕ)

abbrev pub push_at : List (List ℕ) → ℕ → ℕ → List (List ℕ)
push_at vecs idx lat = set vecs idx (get_or vecs idx [] ++ lat ∷ [])

-- `resize(11)` of an empty vector of vectors.
abbrev pub sized : List (List ℕ) → List (List ℕ)
sized [] = replicate 11 []
sized (v ∷ vs) = v ∷ vs

-- `handle_single`; the first argument is `bootstamp`.
unfoldable pub handle_single : ℕ → OpValue → SizeRanges → SizeRanges
handle_single bootstamp val r0 =
    let r : SizeRanges = record { wvecs = sized r0.wvecs; rvecs = sized r0.rvecs } in
    let op_lat = sub64 val.reply_stamp (sub64 val.recv_stamp bootstamp) in
    if val.recv_stamp == 0
    then r
    else if ltb 0 val.wb
    then record r { wvecs = push_at r.wvecs (index (knum val.wb)) op_lat }
    else if ltb 0 val.rb
    then record r { rvecs = push_at r.rvecs (index (knum val.rb)) op_lat }
    else r

-- `size_ranges.size()`, and the vectors that `print_srl` shows: it stops at that index.
abbrev pub size_ranges_size : ℕ
size_ranges_size = 10

abbrev pub printed : List (List ℕ) → List (List ℕ)
printed = take size_ranges_size
