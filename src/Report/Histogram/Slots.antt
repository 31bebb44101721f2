-- ===== src/Report/Histogram/Slots.antt =====
-- Which slot of the histogram a size goes to, and which slots are printed.
use native.Mathlib.Nat.{pow-suc}
use cephtrace.Base.{
  ℕ, zero, suc, ◌+◌, ◌-◌, ◌/◌, ◌^◌, ◌≤◌, ◌<◌, ◌≡◌, ◌≢◌, arith, refl, ap, List, [], ◌∷◌, leb,
  if◌then◌else◌, min, take, set, length, length-append, sub64,
}
use cephtrace.Bpf.Types.{OpValue}
use cephtrace.Report.Histogram.{
  knum, lsb_loop, lsb, index, SizeRanges, push_at, sized, handle_single, printed, size_ranges_size,
}

lsb_loop-zero : (fuel r : ℕ) → lsb_loop fuel 0 r ≡ r
unfolding lsb_loop
lsb_loop-zero zero r = refl
lsb_loop-zero (suc fuel) r = refl

-- A number of b + 1 bits takes b + 1 rounds, if there is fuel for them.
lsb_loop_bits :
    (fuel x r b : ℕ) → 2 ^ b ≤ x → x < 2 ^ suc b → b < fuel → lsb_loop fuel x r ≡ r + suc b
unfolding lsb_loop
lsb_loop_bits zero x r b lo hi h = absurd (omega arith)
lsb_loop_bits (suc fuel) x r zero lo hi h = ground (arith, pow-suc 2 0, lsb_loop-zero fuel (r + 1))
lsb_loop_bits (suc fuel) x r (suc b) lo hi h =
    ground (arith, pow-suc 2 b, pow-suc 2 (suc b), lsb_loop_bits fuel (x / 2) (r + 1) b)

lsb_loop-ge : (fuel x r : ℕ) → r ≤ lsb_loop fuel x r
unfolding lsb_loop
lsb_loop-ge zero x r = omega arith
lsb_loop-ge (suc fuel) x r = ground (arith, lsb_loop-ge fuel (x / 2) (r + 1))

pow_pos : (n : ℕ) → 0 < 2 ^ n
pow_pos zero = omega arith
pow_pos (suc n) = ground (arith, pow-suc 2 n, pow_pos n)

lsb_loop_lower : (fuel x r b : ℕ) → 2 ^ b ≤ x → b < fuel → r + suc b ≤ lsb_loop fuel x r
unfolding lsb_loop
lsb_loop_lower zero x r b lo h = absurd (omega arith)
lsb_loop_lower (suc fuel) x r zero lo h = ground (arith, lsb_loop-ge fuel (x / 2) (r + 1))
lsb_loop_lower (suc fuel) x r (suc b) lo h =
    ground (arith, pow-suc 2 b, pow_pos b, lsb_loop_lower fuel (x / 2) (r + 1) b)

lsb_loop_upper : (fuel x r b : ℕ) → x < 2 ^ b → lsb_loop fuel x r ≤ r + b
unfolding lsb_loop
lsb_loop_upper zero x r b h = omega arith
lsb_loop_upper (suc fuel) x r zero h = ground arith
lsb_loop_upper (suc fuel) x r (suc b) h =
    ground (arith, pow-suc 2 b, lsb_loop_upper fuel (x / 2) (r + 1) b)

-- A size of at least 2^b KiB and less than 2^(b+1) KiB goes to slot b - 1, but to slot 0 if it is
-- below 4 KiB, and to slot 10 if it is 2 MiB or more.
pub index-bits :
    (k b : ℕ)
    → 2 ^ b ≤ k
    → k < 2 ^ suc b
    → b < 31
    → k < 2 ^ 31
    → index k ≡ (if leb b 1 then 0 else min 10 (b - 1))
unfolding index lsb
index-bits k b lo hi h l = ground (arith, lsb_loop_bits 32 k 0 b)

take-set : {A : Type 0} (n i : ℕ) (xs : List A) (v : A) → n ≤ i → take n (set xs i v) ≡ take n xs
take-set zero i xs v h = refl
take-set (suc n) i [] v h = refl
take-set (suc n) zero (x ∷ xs) v h = absurd (omega arith)
take-set (suc n) (suc i) (x ∷ xs) v h = ap (◌∷◌ x) (take-set n i xs v (omega arith))

index_large : (k : ℕ) → 2048 ≤ k → k < 2 ^ 31 → index k ≡ 10
unfolding index lsb
index_large k h l = ground (arith, lsb_loop_lower 32 k 0 11)

index_small : (k : ℕ) → k < 2048 → index k < 10
unfolding index lsb
index_small k h = ground (arith, lsb_loop_upper 32 k 0 11)

-- The number of the samples of some vectors.
unfoldable pub total : List (List ℕ) → ℕ
total [] = 0
total (v ∷ vs) = length v + total vs

total-push_at :
    (n i : ℕ) (xs : List (List ℕ)) (lat : ℕ)
    → i < n
    → i < length xs
    → total (take n (push_at xs i lat)) ≡ total (take n xs) + 1
unfolding total
total-push_at zero i xs lat h l = absurd (omega arith)
total-push_at (suc n) i [] lat h l = absurd (omega arith)
total-push_at (suc n) zero (x ∷ xs) lat h l = omega (arith, length-append x (lat ∷ []))
total-push_at (suc n) (suc i) (x ∷ xs) lat h l = ground (arith, total-push_at n i xs lat)

-- A write of at least 2 MiB and less than 2^41 bytes, with a receive stamp, changes nothing of what
-- is printed.
pub handle_single_unprinted :
    (bootstamp : ℕ) (val : OpValue) (r : SizeRanges)
    → val.recv_stamp ≢ 0
    → 2 ^ 21 ≤ val.wb
    → val.wb < 2 ^ 41
    → printed ((handle_single bootstamp val r).wvecs) ≡ printed (sized r.wvecs)
unfolding handle_single knum
handle_single_unprinted bootstamp val r h lo hi =
    ground (arith, index_large (knum val.wb), take-set 10 10 (sized r.wvecs))

-- A write of at least one byte and less than 2 MiB, with a receive stamp, adds one sample to what is
-- printed, if the write vectors have at least ten slots.
pub handle_single_counted :
    (bootstamp : ℕ) (val : OpValue) (r : SizeRanges)
    → val.recv_stamp ≢ 0
    → 0 < val.wb
    → val.wb < 2 ^ 21
    → 10 ≤ length (sized r.wvecs)
    → total (printed ((handle_single bootstamp val r).wvecs)) ≡ total (printed (sized r.wvecs)) + 1
unfolding handle_single knum
handle_single_counted bootstamp val r h lo hi l =
    let lat = sub64 val.reply_stamp (sub64 val.recv_stamp bootstamp) in
    let idx = index (knum val.wb) in
    ground
      (arith, index_small (knum val.wb), total-push_at size_ranges_size idx (sized r.wvecs) lat)
