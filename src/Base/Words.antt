-- ===== src/Base/Words.antt =====
-- Unsigned machine words as native numbers. A signed 32-bit value is kept as its bit pattern.
use Prim.Native.Nat.{ℕ, ◌+◌, ◌-◌, ◌*◌, ◌%◌, ◌^◌}
use mathlib.Core.Bool.{Bool, ◌&&◌}
use mathlib.Core.List.{List, [], ◌∷◌}
use cephtrace.Base.Tests.{ltb, if◌then◌else◌}

abbrev pub u16_mod : ℕ
u16_mod = 2 ^ 16

abbrev pub u32_mod : ℕ
u32_mod = 2 ^ 32

abbrev pub u64_mod : ℕ
u64_mod = 2 ^ 64

-- `__u64` a + b and a - b.
abbrev pub add64 : ℕ → ℕ → ℕ
add64 a b = (a + b) % u64_mod

abbrev pub sub64 : ℕ → ℕ → ℕ
sub64 a b = (a + u64_mod - b) % u64_mod

-- The bit pattern of the `int` -1.
abbrev pub minus_one : ℕ
minus_one = u32_mod - 1

-- Whether an `int` is positive, and whether it is not negative.
abbrev pub is_positive : ℕ → Bool
is_positive w = ltb 0 w && ltb w (2 ^ 31)

abbrev pub is_natural : ℕ → Bool
is_natural w = ltb w (2 ^ 31)

-- An `int`, given by its pattern, converted to `__u64`.
abbrev pub sign_extend : ℕ → ℕ
sign_extend w = if ltb w (2 ^ 31) then w else w + (u64_mod - u32_mod)

-- The integer whose bytes stand in memory, lowest first.
unfoldable pub little_endian : List ℕ → ℕ
little_endian [] = 0
little_endian (b ∷ bs) = b + 256 * little_endian bs
