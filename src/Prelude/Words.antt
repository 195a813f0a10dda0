-- ===== src/Prelude/Words.antt =====
-- Machine words as native numbers: an `int`, `unsigned` or `size_t` is its bit pattern, and every
-- operation wraps at the width.
use Prim.Native.Nat.{ℕ, ◌+◌, ◌-◌, ◌%◌, ◌^◌}
use mathlib.Core.Bool.{Bool}
use fast_queue.Prelude.Tests.{ltb}

-- `unsigned` and the bit pattern of an `int`
abbrev pub u32 : ℕ → ℕ
u32 n = n % 2 ^ 32

-- `size_t` and `uint64_t`
abbrev pub u64 : ℕ → ℕ
u64 n = n % 2 ^ 64

abbrev pub size_max : ℕ
size_max = 2 ^ 64 - 1

abbrev pub add32 : ℕ → ℕ → ℕ
add32 a b = (a + b) % 2 ^ 32

-- `-` on ℕ stops at 0, so the modulus is added first.
abbrev pub sub32 : ℕ → ℕ → ℕ
sub32 a b = (a + (2 ^ 32 - b)) % 2 ^ 32

abbrev pub add64 : ℕ → ℕ → ℕ
add64 a b = (a + b) % 2 ^ 64

abbrev pub sub64 : ℕ → ℕ → ℕ
sub64 a b = (a + (2 ^ 64 - b)) % 2 ^ 64

-- `a <= b` on two patterns of `int`: flipping the sign bit makes the order unsigned.
abbrev pub leb_int : ℕ → ℕ → Bool
leb_int a b = ltb (add32 a (2 ^ 31)) (add32 b (2 ^ 31) + 1)
