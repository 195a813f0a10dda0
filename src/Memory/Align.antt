-- ===== src/Memory/Align.antt =====
-- `fq_align_up` and `fq_is_aligned` of memory.c.
use fast_queue.Prelude.{
  ℕ, ◌-◌, ◌%◌, ◌^◌, ◌<◌, ◌≤◌, bit_and, ◌≡◌, refl, Bool, true, false, ◌==◌, not, if◌then◌else◌, ◌||◌,
  add64, sub64, size_max, bit_and_mask, arith,
}
use native.Mathlib.Nat.{one-le-pow, pow-le-pow_right}

-- `fq_align_up`; `~x` of a `size_t` is SIZE_MAX less `x`.
unfoldable pub align_up : ℕ → ℕ → ℕ
align_up size alignment =
    if alignment == 0 || not (bit_and alignment (sub64 alignment 1) == 0)
    then size
    else bit_and (sub64 (add64 size alignment) 1) (size_max - sub64 alignment 1)

-- `fq_is_aligned`
unfoldable pub is_aligned : ℕ → ℕ → Bool
is_aligned p alignment = if alignment == 0 then true else bit_and p (sub64 alignment 1) == 0

-- For an alignment that is a power of two of 64 bits, `fq_is_aligned` tells whether it divides the
-- address.
pub is_aligned-mod : (p k : ℕ) → k < 64 → is_aligned p (2 ^ k) ≡ (p % 2 ^ k == 0)
unfolding is_aligned
is_aligned-mod p k h =
    rw (positive (2 ^ k) (one-le-pow k 2 (omega arith)), less, bit_and_mask k p) refl
  where
    positive : (n : ℕ) → 1 ≤ n → (n == 0) ≡ false
    positive n le = ground arith

    less : sub64 (2 ^ k) 1 ≡ 2 ^ k - 1
    less = omega (
      arith,
      one-le-pow k 2,
      pow-le-pow_right {n = 2} (omega arith) {i = k} {j = 63} (omega arith),
    )
