-- ===== src/Prelude/Bits.antt =====
-- `|` and `&` at every width, by the recursion on binary digits that the native operations mean.
use Prim.Native.Nat.{
  ℕ, zero, suc, ◌+◌, ◌-◌, ◌*◌, ◌/◌, ◌%◌, ◌^◌, ◌≤◌, ◌<◌, min, max, bit_and, bit_or, digits, bitwise,
  bit_and-bitwise, bit_or-bitwise,
}
use mathlib.Core.Path.{◌≡◌, refl, ap}
use mathlib.Core.WellFounded
use native.Mathlib.Nat.{le_refl, pow-suc, one-le-pow, div-add-mod, div-div-eq-div-mul}
use native.Mathlib.Omega.{arith}
use fast_queue.Prelude.Order.{lt_wf}
use native.Mathlib.Decide.{dec_lt}

-- The fuel that `bitwise` gives to `digits`, its first number, is enough: more changes nothing.
module _ (alone : ℕ → ℕ) (both : ℕ → ℕ → ℕ) where
  digits-zero : (fuel y : ℕ) → digits alone both fuel 0 y ≡ alone y
  digits-zero zero y = refl
  digits-zero (suc fuel) y = refl

  abbrev Enough : ℕ → Type 0
  Enough x = (fuel y : ℕ) → x ≤ fuel → digits alone both fuel x y ≡ bitwise alone both x y

  spare-Enough : (x : ℕ) → Enough x
  spare-Enough x = WellFounded.induction lt_wf {C = Enough} x step
    where
      step : (n : ℕ) → ((k : ℕ) → k < n → Enough k) → Enough n
      step zero ih fuel y le = digits-zero fuel y
      step (suc n) ih zero y le = absurd (omega arith)
      step (suc n) ih (suc fuel) y le =
          rw
            (
              ih (suc n / 2) (omega arith) fuel (y / 2) (omega arith),
              ih (suc n / 2) (omega arith) n (y / 2) (omega arith),
            )
            refl

  low_digit :
      (x y : ℕ)
      → 0 < x
      → both (x % 2) (y % 2) + 2 * bitwise alone both (x / 2) (y / 2) ≡ bitwise alone both x y
  low_digit zero y pos = absurd (omega arith)
  low_digit (suc x) y pos = omega (arith, spare-Enough (suc x / 2) x (y / 2) (omega arith))

-- `&` by its lowest digit.
pub bit_and_step : (x y : ℕ) → bit_and x y ≡ min (x % 2) (y % 2) + 2 * bit_and (x / 2) (y / 2)
bit_and_step x y = elim (dec_lt 0 x) [
  | yes pos ↦ simp bit_and-bitwise (omega (arith, low_digit (λ t. 0) min x y pos))
  | no none_left ↦ let e : x ≡ 0 = omega arith in rw e (simp bit_and-bitwise (omega arith))
]

no_mask : (bound x : ℕ) → x ≤ bound → bit_and x 0 ≡ 0
no_mask zero x le = let e : x ≡ 0 = omega arith in rw e refl
no_mask (suc bound) x le = omega (arith, bit_and_step x 0, no_mask bound (x / 2) (omega arith))

-- `|` by its lowest digit.
pub bit_or_step : (x y : ℕ) → bit_or x y ≡ max (x % 2) (y % 2) + 2 * bit_or (x / 2) (y / 2)
bit_or_step x y = elim (dec_lt 0 x) [
  | yes pos ↦ simp bit_or-bitwise (omega (arith, low_digit (λ t. t) max x y pos))
  | no none_left ↦ let e : x ≡ 0 = omega arith in rw e (simp bit_or-bitwise (omega arith))
]

-- The remainder by `2 * p`, lowest digit first.
mod-double : (x p : ℕ) → x % (2 * p) ≡ x % 2 + 2 * (x / 2 % p)
mod-double x p = omega (
  arith,
  div-add-mod x (2 * p),
  div-add-mod (x / 2) p,
  ap (λ (t : ℕ). p * t) (div-div-eq-div-mul x 2 p),
)

-- The low bits are the remainder by a power of two.
pub bit_and_mask : (k a : ℕ) → bit_and a (2 ^ k - 1) ≡ a % 2 ^ k
bit_and_mask zero a = omega (arith, no_mask a a (le_refl a))
bit_and_mask (suc k) a = omega (
  arith,
  pow-suc 2 k,
  one-le-pow k 2,
  bit_and_step a (2 ^ suc k - 1),
  ap (bit_and (a / 2)) half,
  bit_and_mask k (a / 2),
  mod-double a (2 ^ k),
  ap (λ (t : ℕ). a % t) doubled,
)
  where
    doubled : 2 ^ suc k ≡ 2 * 2 ^ k
    doubled = omega (arith, pow-suc 2 k)

    half : (2 ^ suc k - 1) / 2 ≡ 2 ^ k - 1
    half = omega (arith, pow-suc 2 k, one-le-pow k 2)
