-- ===== src/Queue/Pow2.antt =====
-- `next_pow2` of queue.c, on a 64-bit `size_t`.
use mathlib.Core.WellFounded
use native.Mathlib.Nat.{pow-suc, div-div-eq-div-mul, pow-le-pow_right, div-le_self}
use fast_queue.Prelude.{
  ℕ, zero, suc, ◌+◌, ◌-◌, ◌*◌, ◌/◌, ◌%◌, ◌^◌, ◌≤◌, ◌<◌, max, bit_or, ◌≡◌, refl, sym, ap, ◌∙◌, arith,
  ◌==◌, if◌then◌else◌, u64, bit_or_step, lt_wf, dec_lt,
}

-- `v |= v >> s`
abbrev pub smear : ℕ → ℕ → ℕ
smear s v = bit_or v (v / 2 ^ s)

unfoldable pub smear_all : ℕ → ℕ
smear_all v = smear 32 (smear 16 (smear 8 (smear 4 (smear 2 (smear 1 v)))))

unfoldable pub next_pow2 : ℕ → ℕ
next_pow2 v = if v == 0 then 1 else u64 (smear_all (v - 1) + 1)

-- `v >> n`, a bit at a time
shr : ℕ → ℕ → ℕ
shr zero v = v
shr (suc n) v = shr n (v / 2)

shr-zero : (n : ℕ) → shr n 0 ≡ 0
unfolding shr
shr-zero zero = refl
shr-zero (suc n) = shr-zero n

shr-or : (n a b : ℕ) → shr n (bit_or a b) ≡ bit_or (shr n a) (shr n b)
unfolding shr
shr-or zero a b = refl
shr-or (suc n) a b = ap (shr n) (half a b) ∙ shr-or n (a / 2) (b / 2)
  where
    half : (x y : ℕ) → bit_or x y / 2 ≡ bit_or (x / 2) (y / 2)
    half x y = omega (arith, bit_or_step x y)

shr-shr : (m n v : ℕ) → shr m (shr n v) ≡ shr (m + n) v
unfolding shr
shr-shr m zero v = ap (λ k. shr k v) {x = m} {y = m + 0} (omega arith)
shr-shr m (suc n) v = shr-shr m n (v / 2) ∙ ap (λ k. shr k v) eq
  where
    eq : suc (m + n) ≡ m + suc n
    eq = omega arith

shr-div : (n v : ℕ) → shr n v ≡ v / 2 ^ n
unfolding shr
shr-div zero v = omega arith
shr-div (suc n) v =
    shr-div n (v / 2) ∙ div-div-eq-div-mul v 2 (2 ^ n) ∙ ap (λ (t : ℕ). v / t) (sym (pow-suc' n))
  where
    pow-suc' : (k : ℕ) → 2 ^ suc k ≡ 2 * 2 ^ k
    pow-suc' k = omega (arith, pow-suc 2 k)

mod-bit_or : (a b : ℕ) → bit_or a b % 2 ≡ max (a % 2) (b % 2)
mod-bit_or a b = omega (arith, bit_or_step a b)

bit_or-lt : (k a b : ℕ) → a < 2 ^ k → b < 2 ^ k → bit_or a b < 2 ^ k
bit_or-lt zero a b p q = ground (arith, bit_or_zero a b (omega arith) (omega arith))
  where
    bit_or_zero : (x y : ℕ) → x ≡ 0 → y ≡ 0 → bit_or x y ≡ 0
    bit_or_zero x y e f = rw (e, f)
bit_or-lt (suc k) a b p q = omega (
  arith,
  pow-suc 2 k,
  bit_or_step a b,
  bit_or-lt k (a / 2) (b / 2) (omega (arith, pow-suc 2 k)) (omega (arith, pow-suc 2 k)),
)

-- The `m` bits of `w` from bit `k` down are ones.
abbrev Ones : ℕ → ℕ → ℕ → Type 0
Ones m k w = (j i : ℕ) → j + i ≡ k → i < m → shr j w % 2 ≡ 1

shr-Ones : (m k w : ℕ) → Ones m k w → Ones (m + m) k (bit_or w (shr m w))
shr-Ones m k w h j i e lt = elim (dec_lt i m) [
  | yes near ↦ rw (split) (omega (arith, h j i e near))
  | no far ↦ rw (split) (omega (arith, h (j + m) (i - m) (omega arith) (omega arith)))
]
  where
    split : shr j (bit_or w (shr m w)) % 2 ≡ max (shr j w % 2) (shr (j + m) w % 2)
    split =
        ap (λ (t : ℕ). t % 2) (shr-or j w (shr m w))
        ∙ mod-bit_or (shr j w) (shr j (shr m w))
        ∙ ap (λ (t : ℕ). max (shr j w % 2) (t % 2)) (shr-shr j m w)

-- `w` is below `2 ^ (k + 1)`, and its `m` bits from bit `k` down are ones.
record Smeared (m k w : ℕ) : Type 0 where
  ones : Ones m k w
  fits : w < 2 ^ suc k

smear-Smeared : (m k w : ℕ) → Smeared m k w → Smeared (m + m) k (smear m w)
smear-Smeared m k w s = record {
  ones = rw (← shr-div m w) (shr-Ones m k w s.ones);
  fits = bit_or-lt (suc k) w (w / 2 ^ m) s.fits (omega (arith, div-le_self w (2 ^ m), s.fits));
}

top_bit : (k v : ℕ) → 2 ^ k ≤ v → v < 2 ^ suc k → shr k v ≡ 1
unfolding shr
top_bit zero v lo hi = omega arith
top_bit (suc k) v lo hi =
    top_bit k (v / 2) (omega (arith, pow-suc 2 k)) (omega (arith, pow-suc 2 k, pow-suc 2 (suc k)))

all_ones : (k w : ℕ) → ((j i : ℕ) → j + i ≡ k → shr j w % 2 ≡ 1) → w < 2 ^ suc k → w + 1 ≡ 2 ^ suc k
unfolding shr
all_ones zero w h lt = omega (arith, h 0 0 refl)
all_ones (suc k) w h lt = omega (
  arith,
  h 0 (suc k) (omega arith),
  pow-suc 2 (suc k),
  all_ones k (w / 2) (λ j i e. h (suc j) i (omega arith)) (omega (arith, pow-suc 2 (suc k))),
)

smear_all_lem : (k v : ℕ) → k < 64 → 2 ^ k ≤ v → v < 2 ^ suc k → smear_all v + 1 ≡ 2 ^ suc k
unfolding smear_all
smear_all_lem k v small lo hi =
    all_ones k (smear_all v) (λ j i e. filled.ones j i e (omega arith)) filled.fits
  where
    start : Smeared 1 k v
    start = record {
      ones = λ j i e lt. omega (arith, top_bit k v lo hi, ap (λ (t : ℕ). shr t v) (last j i e lt));
      fits = hi;
    }
      where
        last : (j i : ℕ) → j + i ≡ k → i < 1 → j ≡ k
        last j i e lt = omega arith

    filled : Smeared 64 k (smear_all v)
    filled = smear-Smeared 32 k _ (
        smear-Smeared 16 k _ (
          smear-Smeared 8 k _
            (smear-Smeared 4 k _ (smear-Smeared 2 k _ (smear-Smeared 1 k v start)))))

-- Every positive number lies between a power of two and the next.
pub log2_exists : (v : ℕ) → 0 < v → (k : ℕ) × (2 ^ k ≤ v) × (v < 2 ^ suc k)
log2_exists v =
    WellFounded.induction lt_wf {C = λ n. 0 < n → (k : ℕ) × (2 ^ k ≤ n) × (n < 2 ^ suc k)} v step
  where
    step :
        (n : ℕ)
        → ((m : ℕ) → m < n → 0 < m → (k : ℕ) × (2 ^ k ≤ m) × (m < 2 ^ suc k))
        → 0 < n
        → (k : ℕ) × (2 ^ k ≤ n) × (n < 2 ^ suc k)
    step n ih pos = elim (dec_lt n 2) [
      | yes one ↦ (0, omega arith, omega arith)
      | no more ↦
          let (k, lo, hi) = ih (n / 2) (omega arith) (omega arith) in
          (suc k, omega (arith, pow-suc 2 k), omega (arith, pow-suc 2 (suc k)))
    ]

pub pow-lt : (j k : ℕ) → 2 ^ j < 2 ^ k → j < k
pow-lt j k h = elim (dec_lt j k) [
  | yes p ↦ p
  | no p ↦
      absurd (omega (arith, pow-le-pow_right {n = 2} (omega arith) {i = k} {j = j} (omega arith)))
]

next_pow2_pos :
    (v k : ℕ) → 2 ≤ v → k < 64 → 2 ^ k ≤ v - 1 → v - 1 < 2 ^ suc k → next_pow2 v ≡ u64 (2 ^ suc k)
unfolding next_pow2
next_pow2_pos v k big small lo hi = ground (arith, smear_all_lem k (v - 1) small lo hi)

next_pow2-one : next_pow2 1 ≡ 1
unfolding next_pow2 smear_all
next_pow2-one = refl

-- For a capacity from 1 to 2^63, `next_pow2` gives the least power of two that is not below it.
pub next_pow2_least :
    (v : ℕ)
    → 0 < v
    → v ≤ 2 ^ 63
    → (k : ℕ) × (k ≤ 63) × (next_pow2 v ≡ 2 ^ k) × (v ≤ 2 ^ k) × (2 ^ k < 2 * v)
next_pow2_least v pos small = elim (dec_lt 1 v) [
  | no one ↦
      let e : v ≡ 1 = omega arith in rw e (0, omega arith, next_pow2-one, omega arith, omega arith)
  | yes more ↦
      let (k, lo, hi) = log2_exists (v - 1) (omega arith) in
      let below : k < 63 = pow-lt k 63 (omega arith) in
      let top : 2 ^ suc k ≤ 2 ^ 63 = pow-le-pow_right {n = 2} (omega arith) below in
      (
        suc k,
        below,
        omega (arith, next_pow2_pos v k more (omega arith) lo hi),
        omega arith,
        omega (arith, pow-suc 2 k),
      )
]

-- Above 2^63 the sum `v + 1` at its end wraps, and `next_pow2` gives 0.
pub next_pow2_wraps : (v : ℕ) → 2 ^ 63 < v → v < 2 ^ 64 → next_pow2 v ≡ 0
next_pow2_wraps v big small =
    next_pow2_pos v 63 (omega arith) (omega arith) (omega arith) (omega arith)
