-- ===== src/Queue/Valid.antt =====
-- The representation invariant of `fq_queue_t`, and what the queue's index arithmetic comes to
-- under it.
use native.Mathlib.Nat.{pow-suc, one-le-pow, add-mul-mod_self_left}
use fast_queue.Prelude.{
  ℕ, zero, suc, ◌+◌, ◌-◌, ◌*◌, ◌%◌, ◌^◌, ◌≤◌, ◌<◌, bit_and, ◌≡◌, sym, ap, ◌∙◌, Option, List, arith,
  add32, sub32, length, bit_and_mask, dec_lt,
}
use fast_queue.Queue.Pow2.{pow-lt}
use fast_queue.Queue.Ring.{Queue, masked}
use fast_queue.Queue.Window.{window}

pub record IsValid {T : Type 0} (q : Queue T) : Type 0 where
  pub bits : ℕ
  pub power : q.capacity ≡ 2 ^ bits
  pub at_least : 64 ≤ q.capacity
  pub at_most : q.capacity ≤ 2 ^ 24
  pub mask_eq : q.mask + 1 ≡ q.capacity
  pub storage : length q.buffer ≡ q.capacity
  pub head_in : q.head < q.capacity
  pub tail_in : q.tail < q.capacity
  pub open_ : q.closed ≡ 0

-- How many slots lie between the two indices.
abbrev pub count : {T : Type 0} → Queue T → ℕ
count q = (q.tail + (q.capacity - q.head)) % q.capacity

-- What the queue holds, oldest first.
abbrev pub contents : {T : Type 0} → Queue T → List (Option T)
contents q = window q.buffer q.capacity q.head (count q)

pow-add : (i j : ℕ) → 2 ^ (i + j) ≡ 2 ^ i * 2 ^ j
pow-add zero j = ap (λ (k : ℕ). 2 ^ k) {x = zero + j} {y = j} (omega arith) ∙ omega arith
pow-add (suc i) j =
    ap (λ (k : ℕ). 2 ^ k) {x = suc i + j} {y = suc (i + j)} (omega arith)
    ∙ omega (arith, pow-suc 2 (i + j), ap (λ (t : ℕ). t * 2 ^ j) (pow-suc 2 i), pow-add i j)

pred-mul : (c p : ℕ) → 1 ≤ p → c * (p - 1) + c ≡ c * p
pred-mul c zero h = absurd (omega arith)
pred-mul c (suc p) h = ap (λ (t : ℕ). c * t + c) {x = suc p - 1} {y = p} (omega arith) ∙ omega arith

-- The difference that wraps at 2^32 and the one that wraps at a smaller power of two agree below it.
sub32-mod :
    (c a b k : ℕ) → c ≡ 2 ^ k → c ≤ 2 ^ 24 → a < c → b < c → sub32 a b % c ≡ (a + (c - b)) % c
sub32-mod c a b k e small ha hb = elim (dec_lt a b) [
  | no above ↦
      ap (λ (t : ℕ). t % c) {x = sub32 a b} {y = a - b} (omega arith)
      ∙ sym (add-mul-mod_self_left (a - b) c 1)
      ∙ ap (λ (t : ℕ). t % c) {x = a - b + c * 1} {y = a + (c - b)} (omega arith)
  | yes under ↦
      ap (λ (t : ℕ). t % c) {x = sub32 a b} {y = c - (b - a) + c * (2 ^ (32 - k) - 1)}
        (omega (arith, factor, pred-mul c (2 ^ (32 - k)) (one-le-pow (32 - k) 2 (omega arith))))
      ∙ add-mul-mod_self_left (c - (b - a)) c (2 ^ (32 - k) - 1)
      ∙ ap (λ (t : ℕ). t % c) {x = c - (b - a)} {y = a + (c - b)} (omega arith)
]
  where
    factor : 2 ^ 32 ≡ c * 2 ^ (32 - k)
    factor =
        ap (λ (n : ℕ). 2 ^ n) {x = 32} {y = k + (32 - k)} (omega (arith, pow-lt k 25 (omega arith)))
        ∙ pow-add k (32 - k)
        ∙ ap (λ (t : ℕ). t * 2 ^ (32 - k)) (sym e)

module _ {T : Type 0} {q : Queue T} (v : IsValid q) where
  -- The mask is the remainder by the capacity.
  pub masked-mod : (x : ℕ) → masked q x ≡ x % q.capacity
  masked-mod x =
      ap (bit_and x) eq
      ∙ bit_and_mask v.bits x
      ∙ ap (λ (c : ℕ). x % c) {x = 2 ^ v.bits} {y = q.capacity} (omega (arith, v.power))
    where
      eq : q.mask % 2 ^ 32 ≡ 2 ^ v.bits - 1
      eq = omega (arith, v.power, v.mask_eq, v.at_most)

  -- `(index + 1) & mask` goes to the next slot, and round at the capacity.
  pub next_slot : (x : ℕ) → x < q.capacity → masked q (add32 x 1) ≡ (x + 1) % q.capacity
  next_slot x lt =
      masked-mod (add32 x 1)
      ∙ ap (λ (y : ℕ). y % q.capacity) {x = add32 x 1} {y = x + 1} (omega (arith, v.at_most))

  pub count-lt : count q < q.capacity
  count-lt = omega (arith, v.at_least)

  -- `(tail - head) & mask` counts the slots in use.
  pub size_count : masked q (sub32 q.tail q.head) ≡ count q
  size_count =
      masked-mod (sub32 q.tail q.head)
      ∙ sub32-mod q.capacity q.tail q.head v.bits v.power v.at_most v.tail_in v.head_in
