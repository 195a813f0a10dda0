-- ===== src/Queue/Slots.antt =====
-- Index arithmetic on a ring of `c` slots whose head is `h` and whose tail is `t`.
use native.Mathlib.Nat.{mod-eq_of_lt, mod-eq-sub-mod}
use fast_queue.Prelude.{ℕ, ◌+◌, ◌-◌, ◌%◌, ◌≤◌, ◌<◌, ◌≡◌, ◌≢◌, ◌⊎◌, inl, inr, arith, dec_lt}

-- Below twice the modulus a remainder takes at most one subtraction.
pub mod_once : (c x : ℕ) → x < c + c → ((x < c) × (x % c ≡ x)) ⊎ ((c ≤ x) × (x % c + c ≡ x))
mod_once c x h = elim (dec_lt x c) [
  | yes p ↦ inl (p, mod-eq_of_lt p)
  | no p ↦ inr (
    omega arith,
    omega (
      arith,
      mod-eq-sub-mod {n = x} {m = c} (omega arith),
      mod-eq_of_lt {n = x - c} {m = c} (omega arith),
    ),
  )
]

module _ (c h t : ℕ) (hh : h < c) (ht : t < c) where
  used_bounds :
      (((t + (c - h)) % c ≡ t + (c - h)) × (t < h)) ⊎ (((t + (c - h)) % c + h ≡ t) × (h ≤ t))
  used_bounds = elim (mod_once c (t + (c - h)) (omega arith)) [
    | inl (p, e) ↦ inl (e, omega arith)
    | inr (p, e) ↦ inr (omega arith, omega arith)
  ]

  -- The next write comes just behind the slots in use.
  pub tail_slot : (h + (t + (c - h)) % c) % c ≡ t
  tail_slot =
      omega (arith, used_bounds, mod_once c (h + (t + (c - h)) % c) (omega (arith, used_bounds)))

  pub full_count : (t + 1) % c ≡ h → (t + (c - h)) % c + 1 ≡ c
  full_count e = omega (arith, used_bounds, mod_once c (t + 1) (omega arith))

  pub room_count : (t + 1) % c ≢ h → ((t + 1) % c + (c - h)) % c ≡ (t + (c - h)) % c + 1
  room_count e = elim (mod_once c (t + 1) (omega arith)) [
    | inl (p, e1) ↦ omega (arith, used_bounds, mod_once c ((t + 1) % c + (c - h)) (omega arith))
    | inr (p, e1) ↦ omega (arith, used_bounds, mod_once c ((t + 1) % c + (c - h)) (omega arith))
  ]

  pub room_left : (t + 1) % c ≢ h → (t + (c - h)) % c + 1 < c
  room_left e = omega (arith, used_bounds, mod_once c (t + 1) (omega arith))

  pub empty_count : h ≡ t → (t + (c - h)) % c ≡ 0
  empty_count e = omega (arith, used_bounds)

  pub some_count : h ≢ t → 0 < (t + (c - h)) % c
  some_count e = omega (arith, used_bounds)

  pub pop_count : h ≢ t → (t + (c - (h + 1) % c)) % c + 1 ≡ (t + (c - h)) % c
  pop_count e = elim (mod_once c (h + 1) (omega arith)) [
    | inl (p, e1) ↦ omega (arith, used_bounds, mod_once c (t + (c - (h + 1) % c)) (omega arith))
    | inr (p, e1) ↦ omega (arith, used_bounds, mod_once c (t + (c - (h + 1) % c)) (omega arith))
  ]
