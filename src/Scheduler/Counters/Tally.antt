-- ===== src/Scheduler/Counters/Tally.antt =====
-- Sums over a list, and what a write does to them.
use fast_queue.Prelude.{
  ℕ, zero, suc, ◌+◌, ◌≤◌, ◌≡◌, ◌≢◌, refl, ap, some, List, [], ◌∷◌, arith, length, get_elem?, set,
  replicate,
}

abbrev pub total : {A : Type 0} → (A → ℕ) → List A → ℕ
total f [] = 0
total f (x ∷ xs) = f x + total f xs

module _ {A : Type 0} (f : A → ℕ) where
  pub total-set :
      (xs : List A) (i : ℕ) (a b : A)
      → get_elem? xs i ≡ some a
      → total f (set xs i b) + f a ≡ total f xs + f b
  total-set [] i a b e = absurd (cc)
  total-set (x ∷ xs) zero a b e = let same : f x ≡ f a = cc in omega arith
  total-set (x ∷ xs) (suc i) a b e = omega (arith, total-set xs i a b e)

  pub member-le-total : (xs : List A) (i : ℕ) (a : A) → get_elem? xs i ≡ some a → f a ≤ total f xs
  member-le-total [] i a e = absurd (cc)
  member-le-total (x ∷ xs) zero a e = let same : f x ≡ f a = cc in omega arith
  member-le-total (x ∷ xs) (suc i) a e = omega (arith, member-le-total xs i a e)

  pub total-le-length : ((a : A) → f a ≤ 1) → (xs : List A) → total f xs ≤ length xs
  total-le-length h [] = omega arith
  total-le-length h (x ∷ xs) = omega (arith, h x, total-le-length h xs)

  pub total-replicate : (n : ℕ) (a : A) → f a ≡ 0 → total f (replicate n a) ≡ 0
  total-replicate zero a e = refl
  total-replicate (suc n) a e = omega (arith, e, total-replicate n a e)

module _ {A : Type 0} where
  pub get_elem?-set_self :
      (xs : List A) (i : ℕ) (a b : A) → get_elem? xs i ≡ some a → get_elem? (set xs i b) i ≡ some b
  get_elem?-set_self [] i a b e = absurd (cc)
  get_elem?-set_self (x ∷ xs) zero a b e = refl
  get_elem?-set_self (x ∷ xs) (suc i) a b e = get_elem?-set_self xs i a b e

  pub get_elem?-set_ne :
      (xs : List A) (i j : ℕ) (b : A) → i ≢ j → get_elem? (set xs i b) j ≡ get_elem? xs j
  get_elem?-set_ne [] i j b h = refl
  get_elem?-set_ne (x ∷ xs) zero zero b h = absurd (h refl)
  get_elem?-set_ne (x ∷ xs) zero (suc j) b h = refl
  get_elem?-set_ne (x ∷ xs) (suc i) zero b h = refl
  get_elem?-set_ne (x ∷ xs) (suc i) (suc j) b h = get_elem?-set_ne xs i j b (λ e. h (ap suc e))
