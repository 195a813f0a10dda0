-- ===== src/Queue/Window.antt =====
-- Stretches of a ring buffer: what a queue holds, read from the buffer and the indices.
use native.Mathlib.Nat.{mod-add-mod, mod-eq_of_lt, mod-eq-sub-mod, add-zero}
use fast_queue.Prelude.{
  ℕ, zero, suc, ◌+◌, ◌-◌, ◌%◌, ◌<◌, ◌≡◌, ◌≢◌, refl, sym, ap, ap₂, ◌∙◌, Option, none, List, [], ◌∷◌,
  ◌++◌, arith, dec_lt, get_or, set, length, get_or-set_ne,
}

module _ {T : Type 0} where
  -- The `n` slots from index `h` on, going round at `capacity`.
  abbrev pub window : List (Option T) → ℕ → ℕ → ℕ → List (Option T)
  window buf capacity h zero = []
  window buf capacity h (suc n) = get_or buf h none ∷ window buf capacity ((h + 1) % capacity) n

  pub length-window :
      (buf : List (Option T)) (capacity h n : ℕ) → length (window buf capacity h n) ≡ n
  length-window buf capacity h zero = refl
  length-window buf capacity h (suc n) = ap suc (length-window buf capacity ((h + 1) % capacity) n)

shift : (capacity h n : ℕ) → ((h + 1) % capacity + n) % capacity ≡ (h + suc n) % capacity
shift capacity h n =
    rw mod-add-mod (ap (λ (k : ℕ). k % capacity) {x = h + 1 + n} {y = h + suc n} (omega arith))

-- Fewer than `capacity` steps do not come back to the start.
add-mod-ne : (capacity h k : ℕ) → h < capacity → 0 < k → k < capacity → (h + k) % capacity ≢ h
add-mod-ne capacity h k hh pos hk = elim (dec_lt (h + k) capacity) [
  | yes p ↦ omega (arith, mod-eq_of_lt p)
  | no p ↦ omega (
    arith,
    mod-eq-sub-mod {n = h + k} {m = capacity} (omega arith),
    mod-eq_of_lt {n = h + k - capacity} {m = capacity} (omega arith),
  )
]

module _ {T : Type 0} where
  -- A longer window ends with the slot that follows.
  pub window-snoc :
      (buf : List (Option T)) (capacity h n : ℕ)
      → h < capacity
      → window buf capacity h (suc n)
        ≡ window buf capacity h n ++ get_or buf ((h + n) % capacity) none ∷ []
  window-snoc buf capacity h zero lt = rw (add-zero, mod-eq_of_lt lt)
  window-snoc buf capacity h (suc n) lt =
      ap (λ r. get_or buf h none ∷ r)
        (window-snoc buf capacity ((h + 1) % capacity) n (omega arith)
          ∙ ap (λ (i : ℕ). window buf capacity ((h + 1) % capacity) n ++ get_or buf i none ∷ [])
              (shift capacity h n))

  -- A write just past a window does not show in it.
  pub window-set_past :
      (buf : List (Option T)) (capacity h n m : ℕ) (v : Option T)
      → h < capacity
      → n + m < capacity
      → window (set buf ((h + (n + m)) % capacity) v) capacity h n ≡ window buf capacity h n
  window-set_past buf capacity h zero m v hh hn = refl
  window-set_past buf capacity h (suc n) m v hh hn =
      ap₂ ◌∷◌
        (get_or-set_ne buf ((h + (suc n + m)) % capacity) h v none
          (add-mod-ne capacity h (suc n + m) hh (omega arith) hn))
        (ap (λ (i : ℕ). window (set buf i v) capacity ((h + 1) % capacity) n) far
          ∙ window-set_past buf capacity ((h + 1) % capacity) n m v (omega arith) (omega arith))
    where
      far : (h + (suc n + m)) % capacity ≡ ((h + 1) % capacity + (n + m)) % capacity
      far =
          ap (λ (k : ℕ). k % capacity) {x = h + (suc n + m)} {y = h + suc (n + m)} (omega arith)
          ∙ sym (shift capacity h (n + m))
