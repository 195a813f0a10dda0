-- ===== src/Memory/Blocks.antt =====
-- What the library relies on of its allocators: a fresh block is live until it is freed through the
-- allocator that it came from.
use fast_queue.Prelude.{
  ℕ, ◌*◌, ◌/◌, ◌≡◌, refl, ◌⊎◌, inl, inr, none, some, List, [], ◌∷◌, arith, ◌==◌, ◌&&◌, ltb, not,
  if◌then◌else◌, u64, size_max, Bool-cases,
}
use fast_queue.Types.{Ptr}
use fast_queue.Memory.Allocator.{Allocators, fq_calloc}

-- The block `p` of the allocator `a` taken off a list of live blocks.
unfoldable pub remove_block : ℕ → ℕ → List (ℕ × ℕ) → List (ℕ × ℕ)
remove_block a p [] = []
remove_block a p ((b, r) ∷ l) = if a == b && p == r then l else (b, r) ∷ remove_block a p l

pub remove_block-head : (a p : ℕ) (l : List (ℕ × ℕ)) → remove_block a p ((a, p) ∷ l) ≡ l
unfolding remove_block
remove_block-head a p l = ground arith

pub record BlockLaws {S : Type 0} (al : Allocators S) (live : S → List (ℕ × ℕ)) : Type 0 where
  pub alloc_some :
      (a n p : ℕ) (s s' : S) → al.alloc a n s ≡ (some p, s') → live s' ≡ (a, p) ∷ live s
  pub alloc_none : (a n : ℕ) (s s' : S) → al.alloc a n s ≡ (none, s') → live s' ≡ live s
  pub free_some : (a p : ℕ) (s : S) → live (al.free a (some p) s) ≡ remove_block a p (live s)
  pub free_none : (a : ℕ) (s : S) → live (al.free a none s) ≡ live s

-- `r` answers a request made in `s`: no block, or a block `p` that has joined the live ones.
abbrev pub Answers : {S : Type 0} → (S → List (ℕ × ℕ)) → ℕ → S → Ptr × S → Type 0
Answers live a s r =
    ((r.0 ≡ none) × (live r.1 ≡ live s)) ⊎ ((p : ℕ) × (r.0 ≡ some p) × (live r.1 ≡ (a, p) ∷ live s))

module _ {S : Type 0} {al : Allocators S} {live : S → List (ℕ × ℕ)} (laws : BlockLaws al live) where
  alloc-Answers : (a n : ℕ) (s : S) → Answers live a s (al.alloc a n s)
  alloc-Answers a n s = go (al.alloc a n s) refl
    where
      go : (r : Ptr × S) → al.alloc a n s ≡ r → Answers live a s r
      go (none, s') e = inl (refl, laws.alloc_none a n s s' e)
      go (some p, s') e = inr (p, refl, laws.alloc_some a n p s s' e)

  -- A call of `fq_calloc` adds one live block or none.
  pub calloc-Answers : (a c n : ℕ) (s : S) → Answers live a s (fq_calloc al (some a) c n s)
  unfolding fq_calloc
  calloc-Answers a c n s = elim (Bool-cases (not (c == 0) && ltb (size_max / c) n)) [
    | inl e ↦ rw e (inl (refl, refl))
    | inr e ↦ rw e (alloc-Answers a (u64 (c * n)) s)
  ]
