-- ===== src/Memory/Sample.antt =====
-- Concrete allocators: a bump allocator with a budget of blocks, which keeps its live blocks in a
-- list.
use fast_queue.Prelude.{ℕ, zero, suc, ◌+◌, ◌≡◌, refl, none, some, List, [], ◌∷◌, arith}
use fast_queue.Types.{Ptr}
use fast_queue.Memory.Allocator.{Allocators}
use fast_queue.Memory.Blocks.{BlockLaws, remove_block}

pub record Bump : Type 0 where
  pub next : ℕ
  pub budget : ℕ
  pub blocks : List (ℕ × ℕ)

take_block : ℕ → ℕ → Bump → Ptr × Bump
take_block zero a b = (none, b)
take_block (suc n) a b =
    (some b.next, record { next = b.next + 1; budget = n; blocks = (a, b.next) ∷ b.blocks })

bump_free : ℕ → Ptr → Bump → Bump
bump_free a none b = b
bump_free a (some p) b = record b { blocks = remove_block a p b.blocks }

unfoldable pub bump_allocators : Allocators Bump
unfolding take_block bump_free remove_block
bump_allocators = record {
  alloc = λ a n b. take_block b.budget a b;
  realloc = λ a p n b. (none, b);
  free = bump_free;
}

-- A heap with the given number of blocks to give out.
abbrev pub bump_heap : ℕ → Bump
bump_heap n = record { next = 0x1000; budget = n; blocks = [] }

take_block-some :
    (k a p : ℕ) (b b' : Bump) → take_block k a b ≡ (some p, b') → b'.blocks ≡ (a, p) ∷ b.blocks
unfolding take_block
take_block-some zero a p b b' e = cc
take_block-some (suc k) a p b b' e = ground arith

take_block-none : (k a : ℕ) (b b' : Bump) → take_block k a b ≡ (none, b') → b'.blocks ≡ b.blocks
unfolding take_block
take_block-none zero a b b' e = ground arith
take_block-none (suc k) a b b' e = cc

pub bump_laws : BlockLaws bump_allocators (λ b. b.blocks)
unfolding bump_allocators
bump_laws = record {
  alloc_some = λ a n p s s' e. take_block-some s.budget a p s s' e;
  alloc_none = λ a n s s' e. take_block-none s.budget a s s' e;
  free_some = λ a p s. refl;
  free_none = λ a s. refl;
}
