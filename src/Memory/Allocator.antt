-- ===== src/Memory/Allocator.antt =====
-- `fq_allocator_t` and the wrappers `fq_alloc`, `fq_calloc`, `fq_realloc`, `fq_free`.
use fast_queue.Prelude.{ℕ, ◌*◌, ◌/◌, none, some, ◌==◌, ltb, not, ◌&&◌, if◌then◌else◌, u64, size_max}
use fast_queue.Types.{Ptr}

-- The allocators of a program, each known by the address of its `fq_allocator_t`; `S` is the state
-- of all heaps together. The functions are the user's, or those of `g_default_allocator`.
pub record Allocators (S : Type 0) : Type 0 where
  pub alloc : ℕ → ℕ → S → Ptr × S
  pub realloc : ℕ → Ptr → ℕ → S → Ptr × S
  pub free : ℕ → Ptr → S → S

-- `fq_default_allocator`: the address of `g_default_allocator`
abbrev pub default_allocator : ℕ
default_allocator = 0

-- `if (!alloc) alloc = &g_default_allocator;`
abbrev pub resolve : Ptr → ℕ
resolve none = default_allocator
resolve (some a) = a

module _ {S : Type 0} (al : Allocators S) where
  -- `fq_alloc`
  unfoldable pub fq_alloc : Ptr → ℕ → S → Ptr × S
  fq_alloc allocator size s = al.alloc (resolve allocator) size s

  -- `fq_calloc`. The zeroing of the block shows in the values that its users start from.
  unfoldable pub fq_calloc : Ptr → ℕ → ℕ → S → Ptr × S
  fq_calloc allocator count size s =
      if not (count == 0) && ltb (size_max / count) size
      then (none, s)
      else al.alloc (resolve allocator) (u64 (count * size)) s

  -- `fq_realloc`
  unfoldable pub fq_realloc : Ptr → Ptr → ℕ → S → Ptr × S
  fq_realloc allocator p size s = al.realloc (resolve allocator) p size s

  -- `fq_free`
  unfoldable pub fq_free : Ptr → Ptr → S → S
  fq_free allocator p s = al.free (resolve allocator) p s
