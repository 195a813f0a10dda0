-- ===== src/Memory/Default.antt =====
-- The default allocator of memory.c: blocks of `malloc` with a header that holds their size, and the
-- counters over them. Its atomics are those over <stdatomic.h>.
use fast_queue.Prelude.{
  ℕ, ◌%◌, ◌^◌, false, none, some, List, [], ◌∷◌, ◌==◌, if◌then◌else◌, add64, sub64, add32, leb_int,
}
use fast_queue.Types.{Ptr}
use fast_queue.Atomic.Std
use fast_queue.Memory.Allocator.{Allocators}

-- The allocator of the C library: `malloc(size)`, `realloc(ptr, size)` and `free(ptr)` over its state.
pub record Libc (S : Type 0) : Type 0 where
  pub malloc : ℕ → S → Ptr × S
  pub realloc : ℕ → ℕ → S → Ptr × S
  pub free : ℕ → S → S

-- `sizeof(fq_alloc_header_t)`
abbrev pub sizeof_header : ℕ
sizeof_header = 8

-- The four counters, patterns of `int`
pub record Counters : Type 0 where
  pub alloc_count : ℕ
  pub free_count : ℕ
  pub allocated : ℕ
  pub peak : ℕ

-- The C library's heap, the `size` of the header at each address, and the counters.
pub record Default (S : Type 0) : Type 0 where
  pub libc : S
  pub header : ℕ → ℕ
  pub counters : Counters

-- FQ_MEMORY_ORDER_RELAXED
abbrev relaxed : ℕ
relaxed = 0

-- The loop of `stats_alloc` that raises the peak: one round for each exchange that fails, with the
-- value that the cell has by then, and a last one whose exchange does not fail.
unfoldable pub raise_peak : List ℕ → ℕ → ℕ → ℕ
raise_peak [] new_val peak =
    let p = (Std.load peak relaxed).0 in
    if leb_int new_val p
    then peak
    else (Std.compare_exchange_weak false peak p new_val relaxed relaxed).cell
raise_peak (seen ∷ fails) new_val peak =
    let rest = raise_peak fails new_val seen in if leb_int new_val peak then peak else rest

-- `(int)(size & 0x7FFFFFFF)`
abbrev pub masked_size : ℕ → ℕ
masked_size size = size % 2 ^ 31

-- `stats_alloc`, with what the rounds of its loop meet
unfoldable pub stats_alloc : List ℕ → ℕ → Counters → Counters
stats_alloc fails size c =
    let (prev, allocated, _) = Std.fetch_add c.allocated (masked_size size) relaxed in
    let (_, alloc_count, _) = Std.fetch_add c.alloc_count 1 relaxed in
    record c {
      allocated = allocated;
      alloc_count = alloc_count;
      peak = raise_peak fails (add32 prev (masked_size size)) c.peak;
    }

-- `stats_free`
unfoldable pub stats_free : ℕ → Counters → Counters
stats_free size c = record c {
  allocated = (Std.fetch_sub c.allocated (masked_size size) relaxed).1;
  free_count = (Std.fetch_add c.free_count 1 relaxed).1;
}

-- `h->size = size`
abbrev pub store_size : (ℕ → ℕ) → ℕ → ℕ → ℕ → ℕ
store_size header b size q = if b == q then size else header q

-- `fq_mem_stats_t`
pub record MemStats : Type 0 where
  pub allocated_bytes : ℕ
  pub total_allocs : ℕ
  pub total_frees : ℕ
  pub peak_bytes : ℕ

-- `fq_mem_stats` on an out pointer that is not NULL
unfoldable pub mem_stats : Counters → MemStats
mem_stats c = record {
  allocated_bytes = (Std.load c.allocated relaxed).0;
  total_allocs = (Std.load c.alloc_count relaxed).0;
  total_frees = (Std.load c.free_count relaxed).0;
  peak_bytes = (Std.load c.peak relaxed).0;
}

-- What follows the call of `malloc` or `realloc`: the header is written, and the block counted.
abbrev pub headed_block :
    {S : Type 0} → List ℕ → ℕ → Default S → Counters → Ptr × S → Ptr × Default S
headed_block fails size d counters (none, s) = (none, record d { libc = s })
headed_block fails size d counters (some b, s) = (
  some (add64 b sizeof_header),
  record {
    libc = s;
    header = store_size d.header b size;
    counters = stats_alloc fails size counters;
  },
)

module _ {S : Type 0} (c : Libc S) (fails : List ℕ) where
  -- `default_alloc`
  unfoldable pub default_alloc : ℕ → Default S → Ptr × Default S
  default_alloc size d =
      headed_block fails size d d.counters (c.malloc (add64 sizeof_header size) d.libc)

  -- `default_realloc`; `realloc` moves the contents of the block with its header.
  unfoldable pub default_realloc : Ptr → ℕ → Default S → Ptr × Default S
  default_realloc none size d = default_alloc size d
  default_realloc (some p) size d =
      let h = sub64 p sizeof_header in
      headed_block fails size d (stats_free (d.header h) d.counters)
        (c.realloc h (add64 sizeof_header size) d.libc)

  -- `default_free`
  unfoldable pub default_free : Ptr → Default S → Default S
  default_free none d = d
  default_free (some p) d =
      let h = sub64 p sizeof_header in
      record d { libc = c.free h d.libc; counters = stats_free (d.header h) d.counters }

  -- `g_default_allocator`, as the only allocator of a program
  unfoldable pub default_table : Allocators (Default S)
  default_table = record {
    alloc = λ a size d. default_alloc size d;
    realloc = λ a p size d. default_realloc p size d;
    free = λ a p d. default_free p d;
  }
