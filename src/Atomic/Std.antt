-- ===== src/Atomic/Std.antt =====
-- The operations over <stdatomic.h>.
use fast_queue.Prelude.{
  ℕ, Bool, ◌==◌, if◌then◌else◌, add32, sub32, leb_int, bit_and, bit_or, not, ◌||◌,
}
use fast_queue.Atomic.Orders.{MemoryOrder}

-- The switch of `fq_atomic_load_explicit`
unfoldable pub load_order : ℕ → MemoryOrder
load_order order =
    if order == 1
    then MemoryOrder.acquire
    else if order == 0
    then MemoryOrder.relaxed
    else MemoryOrder.seq_cst

-- The switch of `fq_atomic_store_explicit`
unfoldable pub store_order : ℕ → MemoryOrder
store_order order =
    if order == 2
    then MemoryOrder.release
    else if order == 0
    then MemoryOrder.relaxed
    else MemoryOrder.seq_cst

-- The switch of the operations that read and write
unfoldable pub update_order : ℕ → MemoryOrder
update_order order =
    if order == 1
    then MemoryOrder.acquire
    else if order == 2
    then MemoryOrder.release
    else if order == 3
    then MemoryOrder.acq_rel
    else if leb_int order 0
    then MemoryOrder.relaxed
    else MemoryOrder.seq_cst

-- The second switch of the two compare-and-exchange functions
unfoldable pub failure_order : ℕ → MemoryOrder
failure_order order =
    if order == 1
    then MemoryOrder.acquire
    else if leb_int order 0
    then MemoryOrder.relaxed
    else MemoryOrder.seq_cst

-- `fq_atomic_load_explicit`
abbrev pub load : ℕ → ℕ → ℕ × MemoryOrder
load a order = (a, load_order order)

-- `fq_atomic_store_explicit`
abbrev pub store : ℕ → ℕ → ℕ → ℕ × MemoryOrder
store a val order = (val, store_order order)

-- `fq_atomic_exchange_explicit`
abbrev pub exchange : ℕ → ℕ → ℕ → ℕ × ℕ × MemoryOrder
exchange a val order = (a, val, update_order order)

-- What a compare-and-exchange returns, the cell and `*expected` after it, and its two orders.
pub record Exchanged : Type 0 where
  pub done : Bool
  pub cell : ℕ
  pub expected : ℕ
  pub success : MemoryOrder
  pub failure : MemoryOrder

-- `fq_atomic_compare_exchange_strong_explicit`
abbrev pub compare_exchange_strong : ℕ → ℕ → ℕ → ℕ → ℕ → Exchanged
compare_exchange_strong a expected desired success failure = record {
  done = a == expected;
  cell = if a == expected then desired else a;
  expected = if a == expected then expected else a;
  success = update_order success;
  failure = failure_order failure;
}

-- `fq_atomic_compare_exchange_weak_explicit`; `spurious` is whether it fails though the cell holds
-- what is expected.
abbrev pub compare_exchange_weak : Bool → ℕ → ℕ → ℕ → ℕ → ℕ → Exchanged
compare_exchange_weak spurious a expected desired success failure =
    let fails = spurious || not (a == expected) in
    record {
      done = not fails;
      cell = if fails then a else desired;
      expected = if fails then a else expected;
      success = update_order success;
      failure = failure_order failure;
    }

-- `fq_atomic_fetch_add_explicit`
abbrev pub fetch_add : ℕ → ℕ → ℕ → ℕ × ℕ × MemoryOrder
fetch_add a operand order = (a, add32 a operand, update_order order)

-- `fq_atomic_fetch_sub_explicit`
abbrev pub fetch_sub : ℕ → ℕ → ℕ → ℕ × ℕ × MemoryOrder
fetch_sub a operand order = (a, sub32 a operand, update_order order)

-- `fq_atomic_fetch_or_explicit`
abbrev pub fetch_or : ℕ → ℕ → ℕ → ℕ × ℕ × MemoryOrder
fetch_or a operand order = (a, bit_or a operand, update_order order)

-- `fq_atomic_fetch_and_explicit`
abbrev pub fetch_and : ℕ → ℕ → ℕ → ℕ × ℕ × MemoryOrder
fetch_and a operand order = (a, bit_and a operand, update_order order)
