-- ===== src/Atomic/Gcc.antt =====
-- The operations over the `__atomic` builtins of GCC and Clang.
use fast_queue.Prelude.{ℕ, Bool, ◌==◌, if◌then◌else◌, add32, sub32, bit_and, bit_or, not, ◌||◌}
use fast_queue.Atomic.Orders.{MemoryOrder}
use fast_queue.Atomic.Std.{Exchanged}

-- The switch of `fq_atomic_load_explicit`
unfoldable pub load_order : ℕ → MemoryOrder
load_order order =
    if order == 0
    then MemoryOrder.relaxed
    else if order == 1
    then MemoryOrder.acquire
    else MemoryOrder.seq_cst

-- The switch of `fq_atomic_store_explicit`
unfoldable pub store_order : ℕ → MemoryOrder
store_order order =
    if order == 0
    then MemoryOrder.relaxed
    else if order == 2
    then MemoryOrder.release
    else MemoryOrder.seq_cst

-- The switch of the exchanges, `fq_atomic_fetch_add_explicit` and `fq_atomic_fetch_sub_explicit`
unfoldable pub update_order : ℕ → MemoryOrder
update_order order =
    if order == 0
    then MemoryOrder.relaxed
    else if order == 1
    then MemoryOrder.acquire
    else if order == 2
    then MemoryOrder.release
    else if order == 3
    then MemoryOrder.acq_rel
    else MemoryOrder.seq_cst

-- `fq_atomic_load_explicit`
abbrev pub load : ℕ → ℕ → ℕ × MemoryOrder
load a order = (a, load_order order)

-- `fq_atomic_store_explicit`
abbrev pub store : ℕ → ℕ → ℕ → ℕ × MemoryOrder
store a val order = (val, store_order order)

-- `fq_atomic_exchange_explicit`
abbrev pub exchange : ℕ → ℕ → ℕ → ℕ × ℕ × MemoryOrder
exchange a val order = (a, val, update_order order)

-- `__atomic_compare_exchange_n`; `fails` is whether it fails.
abbrev pub atomic_compare_exchange : Bool → ℕ → ℕ → ℕ → MemoryOrder → Exchanged
atomic_compare_exchange fails a expected desired success = record {
  done = not fails;
  cell = if fails then a else desired;
  expected = if fails then a else expected;
  success = success;
  failure = MemoryOrder.relaxed;
}

-- `fq_atomic_compare_exchange_strong_explicit` ignores the failure order.
unfoldable pub compare_exchange_strong : ℕ → ℕ → ℕ → ℕ → ℕ → Exchanged
compare_exchange_strong a expected desired success failure =
    atomic_compare_exchange (not (a == expected)) a expected desired (update_order success)

-- `fq_atomic_compare_exchange_weak_explicit`
unfoldable pub compare_exchange_weak : Bool → ℕ → ℕ → ℕ → ℕ → ℕ → Exchanged
compare_exchange_weak spurious a expected desired success failure =
    atomic_compare_exchange (spurious || not (a == expected)) a expected desired
      (update_order success)

-- `fq_atomic_fetch_add_explicit`
abbrev pub fetch_add : ℕ → ℕ → ℕ → ℕ × ℕ × MemoryOrder
fetch_add a operand order = (a, add32 a operand, update_order order)

-- `fq_atomic_fetch_sub_explicit`
abbrev pub fetch_sub : ℕ → ℕ → ℕ → ℕ × ℕ × MemoryOrder
fetch_sub a operand order = (a, sub32 a operand, update_order order)

-- `fq_atomic_fetch_or_explicit`
abbrev pub fetch_or : ℕ → ℕ → ℕ → ℕ × ℕ × MemoryOrder
fetch_or a operand order = (a, bit_or a operand, MemoryOrder.seq_cst)

-- `fq_atomic_fetch_and_explicit`
abbrev pub fetch_and : ℕ → ℕ → ℕ → ℕ × ℕ × MemoryOrder
fetch_and a operand order = (a, bit_and a operand, MemoryOrder.seq_cst)
