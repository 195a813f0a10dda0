-- ===== src/Atomic/Msvc.antt =====
-- The operations over the intrinsics of MSVC, which ignore the order and are sequentially consistent.
-- An `int` and a `long` are both of 32 bits there.
use fast_queue.Prelude.{
  ℕ, ◌^◌, Option, none, some, ◌==◌, if◌then◌else◌, add32, sub32, bit_and, bit_or,
}
use fast_queue.Atomic.Orders.{MemoryOrder}
use fast_queue.Atomic.Std.{Exchanged}

-- `_InterlockedCompareExchange(a, desired, old)`: the value before, and the cell after.
abbrev pub interlocked_compare_exchange : ℕ → ℕ → ℕ → ℕ × ℕ
interlocked_compare_exchange a desired old = (a, if a == old then desired else a)

-- `fq_atomic_load_explicit` compares with 0 and stores 0; the second number is the cell after.
unfoldable pub load : ℕ → ℕ → ℕ × ℕ
load a order = interlocked_compare_exchange a 0 0

-- `fq_atomic_store_explicit`
unfoldable pub store : ℕ → ℕ → ℕ → ℕ
store a val order = val

-- `fq_atomic_exchange_explicit`
unfoldable pub exchange : ℕ → ℕ → ℕ → ℕ × ℕ
exchange a val order = (a, val)

-- `fq_atomic_compare_exchange_strong_explicit`
unfoldable pub compare_exchange_strong : ℕ → ℕ → ℕ → ℕ → ℕ → Exchanged
compare_exchange_strong a expected desired success failure =
    let (prev, cell) = interlocked_compare_exchange a desired expected in
    record {
      done = prev == expected;
      cell = cell;
      expected = if prev == expected then expected else prev;
      success = MemoryOrder.seq_cst;
      failure = MemoryOrder.seq_cst;
    }

-- `fq_atomic_compare_exchange_weak_explicit`
unfoldable pub compare_exchange_weak : ℕ → ℕ → ℕ → ℕ → ℕ → Exchanged
unfolding compare_exchange_strong
compare_exchange_weak a expected desired success failure =
    compare_exchange_strong a expected desired success failure

-- `fq_atomic_fetch_add_explicit`
unfoldable pub fetch_add : ℕ → ℕ → ℕ → ℕ × ℕ
fetch_add a operand order = (a, add32 a operand)

-- `fq_atomic_fetch_sub_explicit` adds `-operand`, which overflows for INT_MIN: that is undefined.
unfoldable pub fetch_sub : ℕ → ℕ → ℕ → Option (ℕ × ℕ)
fetch_sub a operand order = if operand == 2 ^ 31 then none else some (a, add32 a (sub32 0 operand))

-- `fq_atomic_fetch_or_explicit`
unfoldable pub fetch_or : ℕ → ℕ → ℕ → ℕ × ℕ
fetch_or a operand order = (a, bit_or a operand)

-- `fq_atomic_fetch_and_explicit`
unfoldable pub fetch_and : ℕ → ℕ → ℕ → ℕ × ℕ
fetch_and a operand order = (a, bit_and a operand)
