-- ===== src/Atomic/Asked.antt =====
-- The orders that the versions of the atomic operations ask for.
use fast_queue.Prelude.{ℕ, ◌≡◌, refl, true, if◌then◌else◌, arith}
use fast_queue.Atomic.Orders.{MemoryOrder, order_code, allows_load, allows_store}
use fast_queue.Atomic.Std
use fast_queue.Atomic.Gcc

-- Whatever the `int` that is passed, the version over <stdatomic.h> asks for an order that C allows: no load and no
-- failed exchange releases, and no store acquires; so does the version for GCC and Clang.
pub orders_allowed :
    (order : ℕ)
    → (allows_load (Std.load_order order) ≡ true)
      × (allows_store (Std.store_order order) ≡ true)
      × (allows_load (Std.failure_order order) ≡ true)
      × (allows_load (Gcc.load_order order) ≡ true)
      × (allows_store (Gcc.store_order order) ≡ true)
unfolding Std.load_order Std.store_order Std.failure_order Gcc.load_order Gcc.store_order
orders_allowed order = (ground arith, ground arith, ground arith, ground arith, ground arith)

-- An order that is allowed is asked for as it is: by the version over <stdatomic.h> and by that for GCC and Clang, in a
-- load, in a store, and in what reads and writes.
pub orders_kept :
    (m : MemoryOrder)
    → (Std.update_order (order_code m) ≡ m)
      × (Gcc.update_order (order_code m) ≡ m)
      × ((if allows_load m then Std.load_order (order_code m) else m) ≡ m)
      × ((if allows_load m then Gcc.load_order (order_code m) else m) ≡ m)
      × ((if allows_load m then Std.failure_order (order_code m) else m) ≡ m)
      × ((if allows_store m then Std.store_order (order_code m) else m) ≡ m)
      × ((if allows_store m then Gcc.store_order (order_code m) else m) ≡ m)
unfolding Std.load_order Std.store_order Std.failure_order Gcc.load_order Gcc.store_order
    Std.update_order Gcc.update_order
orders_kept MemoryOrder.relaxed = (refl, refl, refl, refl, refl, refl, refl)
orders_kept MemoryOrder.acquire = (refl, refl, refl, refl, refl, refl, refl)
orders_kept MemoryOrder.release = (refl, refl, refl, refl, refl, refl, refl)
orders_kept MemoryOrder.acq_rel = (refl, refl, refl, refl, refl, refl, refl)
orders_kept MemoryOrder.seq_cst = (refl, refl, refl, refl, refl, refl, refl)
