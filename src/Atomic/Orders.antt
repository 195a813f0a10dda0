-- ===== src/Atomic/Orders.antt =====
-- Memory orders, and which of them C allows for which operation.
use fast_queue.Prelude.{ℕ, Bool, true, false}

pub data MemoryOrder : Type 0 where
  relaxed acquire release acq_rel seq_cst : MemoryOrder

-- FQ_MEMORY_ORDER_RELAXED to FQ_MEMORY_ORDER_SEQ_CST
abbrev pub order_code : MemoryOrder → ℕ
order_code MemoryOrder.relaxed = 0
order_code MemoryOrder.acquire = 1
order_code MemoryOrder.release = 2
order_code MemoryOrder.acq_rel = 3
order_code MemoryOrder.seq_cst = 4

-- A load may not release; so for the order of a failed exchange, which is a load.
abbrev pub allows_load : MemoryOrder → Bool
allows_load MemoryOrder.relaxed = true
allows_load MemoryOrder.acquire = true
allows_load MemoryOrder.release = false
allows_load MemoryOrder.acq_rel = false
allows_load MemoryOrder.seq_cst = true

-- A store may not acquire.
abbrev pub allows_store : MemoryOrder → Bool
allows_store MemoryOrder.relaxed = true
allows_store MemoryOrder.acquire = false
allows_store MemoryOrder.release = true
allows_store MemoryOrder.acq_rel = false
allows_store MemoryOrder.seq_cst = true
