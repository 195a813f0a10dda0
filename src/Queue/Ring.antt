-- ===== src/Queue/Ring.antt =====
-- The functions of queue.c, each run to its end with its mutexes free. `Queue.Concurrent` has the
-- interleavings.
use fast_queue.Prelude.{
  ℕ, zero, suc, ◌^◌, bit_and, Bool, true, false, Option, none, some, List, [], ◌∷◌, ◌==◌, ltb, not,
  if◌then◌else◌, add32, sub32, sub64, u32, get_or, set, replicate,
}
use fast_queue.Types.{Status, status_ok, Ptr}
use fast_queue.Memory.Allocator.{Allocators, resolve, fq_calloc, fq_free}
use fast_queue.Queue.Pow2.{next_pow2}

-- FQ_QUEUE_MIN_CAPACITY, FQ_QUEUE_DEFAULT_CAPACITY and FQ_QUEUE_MAX_CAPACITY of config.h
abbrev pub queue_min_capacity : ℕ
queue_min_capacity = 64

abbrev pub queue_default_capacity : ℕ
queue_default_capacity = 1024

abbrev pub queue_max_capacity : ℕ
queue_max_capacity = 2 ^ 24

-- `sizeof(fq_queue_t)` and `sizeof(fq_task_t *)` on x86-64 Linux
abbrev pub sizeof_queue : ℕ
sizeof_queue = 128

abbrev pub sizeof_ptr : ℕ
sizeof_ptr = 8

-- `fq_queue_t` without its two mutexes. `self` is the queue's own address and `buffer_at` that of
-- the buffer; a slot that holds NULL is `none`. `head`, `tail` and `closed` are patterns of `int`.
pub record Queue (T : Type 0) : Type 0 where
  pub self : Ptr
  pub buffer_at : Ptr
  pub buffer : List (Option T)
  pub capacity : ℕ
  pub mask : ℕ
  pub head : ℕ
  pub tail : ℕ
  pub closed : ℕ
  pub allocator : ℕ

-- `x & (int)queue->mask`
abbrev pub masked : {T : Type 0} → Queue T → ℕ → ℕ
masked q x = bit_and x (u32 q.mask)

-- The capacity that `fq_queue_create` computes from the one it is given.
unfoldable pub ring_capacity : ℕ → ℕ
ring_capacity capacity =
    next_pow2 (if ltb capacity queue_min_capacity then queue_min_capacity else capacity)

-- The queue that `fq_queue_create` fills in, over its two blocks.
abbrev pub fresh_queue : {T : Type 0} → Ptr → Ptr → ℕ → ℕ → Queue T
fresh_queue self buffer_at capacity allocator = record {
  self = self;
  buffer_at = buffer_at;
  buffer = replicate capacity none;
  capacity = capacity;
  mask = sub64 capacity 1;
  head = 0;
  tail = 0;
  closed = 0;
  allocator = allocator;
}

module _ {S : Type 0} (al : Allocators S) where
  -- The second `fq_calloc` and what follows it.
  unfoldable pub create_buffer : {T : Type 0} → Ptr → ℕ → ℕ → S → Status × Option (Queue T) × S
  create_buffer self capacity allocator s =
      let (b, s') = fq_calloc al (some allocator) capacity sizeof_ptr s in
      elim b [
        | none ↦ (Status.err_nomem, none, fq_free al (some allocator) self s')
        | some p ↦ (Status.ok, some (fresh_queue self (some p) capacity allocator), s')
      ]

  -- `fq_queue_create`, from its first `fq_calloc` on
  unfoldable pub create_ring : {T : Type 0} → ℕ → ℕ → S → Status × Option (Queue T) × S
  create_ring capacity allocator s =
      let (q, s') = fq_calloc al (some allocator) 1 sizeof_queue s in
      elim q [
        | none ↦ (Status.err_nomem, none, s')
        | some p ↦ create_buffer (some p) capacity allocator s'
      ]

  -- `fq_queue_create`; `given` tells whether the out pointer is not NULL, and the option is what goes
  -- through it.
  unfoldable pub create : {T : Type 0} → Bool → ℕ → Ptr → S → Status × Option (Queue T) × S
  create given capacity allocator s =
      if not given
      then (Status.err_inval, none, s)
      else if ltb queue_max_capacity (ring_capacity capacity)
      then (Status.err_inval, none, s)
      else create_ring (ring_capacity capacity) (resolve allocator) s

  -- `fq_queue_destroy`; the mutexes that it destroys are not in the record
  unfoldable pub destroy : {T : Type 0} → Option (Queue T) → S → S
  destroy none s = s
  destroy (some q) s =
      fq_free al (some q.allocator) q.self (fq_free al (some q.allocator) q.buffer_at s)

module _ {T : Type 0} where
  -- `fq_queue_push` on a queue and a task that are not NULL. The slot that is written lies in the
  -- buffer of a queue that is in order; of a queue without slots the model leaves the buffer empty.
  unfoldable pub push_task : Queue T → T → Status × Queue T
  push_task q t =
      if not (q.closed == 0)
      then (Status.err_closed, q)
      else (let next = masked q (add32 q.tail 1) in
          if next == q.head
          then (Status.err_overflow, q)
          else (Status.ok, record q { buffer = set q.buffer q.tail (some t); tail = next }))

  -- `fq_queue_push`
  unfoldable pub push : Option (Queue T) → Option T → Status × Option (Queue T)
  push none t = (Status.err_inval, none)
  push (some q) none = (Status.err_inval, some q)
  push (some q) (some t) = let (st, q') = push_task q t in (st, some q')

  -- `fq_queue_pop` under its lock. The option is `*task`, before and after.
  unfoldable pub pop_task : Queue T → Option T → Status × Option T × Queue T
  pop_task q task =
      if q.head == q.tail
      then (Status.err_busy, task, q)
      else (Status.ok, get_or q.buffer q.head none, record q { head = masked q (add32 q.head 1) })

  -- `fq_queue_pop`: `fq_mutex_trylock` and, should it fail, `fq_mutex_lock` take the lock. `given`
  -- tells whether the out pointer is not NULL.
  unfoldable pub pop : Option (Queue T) → Bool → Option T → Status × Option T × Option (Queue T)
  pop none given task = (Status.err_inval, task, none)
  pop (some q) false task = (Status.err_inval, task, some q)
  pop (some q) true task = let (st, task', q') = pop_task q task in (st, task', some q')

  -- `fq_queue_try_pop` on a queue and an out pointer that are not NULL; `acquired` is whether
  -- `fq_mutex_trylock` took the lock.
  unfoldable pub try_pop_task : Bool → Queue T → Option T → Status × Option T × Queue T
  try_pop_task acquired q task =
      if not acquired
      then (Status.err_busy, task, q)
      else if q.head == q.tail
      then (Status.err_busy, task, q)
      else (Status.ok, get_or q.buffer q.head none, record q { head = masked q (add32 q.head 1) })

  -- `fq_queue_try_pop`; `given` tells whether the out pointer is not NULL.
  unfoldable pub try_pop :
      Bool → Option (Queue T) → Bool → Option T → Status × Option T × Option (Queue T)
  try_pop acquired none given task = (Status.err_inval, task, none)
  try_pop acquired (some q) false task = (Status.err_inval, task, some q)
  try_pop acquired (some q) true task =
      let (st, task', q') = try_pop_task acquired q task in (st, task', some q')

  -- `fq_queue_size`
  unfoldable pub size : Option (Queue T) → ℕ
  size none = 0
  size (some q) = masked q (sub32 q.tail q.head)

  -- `fq_queue_empty`
  unfoldable pub empty : Option (Queue T) → Bool
  empty q = size q == 0

  -- `fq_queue_capacity`
  unfoldable pub queue_capacity : Option (Queue T) → ℕ
  queue_capacity none = 0
  queue_capacity (some q) = sub64 q.capacity 1

  -- The loop of `fq_queue_drain`, with the rounds that are left; the list is what it writes to `out`.
  unfoldable pub drain_loop : ℕ → Queue T → List (Option T) × Queue T
  drain_loop zero q = ([], q)
  drain_loop (suc n) q =
      let (st, t, q') = pop_task q none in
      let rest = drain_loop n q' in if not (status_ok st) then ([], q') else (t ∷ rest.0, rest.1)

  -- `fq_queue_drain`: the count that it returns is the length of the list.
  unfoldable pub drain : Option (Queue T) → Bool → ℕ → List (Option T) × Option (Queue T)
  drain none given n = ([], none)
  drain (some q) given n =
      if not given
      then ([], some q)
      else if n == 0
      then ([], some q)
      else (let (out, q') = drain_loop n q in (out, some q'))
