-- ===== src/Queue/Create.antt =====
-- `fq_queue_create` and `fq_queue_destroy`: which capacities are accepted, what a new queue holds,
-- and the blocks that it takes and gives back.
use fast_queue.Prelude.{
  ℕ, ◌+◌, ◌-◌, ◌*◌, ◌%◌, ◌^◌, ◌≤◌, ◌<◌, ◌≡◌, refl, ap, ◌∙◌, ◌⊎◌, inl, inr, Option, none, some, List,
  [], ◌∷◌, arith, length-replicate, replicate, true, false, ℕ_discrete, ltb, lt→ltb, if◌then◌else◌,
  max,
}
use fast_queue.Types.{Status, Ptr}
use fast_queue.Memory.Blocks.{BlockLaws, calloc-Answers, remove_block-head, remove_block}
use fast_queue.Memory.Allocator.{Allocators, resolve, fq_calloc, fq_free}
use native.Mathlib.Nat.{pow-le-pow_right}
use fast_queue.Queue.Pow2.{next_pow2_least, next_pow2_wraps, pow-lt}
use fast_queue.Queue.Ring.{
  Queue, ring_capacity, fresh_queue, create_buffer, create_ring, create, destroy, queue_capacity,
}
use fast_queue.Queue.Window.{window}
use fast_queue.Queue.Slots.{empty_count}
use fast_queue.Queue.Refine.{Holds}
use fast_queue.Queue.Concurrent.Machine.{Move, System, pick, Reach, start, later}
use fast_queue.Queue.Concurrent.Safety.{Access, writes}

-- `fq_queue_create` rounds a capacity of at most 2^63, or 64 if that is more, up to the least power
-- of two that is not below it.
pub ring_capacity_power :
    (n : ℕ)
    → n ≤ 2 ^ 63
    → (k : ℕ) × (ring_capacity n ≡ 2 ^ k)
      × (max n 64 ≤ ring_capacity n)
      × (ring_capacity n < 2 * max n 64)
unfolding ring_capacity
ring_capacity_power n h =
    let (k, small, e, lo, hi) = next_pow2_least (max n 64) (omega arith) (omega arith) in
    (k, rw clamped e, rw (clamped, e) lo, rw (clamped, e) hi)
  where
    clamped : (if ltb n 64 then 64 else n) ≡ max n 64
    clamped = ground arith

at_most-24 : (n : ℕ) → n ≤ 2 ^ 24 → ring_capacity n ≤ 2 ^ 24
at_most-24 n h =
    let (k, e, lo, hi) = ring_capacity_power n (omega arith) in
    omega (
      arith,
      e,
      pow-le-pow_right {n = 2} (omega arith) {i = k} {j = 24}
          (omega (arith, pow-lt k 25 (omega (arith, e, hi)))),
    )

ring_capacity_wraps : (n : ℕ) → 2 ^ 63 < n → n < 2 ^ 64 → ring_capacity n ≡ 0
unfolding ring_capacity
ring_capacity_wraps n lo hi = rw (not_small) (next_pow2_wraps n lo hi)
  where
    not_small : (if ltb n 64 then 64 else n) ≡ n
    not_small = ground arith

pub fresh_queue-Holds :
    {T : Type 0} (self b : Ptr) (c k a : ℕ)
    → c ≡ 2 ^ k
    → 64 ≤ c
    → c ≤ 2 ^ 24
    → Holds {T = T} (fresh_queue self b c a) []
fresh_queue-Holds self b c k a e lo hi = record {
  valid = record {
    bits = k;
    power = e;
    at_least = lo;
    at_most = hi;
    mask_eq = omega arith;
    storage = length-replicate c none;
    head_in = omega arith;
    tail_in = omega arith;
    open_ = refl;
  };
  held =
      ap (window (replicate c none) c 0) {x = (0 + (c - 0)) % c} {y = 0}
        (empty_count c 0 0 (omega arith) (omega arith) refl);
}

-- What `fq_queue_create` may return for a capacity within the limits: out of memory with nothing
-- taken, or a queue that is in order and empty, and whose destruction gives back all that was taken.
abbrev pub Created :
    {S T : Type 0}
    → Allocators S
    → (S → List (ℕ × ℕ))
    → ℕ
    → S
    → Status × Option (Queue T) × S
    → Type 0
Created {S} {T} al live c s r =
    ((r.0 ≡ Status.err_nomem) × (r.1 ≡ none) × (live r.2 ≡ live s))
    ⊎ ((q : Queue T) × (r.0 ≡ Status.ok)
        × (r.1 ≡ some q)
        × Holds q []
        × (q.capacity ≡ c)
        × (live (destroy al (some q) r.2) ≡ live s))

module _ {S : Type 0} (al : Allocators S) (live : S → List (ℕ × ℕ)) (laws : BlockLaws al live) where
  free_head :
      (a p : ℕ) (l : List (ℕ × ℕ)) (s : S)
      → live s ≡ (a, p) ∷ l
      → live (fq_free al (some a) (some p) s) ≡ l
  unfolding fq_free
  free_head a p l s e = laws.free_some a p s ∙ ap (remove_block a p) e ∙ remove_block-head a p l

module _ {S : Type 0} (T : Type 0) (al : Allocators S) (live : S → List (ℕ × ℕ))
    (laws : BlockLaws al live) where
  module _ (c k a : ℕ) (power : c ≡ 2 ^ k) (lo : 64 ≤ c) (hi : c ≤ 2 ^ 24) where
    buffer_Created :
        (p : ℕ) (s s' : S)
        → live s' ≡ (a, p) ∷ live s
        → Created {T = T} al live c s (create_buffer al (some p) c a s')
    unfolding create_buffer destroy
    buffer_Created p s s' e = elim (calloc-Answers laws a c 8 s') [
      | inl (none_eq, same) ↦
          rw (none_eq, create_buffer)
            (inl (refl, refl, free_head al live laws a p (live s) _ (same ∙ e)))
      | inr (b, some_eq, more) ↦
          rw (some_eq, create_buffer)
            (inr (
              fresh_queue (some p) (some b) c a,
              refl,
              refl,
              fresh_queue-Holds (some p) (some b) c k a power lo hi,
              refl,
              free_head al live laws a p (live s) _
                  (free_head al live laws a b ((a, p) ∷ live s) _ (more ∙ ap (λ l. (a, b) ∷ l) e)),
            ))
    ]

    ring_Created : (s : S) → Created {T = T} al live c s (create_ring al c a s)
    unfolding create_ring
    ring_Created s = elim (calloc-Answers laws a 1 128 s) [
      | inl (none_eq, same) ↦ rw (none_eq, create_ring) (inl (refl, refl, same))
      | inr (p, some_eq, more) ↦
          rw (some_eq, create_ring) (buffer_Created p s (fq_calloc al (some a) 1 128 s).1 more)
    ]

  -- For a capacity of at most 2^24 and an allocator that obeys the laws of live blocks,
  -- `fq_queue_create` reports out of memory with nothing taken, or gives a queue of the rounded
  -- capacity that is in order and empty, and whose destruction gives back all that was taken.
  pub create-Created :
      (n : ℕ) (allocator : Ptr) (s : S)
      → n ≤ 2 ^ 24
      → Created {T = T} al live (ring_capacity n) s (create al true n allocator s)
  unfolding create
  create-Created n allocator s h =
      let (k, e, lo, hi) = ring_capacity_power n (omega arith) in
      rw (within (ring_capacity n) (at_most-24 n h))
        (ring_Created (ring_capacity n) k (resolve allocator) e (omega arith) (at_most-24 n h) s)
    where
      within : (c : ℕ) → c ≤ 2 ^ 24 → ltb (2 ^ 24) c ≡ false
      within c le = ground arith

module _ {S : Type 0} (T : Type 0) (al : Allocators S) where
  -- A capacity above 2^24, up to 2^63, is refused with nothing taken.
  pub create_refuses :
      (n : ℕ) (allocator : Ptr) (s : S)
      → 2 ^ 24 < n
      → n ≤ 2 ^ 63
      → ◌≡◌ {A = Status × Option (Queue T) × S}
          (create al true n allocator s)
          (Status.err_inval, none, s)
  unfolding create
  create_refuses n allocator s big h = rw (lt→ltb (2 ^ 24) (ring_capacity n) over) refl
    where
      over : 2 ^ 24 < ring_capacity n
      over = let (k, e, lo, hi) = ring_capacity_power n h in omega arith

  buffer_of_none :
      (p b a : ℕ) (s s2 : S)
      → fq_calloc al (some a) 0 8 s ≡ (some b, s2)
      → create_buffer al (some p) 0 a s
        ≡ (Status.ok, some (fresh_queue {T = T} (some p) (some b) 0 a), s2)
  unfolding create_buffer
  buffer_of_none p b a s s2 e = rw (e, create_buffer) (rw e refl)

  ring_of_none :
      (p b a : ℕ) (s s1 s2 : S)
      → fq_calloc al (some a) 1 128 s ≡ (some p, s1)
      → fq_calloc al (some a) 0 8 s1 ≡ (some b, s2)
      → create_ring al 0 a s ≡ (Status.ok, some (fresh_queue {T = T} (some p) (some b) 0 a), s2)
  unfolding create_ring
  ring_of_none p b a s s1 s2 e1 e2 = rw (e1, create_ring) (rw e1 (buffer_of_none p b a s1 s2 e2))

  -- A capacity above 2^63 passes the limit, since its rounding wraps to 0. If memory is there, the
  -- queue has a buffer of no slots and reports a capacity of 2^64 - 1, and a thread that pushes to it
  -- finds room: it reaches the point where it is about to write the slot 0, which is not there.
  pub create_wraps :
      (n p b : ℕ) (allocator : Ptr) (s s1 s2 : S) (t : T)
      → 2 ^ 63 < n
      → n < 2 ^ 64
      → fq_calloc al (some (resolve allocator)) 1 128 s ≡ (some p, s1)
      → fq_calloc al (some (resolve allocator)) 0 8 s1 ≡ (some b, s2)
      → (q : Queue T) × (create al true n allocator s ≡ (Status.ok, some q, s2))
        × (q.buffer ≡ [])
        × (queue_capacity (some q) ≡ 2 ^ 64 - 1)
        × (m : System T) × Reach q m
        × Access (m.pc 0) 0 true
        × (m.mem.queue.buffer ≡ [])
  unfolding create queue_capacity ℕ_discrete
  create_wraps n p b allocator s s1 s2 t lo hi e1 e2 = (
    fresh_queue (some p) (some b) 0 (resolve allocator),
    rw (ring_capacity_wraps n lo hi) (ring_of_none p b (resolve allocator) s s1 s2 e1 e2),
    refl,
    refl,
    _,
    later
        (later
          (later (later start (pick 0 (Move.push_call {t = t} refl)))
            (pick 0 (Move.push_lock refl)))
          (pick 0 Move.push_load_tail))
        (pick 0 (Move.push_load_head (omega arith))),
    writes {t = t},
    refl,
  )
