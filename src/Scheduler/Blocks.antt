-- ===== src/Scheduler/Blocks.antt =====
-- The blocks that the creation and the shutdown of a scheduler take and give back.
use fast_queue.Prelude.{
  ℕ, zero, suc, ◌+◌, ◌-◌, ◌/◌, ◌^◌, ◌≡◌, refl, ap, ◌∙◌, true, Bool-cases, inl, inr, Option, none,
  some, List, [], ◌∷◌, ◌++◌, ◌==◌, ◌&&◌, not, if◌then◌else◌, ltb, arith,
}
use fast_queue.Types.{Status, Ptr}
use fast_queue.Memory.Allocator.{Allocators, resolve, fq_calloc, fq_free}
use fast_queue.Memory.Blocks.{BlockLaws, calloc-Answers, remove_block}
use fast_queue.Queue.Ring.{Queue, fresh_queue, create_buffer, create_ring, ring_capacity}
use fast_queue.Queue.Ring
use fast_queue.Scheduler.Defs.{Worker, Config, worker_threads}
use fast_queue.Scheduler.Life.{
  Creation, made, refused, hung, Launch, launched, no_queue, no_thread, Platform, new_worker,
  destroy_queues, release, after_queue, launch, abandon, after_launch, give_up, after_array,
  after_global, after_self, create_on, release_scheduler,
}

-- How often the block `p` of the allocator `a` is the block `q` of the allocator `b`: once or not at all.
abbrev weight : ℕ → ℕ → ℕ → Ptr → ℕ
weight a p b none = 0
weight a p b (some q) = if a == b && p == q then 1 else 0

-- How often it is in a list of live blocks.
abbrev pub held : ℕ → ℕ → List (ℕ × ℕ) → ℕ
held a p [] = 0
held a p ((b, q) ∷ l) = weight a p b (some q) + held a p l

held-remove_block :
    (a p b q : ℕ) (l : List (ℕ × ℕ))
    → held a p (remove_block b q l) ≡ held a p l - weight a p b (some q)
unfolding remove_block
held-remove_block a p b q [] = ground arith
held-remove_block a p b q ((c, r) ∷ l) = ground (arith, held-remove_block a p b q l)

module _ {S : Type 0} {al : Allocators S} {live : S → List (ℕ × ℕ)} (laws : BlockLaws al live)
    (a p : ℕ) where
  -- The blocks of the queues
  abbrev queue_weight : Queue ℕ → ℕ
  queue_weight q = weight a p q.allocator q.buffer_at + weight a p q.allocator q.self

  abbrev weights : List Worker → ℕ
  weights [] = 0
  weights (k ∷ ks) = queue_weight k.queue + weights ks

  abbrev count : S → ℕ
  count h = held a p (live h)

  weights-append :
      (ks : List Worker) (k : Worker) → weights (ks ++ k ∷ []) ≡ weights ks + queue_weight k.queue
  weights-append [] k = omega arith
  weights-append (j ∷ ks) k = omega (arith, weights-append ks k)

  count-free :
      (b : ℕ) (q : Ptr) (h : S) → count (fq_free al (some b) q h) ≡ count h - weight a p b q
  unfolding fq_free
  count-free b none h = omega (arith, ap (held a p) (laws.free_none b h))
  count-free b (some q) h =
      ap (held a p) (laws.free_some b q h) ∙ held-remove_block a p b q (live h)

  count-destroy :
      (q : Queue ℕ) (h : S) → count (Ring.destroy al (some q) h) ≡ count h - queue_weight q
  unfolding Ring.destroy
  count-destroy q h = omega (
    arith,
    count-free q.allocator q.self (fq_free al (some q.allocator) q.buffer_at h),
    count-free q.allocator q.buffer_at h,
  )

  count-destroy_queues :
      (ks : List Worker) (h : S) → count (destroy_queues al ks h) ≡ count h - weights ks
  unfolding destroy_queues
  count-destroy_queues [] h = omega arith
  count-destroy_queues (k ∷ ks) h =
      omega
        (arith, count-destroy_queues ks (Ring.destroy al (some k.queue) h), count-destroy k.queue h)

  count-release :
      (b : ℕ) (self workers_at : Ptr) (g : Queue ℕ) (ks : List Worker) (h : S)
      → count (release al b self workers_at g ks h)
        ≡ count h - (weights ks + weight a p b workers_at + queue_weight g + weight a p b self)
  count-release b self workers_at g ks h =
      let h1 = destroy_queues al ks h in
      let h2 = fq_free al (some b) workers_at h1 in
      omega (
        arith,
        count-free b self (Ring.destroy al (some g) h2),
        count-destroy g h2,
        count-free b workers_at h1,
        count-destroy_queues ks h,
      )

  -- The creation of a queue takes the blocks that the queue names, or none.
  abbrev QueueTook : S → Status × Option (Queue ℕ) × S → Type 0
  QueueTook h (st, none, h') = count h' ≡ count h
  QueueTook h (st, some q, h') = count h' ≡ count h + queue_weight q

  calloc-took :
      (b c n : ℕ) (h : S)
      → count (fq_calloc al (some b) c n h).1
        ≡ count h + weight a p b (fq_calloc al (some b) c n h).0
  calloc-took b c n h = elim (calloc-Answers laws b c n h) [
    | inl (e, same) ↦ rw e (omega (arith, ap (held a p) same))
    | inr (q, e, more) ↦ rw e (omega (arith, ap (held a p) more))
  ]

  buffer_took :
      (q c b : ℕ) (h h' : S)
      → count h' ≡ count h + weight a p b (some q)
      → QueueTook h (create_buffer al (some q) c b h')
  unfolding create_buffer
  buffer_took q c b h h' e = elim (calloc-Answers laws b c 8 h') [
    | inl (gone, same) ↦
        rw (gone, create_buffer)
          (omega
            (arith, count-free b (some q) (fq_calloc al (some b) c 8 h').1, ap (held a p) same))
    | inr (r, found, more) ↦ rw (found, create_buffer) (omega (arith, ap (held a p) more))
  ]

  ring_took : (c b : ℕ) (h : S) → QueueTook h (create_ring al c b h)
  unfolding create_ring
  ring_took c b h = elim (calloc-Answers laws b 1 128 h) [
    | inl (gone, same) ↦ rw (gone, create_ring) (ap (held a p) same)
    | inr (q, found, more) ↦
        rw (found, create_ring)
          (buffer_took q c b h (fq_calloc al (some b) 1 128 h).1
            (omega (arith, ap (held a p) more)))
  ]

  create_took : (n b : ℕ) (h : S) → QueueTook h (Ring.create al true n (some b) h)
  unfolding Ring.create
  create_took n b h = elim (Bool-cases (ltb (2 ^ 24) (ring_capacity n))) [
    | inl e ↦ rw e refl
    | inr e ↦ rw e (ring_took (ring_capacity n) b h)
  ]

  -- A creation that is refused gives back what it took; one that is made took what its release gives
  -- back.
  abbrev pub Balanced : S → Creation × S → Type 0
  Balanced h (made x, h') = count (release_scheduler al x h') ≡ count h
  Balanced h (refused st, h') = count h' ≡ count h
  Balanced h (hung, h') = Unit

  module _ (platform : Platform) (cfg : Config) (tc : ℕ) where
    abbrev owner : ℕ
    owner = resolve cfg.allocator

    abbrev workers_of : Launch → List Worker
    workers_of (launched ws) = ws
    workers_of (no_queue st ws) = ws
    workers_of (no_thread ws) = ws

    -- A launch takes the blocks of the workers that it adds.
    abbrev LaunchTook : List Worker → S → Launch × S → Type 0
    LaunchTook ws h r = count r.1 + weights ws ≡ count h + weights (workers_of r.0)

    after_queue-took :
        (i : ℕ) (ws : List Worker) (next : Queue ℕ → S → Launch × S) (h : S)
        (r : Status × Option (Queue ℕ) × S)
        → QueueTook h r
        → ((q : Queue ℕ) (h' : S) → LaunchTook (ws ++ new_worker q i ∷ []) h' (next q h'))
        → LaunchTook ws h (after_queue al platform cfg tc i ws next r)
    after_queue-took i ws next h (st, none, h') e n = omega arith
    after_queue-took i ws next h (st, some q, h') e n = elim (Bool-cases (platform.thread_ok i)) [
      | inl t ↦ rw t (omega (arith, n q h', weights-append ws (new_worker q i)))
      | inr t ↦ rw t (omega (arith, count-destroy q h'))
    ]

    launch-took :
        (n i : ℕ) (ws : List Worker) (h : S) → LaunchTook ws h (launch al platform cfg tc n i ws h)
    unfolding launch
    launch-took zero i ws h = refl
    launch-took (suc n) i ws h =
        after_queue-took i ws _ h (Ring.create al true (cfg.queue_capacity / tc) (some owner) h)
          (create_took (cfg.queue_capacity / tc) owner h)
          (λ q h'. launch-took n (i + 1) (ws ++ new_worker q i ∷ []) h')

    module _ (self : Ptr) (g : Queue ℕ) (h : S) where
      -- What is taken before the array of workers.
      abbrev taken : ℕ
      taken = count h + weight a p owner self + queue_weight g

      abandon-Balanced :
          (st : Status) (workers_at : Ptr) (ws : List Worker) (h' : S)
          → count h' ≡ taken + weight a p owner workers_at + weights ws
          → Balanced h (abandon al platform cfg tc self g st workers_at ws h')
      abandon-Balanced st workers_at [] h' e =
          omega (arith, count-release owner self workers_at g [] h')
      abandon-Balanced st workers_at (k ∷ ks) h' e = tt

      after_launch-Balanced :
          (workers_at : Ptr) (r : Launch × S)
          → count r.1 ≡ taken + weight a p owner workers_at + weights (workers_of r.0)
          → Balanced h (after_launch al platform cfg tc self g workers_at r)
      unfolding release_scheduler
      after_launch-Balanced workers_at (launched ws, h') e =
          omega (arith, count-release owner self workers_at g ws h')
      after_launch-Balanced workers_at (no_queue st ws, h') e =
          abandon-Balanced st workers_at ws h' e
      after_launch-Balanced workers_at (no_thread ws, h') e =
          abandon-Balanced Status.err_internal workers_at ws h' e

      give_up-Balanced :
          (st : Status) (h' : S)
          → count h' ≡ taken
          → Balanced h (give_up al platform cfg tc self g st h')
      give_up-Balanced st h' e =
          omega (arith, count-free owner self (Ring.destroy al (some g) h'), count-destroy g h')

      after_array-Balanced :
          (r : Ptr × S)
          → count r.1 ≡ taken + weight a p owner r.0
          → Balanced h (after_array al platform cfg tc self g r)
      after_array-Balanced (none, h') e = give_up-Balanced Status.err_nomem h' (omega arith)
      after_array-Balanced (some q, h') e =
          after_launch-Balanced (some q) (launch al platform cfg tc tc 0 [] h')
            (omega (arith, launch-took tc 0 [] h'))

    after_global-Balanced :
        (self : Ptr) (h h1 : S) (r : Status × Option (Queue ℕ) × S)
        → count h1 ≡ count h + weight a p owner self
        → QueueTook h1 r
        → Balanced h (after_global al platform cfg tc self r)
    after_global-Balanced self h h1 (st, none, h') e t = omega (arith, count-free owner self h')
    after_global-Balanced self h h1 (st, some g, h') e t =
        elim (Bool-cases (not platform.mutex_ok)) [
          | inl m ↦ rw m (give_up-Balanced self g h Status.err_internal h' (omega arith))
          | inr m ↦ elim (Bool-cases (not platform.cond_ok)) [
            | inl c ↦ rw (m, c) (give_up-Balanced self g h Status.err_internal h' (omega arith))
            | inr c ↦
                rw (m, c)
                  (after_array-Balanced self g h (fq_calloc al (some owner) tc 96 h')
                    (omega (arith, calloc-took owner tc 96 h')))
          ]
        ]

    after_self-Balanced :
        (h : S) (r : Ptr × S)
        → count r.1 ≡ count h + weight a p owner r.0
        → Balanced h (after_self al platform cfg tc r)
    after_self-Balanced h (none, h') e = omega arith
    after_self-Balanced h (some q, h') e =
        after_global-Balanced (some q) h h' (Ring.create al true cfg.queue_capacity (some owner) h')
          e (create_took cfg.queue_capacity owner h')

  -- `fq_scheduler_create`, with any configuration and whatever memory, mutexes and threads there are: where
  -- it refuses, every block that it took is freed as often as it was taken; where it makes a scheduler,
  -- the frees of `fq_scheduler_shutdown` give back what it took. Where it hangs nothing is said.
  pub create-Balanced :
      (platform : Platform) (cfg : Config) (h : S) → Balanced h (create_on al platform cfg h)
  unfolding create_on
  create-Balanced platform cfg h =
      after_self-Balanced platform cfg (worker_threads cfg.thread_count platform.cores) h
        (fq_calloc al (some (resolve cfg.allocator)) 1 200 h)
        (calloc-took (resolve cfg.allocator) 1 200 h)
