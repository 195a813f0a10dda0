-- ===== src/Scheduler/Accounting.antt =====
-- What the scheduler's calls do to its counters.
use fast_queue.Prelude.{
  ℕ, ◌%◌, ◌^◌, ◌<◌, ◌≡◌, ◌≢◌, refl, ap, ◌∙◌, Bool, true, false, none, some, [], ◌∷◌, ◌++◌, ◌==◌,
  not, if◌then◌else◌, ◌&&◌, inl, inr, add32, leb, arith, Bool-cases, get_elem?,
}
use fast_queue.Types.{Status, status_ok, Priority, priority_level, Ptr}
use fast_queue.Queue.Ring.{push_task}
use fast_queue.World.Defs.{Event, Task, World, ◌>>=◌, pure, load_task}
use fast_queue.Task
use fast_queue.Future.Laws.{bind-some}
use fast_queue.Scheduler.Defs.{Worker, Scheduler, is_shutdown, load_worker, store_queue}
use fast_queue.Scheduler.Submit.{
  goes_global, push_global, push_worker, route, settle, submit, counted, uncounted,
}

-- The counters of `s'` are those of `s`.
pub record SameCounts (s s' : Scheduler) : Type 0 where
  pub submitted_eq : s'.tasks_submitted ≡ s.tasks_submitted
  pub completed_eq : s'.tasks_completed ≡ s.tasks_completed
  pub canceled_eq : s'.tasks_canceled ≡ s.tasks_canceled
  pub pending_eq : s'.tasks_pending ≡ s.tasks_pending
  pub active_eq : s'.tasks_active ≡ s.tasks_active

-- Where a task goes, once its priority and the worker `k` at `idx` are known.
unfoldable pub placed : Scheduler → ℕ → Worker → ℕ → Status × Scheduler
placed s idx k task =
    let pushed = push_task k.queue task in
    let s' = store_queue s idx k pushed.1 in
    if not (status_ok pushed.0) then push_global s' task else (pushed.0, s')

unfoldable pub routed : Scheduler → ℕ → Priority → ℕ → Worker → Status × Scheduler × ℕ
routed s task priority n k =
    if goes_global s priority
    then (let r = push_global s task in (r.0, r.1, n))
    else (let r = placed s (n % s.worker_count) k task in (r.0, r.1, add32 n 1))

placed-SameCounts :
    (s : Scheduler) (idx : ℕ) (k : Worker) (task : ℕ) → SameCounts s (placed s idx k task).1
unfolding placed
placed-SameCounts s idx k task = elim (Bool-cases (not (status_ok (push_task k.queue task).0))) [
  | inl e ↦ rw e (ground arith)
  | inr e ↦ rw e (ground arith)
]

routed-SameCounts :
    (s : Scheduler) (task : ℕ) (priority : Priority) (n : ℕ) (k : Worker)
    → SameCounts s (routed s task priority n k).1
unfolding routed
routed-SameCounts s task priority n k = elim (Bool-cases (goes_global s priority)) [
  | inl e ↦ rw e (ground arith)
  | inr e ↦ rw e (placed-SameCounts s (n % s.worker_count) k task)
]

-- Without the priority setting the priority does not matter.
routed_if :
    (s : Scheduler) (task : ℕ) (p : Priority) (n : ℕ) (k : Worker)
    → routed s task (if s.enable_priority then p else Priority.normal) n k ≡ routed s task p n k
unfolding routed goes_global
routed_if s task p n k = rw (test s.enable_priority) refl
  where
    test :
        (b : Bool)
        → (b && leb 2 (priority_level (if b then p else Priority.normal)))
          ≡ (b && leb 2 (priority_level p))
    test true = refl
    test false = refl

not-zero : (n : ℕ) → n ≢ 0 → not (n == 0) ≡ true
not-zero n h = ground arith

module _ {S : Type 0} where
  push_worker_lem :
      (s : Scheduler) (idx task : ℕ) (k : Worker) (w : World S)
      → get_elem? s.workers idx ≡ some k
      → push_worker s idx task w ≡ some (placed s idx k task, w)
  unfolding push_worker placed
  push_worker_lem s idx task k w e = rw (e, ◌>>=◌, load_worker) refl

  route_lem :
      (s : Scheduler) (task : ℕ) (priority : Priority) (n : ℕ) (k : Worker) (w : World S)
      → get_elem? s.workers (n % s.worker_count) ≡ some k
      → route s task priority n w ≡ some (routed s task priority n k, w)
  unfolding route routed
  route_lem s task priority n k w e = elim (Bool-cases (goes_global s priority)) [
    | inl g ↦ rw g refl
    | inr g ↦ rw g (
        bind-some (push_worker s (n % s.worker_count) task) _ w
          (push_worker_lem s (n % s.worker_count) task k w e))
  ]

  -- The outcome of a submission from what the push gave.
  unfoldable pub settled : Status × Scheduler × ℕ → World S → (Status × Scheduler × ℕ) × World S
  settled r w =
      if status_ok r.0
      then (r, record w { events = w.events ++ Event.woke_one_worker ∷ [] })
      else ((r.0, uncounted r.1, r.2), w)

  settle_lem :
      (r : Status × Scheduler × ℕ) (w : World S) → settle r.0 r.1 r.2 w ≡ some (settled r w)
  unfolding settle settled
  settle_lem r w = elim (Bool-cases (status_ok r.0)) [ inl e ↦ rw e refl | inr e ↦ rw e refl ]

  read_if :
      (b : Bool) (task : ℕ) (t : Task) (w : World S)
      → w.tasks task ≡ some t
      → (if b then Task.task_priority (some task) else pure Priority.normal) w
        ≡ some (if b then t.priority else Priority.normal, w)
  unfolding Task.task_priority
  read_if true task t w e = rw (e, ◌>>=◌, load_task) refl
  read_if false task t w e = refl

  pub submit_lem :
      (s : Scheduler) (task n : ℕ) (t : Task) (k : Worker) (w : World S)
      → s.shutdown_flag ≡ 0
      → w.tasks task ≡ some t
      → get_elem? s.workers (n % s.worker_count) ≡ some k
      → submit s (some task) n w ≡ some (settled (routed (counted s) task t.priority n k) w)
  unfolding submit
  submit_lem s task n t k w f e ek = rw open_flag (
      bind-some (if s.enable_priority then Task.task_priority (some task) else pure Priority.normal)
        (λ priority. route (counted s) task priority n >>= λ r. settle r.0 r.1 r.2) w
        (read_if s.enable_priority task t w e)
      ∙ bind-some (route (counted s) task seen n) (λ r. settle r.0 r.1 r.2) w
          (route_lem (counted s) task seen n k w ek)
      ∙ settle_lem (routed (counted s) task seen n k) w
      ∙ ap (λ r. some (settled r w)) (routed_if (counted s) task t.priority n k))
    where
      seen : Priority
      seen = if s.enable_priority then t.priority else Priority.normal

      open_flag : not (s.shutdown_flag == 0) ≡ false
      open_flag = ap (λ (m : ℕ). not (m == 0)) f

-- What a submission did: the task counts as submitted whether or not it found room, as pending only
-- if it did, and no other counter moves.
pub record Counted (s : Scheduler) (st : Status) (s' : Scheduler) : Type 0 where
  pub submitted_next : s'.tasks_submitted ≡ add32 s.tasks_submitted 1
  pub pending_next :
      s'.tasks_pending ≡ (if status_ok st then add32 s.tasks_pending 1 else s.tasks_pending)
  pub completed_kept : s'.tasks_completed ≡ s.tasks_completed
  pub canceled_kept : s'.tasks_canceled ≡ s.tasks_canceled
  pub active_kept : s'.tasks_active ≡ s.tasks_active

settled-Counted :
    {S : Type 0} (s : Scheduler) (r : Status × Scheduler × ℕ) (w : World S)
    → s.tasks_pending < 2 ^ 32
    → SameCounts (counted s) r.1
    → Counted s (settled r w).0.0 (settled r w).0.1
unfolding settled
settled-Counted s r w small c = elim (Bool-cases (status_ok r.0)) [
  | inl e ↦ rw e (ground arith)
  | inr e ↦ rw e (ground arith)
]

-- `fq_scheduler_submit` on an open scheduler always returns, given the task and the worker that the
-- thread's turn names: the number of submitted tasks goes up by one whatever the outcome, the number
-- of pending ones only if the status is FQ_OK, and the other counters stay.
pub submit_counts :
    {S : Type 0} (s : Scheduler) (task n : ℕ) (t : Task) (k : Worker) (w : World S)
    → s.shutdown_flag ≡ 0
    → s.tasks_pending < 2 ^ 32
    → w.tasks task ≡ some t
    → get_elem? s.workers (n % s.worker_count) ≡ some k
    → (r : Status × Scheduler × ℕ) × (w' : World S) × (submit s (some task) n w ≡ some (r, w'))
      × Counted s r.0 r.1
submit_counts s task n t k w f small e ek =
    let r = settled (routed (counted s) task t.priority n k) w in
    (
      r.0,
      r.1,
      submit_lem s task n t k w f e ek,
      settled-Counted s _ w small (routed-SameCounts (counted s) task t.priority n k),
    )

-- `fq_scheduler_submit` refuses every task once the scheduler is shut down, and then changes nothing;
-- so it does with a NULL task.
pub submit_refuses :
    {S : Type 0} (s : Scheduler) (task : Ptr) (n : ℕ) (w : World S)
    → s.shutdown_flag ≢ 0
    → (submit s task n w
        ≡ some ((elim task [ none ↦ Status.err_inval | some _ ↦ Status.err_closed ], s, n), w))
      × (is_shutdown (some s) ≡ true)
unfolding submit is_shutdown
submit_refuses s none n w h = (refl, ground arith)
submit_refuses s (some task) n w h = (rw (not-zero s.shutdown_flag h) refl, ground arith)
