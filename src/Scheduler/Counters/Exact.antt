-- ===== src/Scheduler/Counters/Exact.antt =====
-- The counters are the numbers of submissions in each phase.
use fast_queue.Prelude.{
  ℕ, ◌+◌, ◌^◌, ◌≤◌, ◌<◌, ◌≡◌, sym, ◌∙◌, refl, some, arith, length, length-set, length-replicate,
  get_elem?, set,
}
use fast_queue.Scheduler.Defs.{Scheduler}
use fast_queue.Scheduler.Counters.Tally.{
  total, total-set, member-le-total, total-le-length, total-replicate,
}
use fast_queue.Scheduler.Counters.Machine.{
  Phase, Move, System, Run, Fresh, start_system, pick, close, here, then_step, note, ready, entered,
  awaited, queued, overflowed, taken, started, running, executed, completed, finished, drained,
  dropped, submits, works, cancels, start, drop,
}

-- 1 for a submission that the counter of that name counts in that phase
abbrev pub submitted_in : Phase → ℕ
submitted_in ready = 0
submitted_in entered = 0
submitted_in _ = 1

-- A task that `fq_scheduler_cancel_all` destroyed counts as pending for ever.
abbrev pub pending_in : Phase → ℕ
pending_in awaited = 1
pending_in queued = 1
pending_in overflowed = 1
pending_in taken = 1
pending_in started = 1
pending_in drained = 1
pending_in dropped = 1
pending_in _ = 0

abbrev pub active_in : Phase → ℕ
active_in started = 1
active_in running = 1
active_in executed = 1
active_in completed = 1
active_in _ = 0

abbrev pub completed_in : Phase → ℕ
completed_in completed = 1
completed_in finished = 1
completed_in _ = 0

abbrev pub canceled_in : Phase → ℕ
canceled_in dropped = 1
canceled_in _ = 0

-- Each counter is the number of submissions in its phases.
pub record Exact (y : System) : Type 0 where
  pub submitted_exact : y.scheduler.tasks_submitted ≡ total submitted_in y.submissions
  pub pending_exact : y.scheduler.tasks_pending ≡ total pending_in y.submissions
  pub active_exact : y.scheduler.tasks_active ≡ total active_in y.submissions
  pub completed_exact : y.scheduler.tasks_completed ≡ total completed_in y.submissions
  pub canceled_exact : y.scheduler.tasks_canceled ≡ total canceled_in y.submissions

-- The submissions weigh at most 1 each.
submitted_in-le : (p : Phase) → submitted_in p ≤ 1
submitted_in-le p = ground arith

pending_in-le : (p : Phase) → pending_in p ≤ 1
pending_in-le p = ground arith

active_in-le : (p : Phase) → active_in p ≤ 1
active_in-le p = ground arith

completed_in-le : (p : Phase) → completed_in p ≤ 1
completed_in-le p = ground arith

canceled_in-le : (p : Phase) → canceled_in p ≤ 1
canceled_in-le p = ground arith

-- A counter that a step takes from `a` to `b`, as a submission goes from weight `f` to weight `g`.
abbrev Shifts : ℕ → ℕ → ℕ → ℕ → Type 0
Shifts a b f g = f ≤ a → a + g < 2 ^ 32 + f → b + f ≡ a + g

record Shifted (s s' : Scheduler) (p p' : Phase) : Type 0 where
  submitted_shifts : Shifts s.tasks_submitted s'.tasks_submitted (submitted_in p) (submitted_in p')
  pending_shifts : Shifts s.tasks_pending s'.tasks_pending (pending_in p) (pending_in p')
  active_shifts : Shifts s.tasks_active s'.tasks_active (active_in p) (active_in p')
  completed_shifts : Shifts s.tasks_completed s'.tasks_completed (completed_in p) (completed_in p')
  canceled_shifts : Shifts s.tasks_canceled s'.tasks_canceled (canceled_in p) (canceled_in p')

Move-Shifted : {s s' : Scheduler} {p p' : Phase} → Move s p s' p' → Shifted s s' p p'
Move-Shifted (submits note) = ground arith
Move-Shifted (submits _) = ground arith
Move-Shifted (works start) = ground arith
Move-Shifted (works _) = ground arith
Move-Shifted (cancels drop) = ground arith
Move-Shifted (cancels _) = ground arith

module _ {y : System} {s' : Scheduler} {p p' : Phase} (i : ℕ) where
  Step-Exact :
      get_elem? y.submissions i ≡ some p
      → length y.submissions < 2 ^ 32
      → Move y.scheduler p s' p'
      → Exact y
      → Exact (record { scheduler = s'; submissions = set y.submissions i p' })
  Step-Exact e few mv x = record {
    submitted_exact = keeps submitted_in submitted_in-le x.submitted_exact m.submitted_shifts;
    pending_exact = keeps pending_in pending_in-le x.pending_exact m.pending_shifts;
    active_exact = keeps active_in active_in-le x.active_exact m.active_shifts;
    completed_exact = keeps completed_in completed_in-le x.completed_exact m.completed_shifts;
    canceled_exact = keeps canceled_in canceled_in-le x.canceled_exact m.canceled_shifts;
  }
    where
      m : Shifted y.scheduler s' p p'
      m = Move-Shifted mv

      keeps :
          (f : Phase → ℕ)
          → ((a : Phase) → f a ≤ 1)
          → {a b : ℕ} → a ≡ total f y.submissions
          → Shifts a b (f p) (f p')
          → b ≡ total f (set y.submissions i p')
      keeps f le {a} {b} same sh =
          let written = total-set f y.submissions i p p' e in
          let room : total f (set y.submissions i p') ≤ length y.submissions =
            omega (
              arith,
              total-le-length f le (set y.submissions i p'),
              length-set y.submissions i p',
            ) in
          let there = member-le-total f y.submissions i p e in
          omega (arith, sh (omega arith) (omega arith))

-- Every submission keeps its place.
Run-length : {y z : System} → Run y z → length z.submissions ≡ length y.submissions
Run-length here = refl
Run-length (then_step {z} r (pick i {p' = p'} e mv)) = length-set z.submissions i p' ∙ Run-length r
Run-length (then_step r close) = Run-length r

pub Run-Exact : {y z : System} → length y.submissions < 2 ^ 32 → Exact y → Run y z → Exact z
Run-Exact few x here = x
Run-Exact {y} few x (then_step {z} r (pick i e mv)) =
    Step-Exact {y = z} i e (omega (arith, Run-length r)) mv (Run-Exact few x r)
Run-Exact few x (then_step r close) = ground (arith, Run-Exact few x r)

-- From a new scheduler, whatever the interleaving of fewer than 2^32 submissions: the counters
-- submitted, pending, active, completed and canceled are the numbers of submissions in their phases,
-- and none of them is more than the number of submissions, so that none ever wraps.
pub counters-Exact :
    {s : Scheduler} {n : ℕ} {y : System}
    → Fresh s
    → n < 2 ^ 32
    → Run (start_system s n) y
    → Exact y
      × (y.scheduler.tasks_submitted ≤ n)
      × (y.scheduler.tasks_pending ≤ n)
      × (y.scheduler.tasks_active ≤ n)
      × (y.scheduler.tasks_completed ≤ n)
      × (y.scheduler.tasks_canceled ≤ n)
counters-Exact {s} {n} {y} f few r = (
  x,
  bound submitted_in submitted_in-le x.submitted_exact,
  bound pending_in pending_in-le x.pending_exact,
  bound active_in active_in-le x.active_exact,
  bound completed_in completed_in-le x.completed_exact,
  bound canceled_in canceled_in-le x.canceled_exact,
)
  where
    x : Exact y
    x =
        Run-Exact (omega (arith, length-replicate n ready))
          (record {
            submitted_exact = f.none_submitted ∙ sym (total-replicate submitted_in n ready refl);
            pending_exact = f.none_pending ∙ sym (total-replicate pending_in n ready refl);
            active_exact = f.none_active ∙ sym (total-replicate active_in n ready refl);
            completed_exact = f.none_completed ∙ sym (total-replicate completed_in n ready refl);
            canceled_exact = f.none_canceled ∙ sym (total-replicate canceled_in n ready refl);
          })
          r

    bound : (w : Phase → ℕ) → ((a : Phase) → w a ≤ 1) → {c : ℕ} → c ≡ total w y.submissions → c ≤ n
    bound w le {c} e =
        omega (arith, e, total-le-length w le y.submissions, Run-length r, length-replicate n ready)
