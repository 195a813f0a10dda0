-- ===== src/Scheduler/Counters/Idle.antt =====
-- What an answer of `fq_scheduler_is_idle` says of the submissions, while the other threads go on.
use fast_queue.Prelude.{
  ℕ, ◌^◌, ◌<◌, ◌≡◌, ◌≢◌, ap, subst, ◌∙◌, true, false, Option, none, some, ℕ_discrete, arith,
  get_elem?,
}
use fast_queue.Scheduler.Defs.{Scheduler, idle_reads}
use fast_queue.Scheduler.Idle.{wait_idle, wait_idle_stuck}
use fast_queue.Scheduler.Counters.Tally.{member-le-total, get_elem?-set_self, get_elem?-set_ne}
use fast_queue.Scheduler.Counters.Exact.{pending_in, active_in, counters-Exact}
use fast_queue.Scheduler.Counters.Machine.{
  Phase, Move, System, Step, Run, Fresh, start_system, pick, close, here, then_step, ready, entered,
  noted, awaited, overflowed, refused, running, executed, completed, finished, drained, dropped,
  submits, works, cancels, enter, take, execute, drain, drop,
}

Run-append : {x y z : System} → Run x y → Run y z → Run x z
Run-append r here = r
Run-append r (then_step q st) = then_step (Run-append r q) st

-- A submission that a queue took: the push of its `fq_scheduler_submit` succeeded.
abbrev pub Accepted : Phase → Type 0
Accepted ready = ⊥
Accepted entered = ⊥
Accepted noted = ⊥
Accepted awaited = ⊥
Accepted overflowed = ⊥
Accepted refused = ⊥
Accepted _ = Unit

-- A task that a worker runs or has run, and does not count as pending any more
abbrev Begun : Phase → Type 0
Begun running = Unit
Begun executed = Unit
Begun completed = Unit
Begun finished = Unit
Begun _ = ⊥

-- A task that was destroyed without a run
abbrev pub Destroyed : Phase → Type 0
Destroyed drained = Unit
Destroyed dropped = Unit
Destroyed _ = ⊥

Move-Begun : {s s' : Scheduler} {p p' : Phase} → Move s p s' p' → Begun p → Begun p'
Move-Begun (submits (enter h)) b = absurd b
Move-Begun (submits _) b = ground arith
Move-Begun (works execute) b = tt
Move-Begun (works _) b = ground arith
Move-Begun (cancels (drain h)) b = absurd b
Move-Begun (cancels _) b = ground arith

Move-Destroyed : {s s' : Scheduler} {p p' : Phase} → Move s p s' p' → Destroyed p → Destroyed p'
Move-Destroyed (submits (enter h)) b = absurd b
Move-Destroyed (submits _) b = ground arith
Move-Destroyed (works take) b = absurd b
Move-Destroyed (works _) b = ground arith
Move-Destroyed (cancels drop) b = tt
Move-Destroyed (cancels _) b = ground arith

abbrev Closed : (Phase → Type 0) → Type 0
Closed P = (s s' : Scheduler) (p p' : Phase) → Move s p s' p' → P p → P p'

same-some : {A : Type 0} {o : Option A} {a b : A} → o ≡ some a → o ≡ some b → a ≡ b
same-some e f = cc

-- What no move ends lasts for ever.
Step-keeps :
    (P : Phase → Type 0)
    → Closed P
    → {y z : System} (i : ℕ) {p : Phase} → Step y z
    → get_elem? y.submissions i ≡ some p
    → P p
    → (q : Phase) × (get_elem? z.submissions i ≡ some q) × P q
Step-keeps P c {y} i {p} (pick j {p = a} {p' = b} {s'} e mv) at h = elim (ℕ_discrete j i) [
  | yes same ↦
      let at' : get_elem? y.submissions j ≡ some p = rw same at in
      (
        b,
        rw (← same) (get_elem?-set_self y.submissions j a b e),
        c y.scheduler s' a b mv (subst P (same-some at' e) h),
      )
  | no other ↦ (p, get_elem?-set_ne y.submissions j i b other ∙ at, h)
]
Step-keeps P c i {p} close at h = (p, at, h)

Run-keeps :
    (P : Phase → Type 0)
    → Closed P
    → {y z : System} (i : ℕ) {p : Phase} → Run y z
    → get_elem? y.submissions i ≡ some p
    → P p
    → (q : Phase) × (get_elem? z.submissions i ≡ some q) × P q
Run-keeps P c i {p} here at h = (p, at, h)
Run-keeps P c i (then_step r st) at h =
    let (q, at', h') = Run-keeps P c i r at h in Step-keeps P c i st at' h'

abbrev Done : Phase → Type 0
Done finished = Unit
Done _ = ⊥

Move-Done : {s s' : Scheduler} {p p' : Phase} → Move s p s' p' → Done p → Done p'
Move-Done (submits (enter h)) b = absurd b
Move-Done (submits _) b = ground arith
Move-Done (works take) b = absurd b
Move-Done (works _) b = ground arith
Move-Done (cancels (drain h)) b = absurd b
Move-Done (cancels _) b = ground arith

Done-finished : (p : Phase) → Done p → p ≡ finished
Done-finished p d = ground arith

Accepted-Begun : (p : Phase) → Accepted p → pending_in p ≡ 0 → Begun p
Accepted-Begun p a e = ground arith

Begun-Done : (p : Phase) → Begun p → active_in p ≡ 0 → Done p
Begun-Done p a e = ground arith

Destroyed-pending_in : (p : Phase) → Destroyed p → pending_in p ≡ 1
Destroyed-pending_in p d = ground arith

-- An answer true needs a read of no pending task and then one of no active task.
idle_reads-true : (a b c d : ℕ) → idle_reads a b c d ≡ true → (a ≡ 0) × (b ≡ 0) × (c ≡ 0) × (d ≡ 0)
unfolding idle_reads
idle_reads-true a b c d e = ground arith

idle_reads-false : (a b c d : ℕ) → a ≢ 0 → idle_reads a b c d ≡ false
unfolding idle_reads
idle_reads-false a b c d h = ground arith

module _ {s : Scheduler} {n : ℕ} (f : Fresh s) (few : n < 2 ^ 32) where
  none_pending :
      {y : System} {p : Phase} (i : ℕ)
      → Run (start_system s n) y
      → y.scheduler.tasks_pending ≡ 0
      → get_elem? y.submissions i ≡ some p
      → pending_in p ≡ 0
  none_pending {y} {p} i r e at = omega (
    arith,
    (counters-Exact f few r).0.pending_exact,
    member-le-total pending_in y.submissions i p at,
  )

  none_active :
      {y : System} {p : Phase} (i : ℕ)
      → Run (start_system s n) y
      → y.scheduler.tasks_active ≡ 0
      → get_elem? y.submissions i ≡ some p
      → active_in p ≡ 0
  none_active {y} {p} i r e at = omega (
    arith,
    (counters-Exact f few r).0.active_exact,
    member-le-total active_in y.submissions i p at,
  )

  still_pending :
      {y z : System} {p : Phase} (i : ℕ)
      → Run (start_system s n) y
      → Run y z
      → get_elem? y.submissions i ≡ some p
      → Destroyed p
      → z.scheduler.tasks_pending ≢ 0
  still_pending {z} i r r' at h =
      let (q, at', h') = Run-keeps Destroyed (λ u v a b mv. Move-Destroyed mv) i r' at h in
      λ e. omega (arith, none_pending i (Run-append r r') e at', Destroyed-pending_in q h')

-- From a new scheduler, with fewer than 2^32 submissions: if the four reads of
-- `fq_scheduler_is_idle`, made in this order while the other threads go on, answer true, then every
-- submission that a queue had taken by the first read has been run to its end. Submissions made
-- meanwhile are not covered.
pub idle_means_done :
    {s : Scheduler} {n : ℕ} {a b c d : System} (i : ℕ) {p : Phase}
    → Fresh s
    → n < 2 ^ 32
    → Run (start_system s n) a
    → Run a b
    → Run b c
    → Run c d
    → idle_reads a.scheduler.tasks_pending b.scheduler.tasks_active c.scheduler.tasks_pending
        d.scheduler.tasks_active
      ≡ true
    → get_elem? a.submissions i ≡ some p
    → Accepted p
    → get_elem? d.submissions i ≡ some finished
idle_means_done {a} {b} {c} {d} i {p} f few ra ab bc cd idle at acc =
    let zero_reads =
      idle_reads-true a.scheduler.tasks_pending b.scheduler.tasks_active c.scheduler.tasks_pending
        d.scheduler.tasks_active idle in
    let (q, at_b, begun) =
      Run-keeps Begun (λ u v x y mv. Move-Begun mv) i ab at
        (Accepted-Begun p acc (none_pending f few i ra zero_reads.0 at)) in
    let done = Begun-Done q begun (none_active f few i (Run-append ra ab) zero_reads.1 at_b) in
    let (r, at_d, done_d) =
      Run-keeps Done (λ u v x y mv. Move-Done mv) i (Run-append bc cd) at_b done in
    at_d ∙ ap (λ x. some x) (Done-finished r done_d)

-- Once `fq_scheduler_cancel_all` has destroyed a task of a queue, `fq_scheduler_wait_idle` never
-- returns, whatever the other threads do between its looks: the task counts as pending for ever.
pub wait_idle_hangs :
    {s : Scheduler} {n : ℕ} {y : System} (i : ℕ) {p : Phase} (seen : ℕ → System) (fuel k : ℕ)
    → Fresh s
    → n < 2 ^ 32
    → Run (start_system s n) y
    → get_elem? y.submissions i ≡ some p
    → Destroyed p
    → ((j : ℕ) → Run y (seen j))
    → wait_idle (λ j. some (seen j).scheduler) fuel k ≡ none
wait_idle_hangs i seen fuel k f few r at h later =
    wait_idle_stuck (λ j. (seen j).scheduler) fuel k (λ j. still_pending f few i r (later j) at h)
