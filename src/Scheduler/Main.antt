-- ===== src/Scheduler/Main.antt =====
-- The whole of `worker_main`.
use Prim.Native.String.{String}
use fast_queue.Prelude.{
  ℕ, zero, suc, ◌+◌, ◌≡◌, refl, sym, ap, subst, ◌∙◌, Bool, true, false, Option, none, some, inl,
  inr, Bool-cases, Option-cases, if◌then◌else◌, ◌==◌, not, ◌&&◌, get_elem?,
}
use fast_queue.Types.{LogLevel}
use fast_queue.Memory.Allocator.{Allocators}
use fast_queue.Queue.Ring.{empty}
use fast_queue.World.Defs.{World, M, ◌>>=◌, ◌>>◌, pure}
use fast_queue.Future.Laws.{bind-inv}
use fast_queue.Scheduler.Defs.{Worker, Scheduler, log_msg, load_worker, is_shutdown}
use fast_queue.Scheduler.Round.{load_worker_lem}
use fast_queue.Scheduler.Worker.{
  Surroundings, Found, may_exit, find_task, run_round, idle_round, worker_round,
}

-- What a worker's thread meets: the surroundings of each round, what the other threads have made of the
-- scheduler, the tasks and the futures when it begins, and what `snprintf` writes.
pub record Thread (S : Type 0) : Type 0 where
  pub env : ℕ → Surroundings
  pub others : ℕ → Scheduler → World S → Scheduler × World S
  pub started : ℕ → String
  pub stopping : ℕ → String

module _ {S : Type 0} (al : Allocators S) (th : Thread S) (id : ℕ) where
  -- The other threads up to the start of the round `n`
  abbrev pub meet : ℕ → Scheduler → M S Scheduler
  meet n s w = some (th.others n s w)

  -- The loop, from the round `n` on, on fuel: the scheduler as the worker leaves it, or `none` for a
  -- worker that is still in its loop.
  unfoldable pub worker_loop : ℕ → ℕ → Scheduler → ℕ → M S (Option Scheduler)
  worker_loop zero n s backoff = pure none
  worker_loop (suc fuel) n s backoff = do
    x ← meet n s
    r ← worker_round al (th.env n) id x backoff
    if r.0 then pure (some r.1) else worker_loop fuel (n + 1) r.1 r.2

  -- The end of `worker_main`
  abbrev pub stopped : Option Scheduler → M S (Option Scheduler)
  stopped none = pure none
  stopped (some s) = do log_msg s LogLevel.log_debug (th.stopping id); pure (some s)

  -- `worker_main`
  unfoldable pub worker_main : ℕ → Scheduler → M S (Option Scheduler)
  worker_main fuel s = do
    log_msg s LogLevel.log_debug (th.started id)
    left ← worker_loop fuel 0 s 0
    stopped left

-- A worker may leave with the scheduler `s`: it is shut down, and the queues that are the worker's to
-- empty report that they are empty.
pub record MayLeave (id : ℕ) (s : Scheduler) : Type 0 where
  pub shut : is_shutdown (some s) ≡ true
  pub global_empty : empty (some s.global_queue) ≡ true
  pub own : (k : Worker) × (get_elem? s.workers id ≡ some k) × (empty (some k.queue) ≡ true)

nothing : {A : Type 0} {a : A} → none ≡ some a → ⊥
nothing e = cc

inside : {A : Type 0} {a b : A} → some a ≡ some b → a ≡ b
inside e = cc

first :
    {A B : Type 0} {a a' : A} {b b' : B}
    → ◌≡◌ {A = Option (A × B)} (some (a, b)) (some (a', b'))
    → a ≡ a'
first e = cc

and_both : (b c : Bool) → (b && c) ≡ true → (b ≡ true) × (c ≡ true)
and_both true c e = (refl, e)
and_both false c e = absurd (cc)

load_worker-inv :
    {S : Type 0} (s : Scheduler) (i : ℕ) (w : World S) {k : Worker} {u : World S}
    → load_worker s i w ≡ some (k, u)
    → get_elem? s.workers i ≡ some k
load_worker-inv s i w e = elim (Option-cases (get_elem? s.workers i)) [
  | inl nobody ↦ absurd (
      nothing (
        sym (ap (λ (o : Option Worker). elim o [ none ↦ none | some k ↦ some (k, w) ]) nobody) ∙ e))
  | inr (k', there) ↦
      there ∙ ap (λ (x : Worker). some x) (first (sym (load_worker_lem s i k' w there) ∙ e))
]

may_exit-inv :
    (id : ℕ) (s : Scheduler) (k : Worker)
    → get_elem? s.workers id ≡ some k
    → may_exit s k ≡ true
    → MayLeave id s
unfolding may_exit is_shutdown
may_exit-inv id s k there e =
    let p = and_both (not (s.shutdown_flag == 0)) _ e in
    let q = and_both (empty (some s.global_queue)) (empty (some k.queue)) p.1 in
    record { shut = p.0; global_empty = q.0; own = (k, there, q.1) }

module _ {S : Type 0} (al : Allocators S) where
  -- A round that ends the loop leaves the scheduler as it was.
  worker_round-exit :
      (e : Surroundings) (id : ℕ) (s : Scheduler) (b : ℕ) (r : Bool × Scheduler × ℕ)
      (w w' : World S)
      → worker_round al e id s b w ≡ some (r, w')
      → r.0 ≡ true
      → (r.1 ≡ s) × MayLeave id s
  unfolding worker_round
  worker_round-exit e id s b r w w' run ends =
      let (k, u, loads, rest) = bind-inv (load_worker s id) _ w run in
      elim (Bool-cases (may_exit s k)) [
        | inl leaves ↦ (
          ap (λ (x : Bool × Scheduler × ℕ). x.1) (sym (first (rw leaves at rest))),
          may_exit-inv id s k (load_worker-inv s id w loads) leaves,
        )
        | inr stays ↦
            let (f, u1, finds, round) = bind-inv (find_task e id s) _ u (rw stays at rest) in
            let (q, u2, runs, done) = bind-inv (after_find f) _ u1 round in
            absurd (never (ap (λ (x : Bool × Scheduler × ℕ). x.0) (first done) ∙ ends))
      ]
    where
      never : false ≡ true → ⊥
      never h = cc

      after_find : Found → M S (Scheduler × ℕ)
      after_find f = elim f.1 [
        | none ↦ idle_round e id f.2 b
        | some task ↦ if f.0 then run_round al e task f.2 else idle_round e id f.2 b
      ]

  module _ (th : Thread S) (id : ℕ) where
    -- The worker read the scheduler `s` at the start of some round.
    abbrev pub Read : Scheduler → Type 0
    Read s = (n : ℕ) × (x : Scheduler) × (w : World S) × (s ≡ (th.others n x w).0)

    worker_loop-leaves :
        (fuel n : ℕ) (s : Scheduler) (b : ℕ) {s' : Scheduler} (w : World S) {w' : World S}
        → worker_loop al th id fuel n s b w ≡ some (some s', w')
        → MayLeave id s' × Read s'
    unfolding worker_loop
    worker_loop-leaves zero n s b w e = absurd (nothing (first e))
    worker_loop-leaves (suc fuel) n s b {s'} w e =
        let now = th.others n s w in
        let (r, u, round, rest) = bind-inv (worker_round al (th.env n) id now.0 b) _ now.1 e in
        elim (Bool-cases r.0) [
          | inl ends ↦
              let (same, may) = worker_round-exit (th.env n) id now.0 b r now.1 u round ends in
              let out : now.0 ≡ s' = sym same ∙ inside (first (rw ends at rest)) in
              (subst (MayLeave id) out may, (n, s, w, sym out))
          | inr goes_on ↦ worker_loop-leaves fuel (n + 1) r.1 r.2 u (rw goes_on at rest)
        ]

    stopped-inv :
        (o : Option Scheduler) {s' : Scheduler} (u : World S) {w' : World S}
        → stopped al th id o u ≡ some (some s', w')
        → o ≡ some s'
    stopped-inv none u e = first e
    stopped-inv (some x) u e =
        let (logged, u1, log, rest) =
          bind-inv (log_msg x LogLevel.log_debug (th.stopping id)) _ u e in
        first rest

    -- `worker_main` ends only on a scheduler that is shut down, as the worker read it at the start of a
    -- round, and whose global queue and whose queue of that worker report that they are empty.
    pub worker_main_leaves :
        (fuel : ℕ) (s s' : Scheduler) (w w' : World S)
        → worker_main al th id fuel s w ≡ some (some s', w')
        → MayLeave id s' × Read s'
    unfolding worker_main
    worker_main_leaves fuel s s' w w' e =
        let (started, u, log, rest) =
          bind-inv (log_msg s LogLevel.log_debug (th.started id)) _ w e in
        let (left, u1, loop, last) = bind-inv (worker_loop al th id fuel 0 s 0) _ u rest in
        worker_loop-leaves fuel 0 s 0 u (loop ∙ ap (λ o. some (o, u1)) (stopped-inv left u1 last))
