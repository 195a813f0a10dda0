-- ===== src/Scheduler/Steal.antt =====
-- The tries of one queue and the loop of `try_steal`, against the search through the lists.
use fast_queue.Prelude.{
  ℕ, zero, suc, ◌+◌, ◌%◌, ◌^◌, ◌<◌, ◌≡◌, refl, ap, ◌∙◌, Bool, true, false, Option, none, some, List,
  [], ◌∷◌, inl, inr, Bool-cases, if◌then◌else◌, ◌==◌, add32, length, length-set, get_or, arith,
}
use fast_queue.Types.{status_ok}
use fast_queue.Queue.Fifo
use fast_queue.Queue.Ring.{Queue, try_pop_task}
use fast_queue.Queue.Refine.{Holds, pop_refines}
use fast_queue.Queue.Drain.{try_pop-pop}
use fast_queue.World.Defs.{World, M, ◌>>=◌, pure}
use fast_queue.Future.Laws.{bind-some}
use fast_queue.Scheduler.Defs.{Scheduler, load_worker, store_queue}
use fast_queue.Scheduler.Worker.{Found, pop_global, pop_worker, steal_loop}
use fast_queue.Scheduler.Views.{View, EachHolds-get, EachHolds-set, worker_there}
use fast_queue.Scheduler.Search.{
  Source, Lists, first_of, attempt, resume, search_lists, victims, is_some, shared, queue_of,
}

-- `s'` is `s` but for what its queues hold.
pub record Requeued (s s' : Scheduler) : Type 0 where
  pub rest_same : s' ≡ record s { workers = s'.workers; global_queue = s'.global_queue }
  pub workers_same : length s'.workers ≡ length s.workers

pub Requeued-trans : {s t u : Scheduler} → Requeued s t → Requeued t u → Requeued s u
Requeued-trans {s} {t} {u} a b = record {
  rest_same =
      b.rest_same
      ∙ ap (λ (x : Scheduler). record x { workers = u.workers; global_queue = u.global_queue })
          a.rest_same;
  workers_same = b.workers_same ∙ a.workers_same;
}

-- What a search of the program's found against what a search of the lists found
pub record Outcome (s : Scheduler) (r : Found) (a : Option ℕ × Lists) : Type 0 where
  pub told : r.0 ≡ is_some a.0
  pub task : r.1 ≡ a.0
  pub view : View r.2 a.1.0 a.1.1
  pub kept : Requeued s r.2

try_pop_first : (free : Bool) {q : Queue ℕ} (l : List ℕ) → Holds q l → record {
  told : status_ok (try_pop_task free q none).0 ≡ is_some (first_of free l).0;
  task : (try_pop_task free q none).1 ≡ (first_of free l).0;
  held : Holds (try_pop_task free q none).2 (first_of free l).1;
}
unfolding Fifo.pop
try_pop_first false {q} l h =
    rw ((try_pop-pop q none).1) (record { told = refl; task = refl; held = h })
try_pop_first true {q} [] h =
    let p = pop_refines [] none h in
    rw ((try_pop-pop q none).0) (record { told = ap status_ok p.0; task = p.1; held = p.2 })
try_pop_first true {q} (t ∷ ts) h =
    let p = pop_refines (t ∷ ts) none h in
    rw ((try_pop-pop q none).0) (record { told = ap status_ok p.0; task = p.1; held = p.2 })

pub pop_global_lem :
    (free : Bool) (s : Scheduler) (v : Lists)
    → View s v.0 v.1
    → Outcome s (pop_global free s none) (attempt free shared v)
pop_global_lem free s v h =
    let p = try_pop_first free v.0 h.global in
    record {
      told = p.told;
      task = p.task;
      view = record { global = p.held; each = h.each };
      kept = record { rest_same = refl; workers_same = refl };
    }

-- A thief of a scheduler with `count` workers
pub record Thief (s : Scheduler) (v : Lists) (count : ℕ) : Type 0 where
  pub seen : View s v.0 v.1
  pub count_eq : s.worker_count ≡ count
  pub array : length s.workers ≡ count

pub Thief-Outcome :
    {s : Scheduler} {v : Lists} {count : ℕ} {r : Found} (a : Option ℕ × Lists)
    → Thief s v count
    → Outcome s r a
    → Thief r.2 a.1 count
Thief-Outcome a k o = record {
  seen = o.view;
  count_eq = ap (λ (x : Scheduler). x.worker_count) o.kept.rest_same ∙ k.count_eq;
  array = o.kept.workers_same ∙ k.array;
}

module _ {S : Type 0} where
  pub pop_worker_lem :
      (free : Bool) (s : Scheduler) (v : Lists) (i : ℕ) (w : World S)
      → View s v.0 v.1
      → i < length s.workers
      → (r : Found) × (pop_worker free i s none w ≡ some (r, w))
        × Outcome s r (attempt free (queue_of i) v)
  unfolding pop_worker
  pop_worker_lem free s v i w h lt =
      let (k, e) = worker_there s.workers i lt in
      let p = try_pop_first free (get_or v.1 i []) (EachHolds-get s.workers v.1 i k h.each e) in
      let t = try_pop_task free k.queue none in
      (
        (status_ok t.0, t.1, store_queue s i k t.2),
        rw (e, ◌>>=◌, load_worker) refl,
        record {
          told = p.told;
          task = p.task;
          view = record {
            global = h.global;
            each = EachHolds-set s.workers v.1 i (record k { queue = t.2 }) _ h.each p.held;
          };
          kept = record { rest_same = refl; workers_same = length-set s.workers i _ };
        },
      )

  -- A further search if the first found nothing
  pub Outcome-next :
      {s : Scheduler} {r : Found} (a : Option ℕ × Lists) (next : Lists → Option ℕ × Lists)
      (m : Found → M S Found) (w : World S)
      → Outcome s r a
      → (Outcome s r (none, a.1)
          → (r' : Found) × (m r w ≡ some (r', w)) × Outcome r.2 r' (next a.1))
      → (r' : Found) × ((if r.0 then pure r else m r) w ≡ some (r', w))
        × Outcome s r' (resume next a)
  Outcome-next {r} (some t, v) next m w o h =
      (r, ap (λ (b : Bool). (if b then pure r else m r) w) o.told, o)
  Outcome-next {r} (none, v) next m w o h =
      let (r', e, o') = h o in
      (
        r',
        ap (λ (b : Bool). (if b then pure r else m r) w) o.told ∙ e,
        record {
          told = o'.told;
          task = o'.task;
          view = o'.view;
          kept = Requeued-trans o.kept o'.kept;
        },
      )

  pub steal_loop_lem :
      (free : Source → Bool) (count n i id : ℕ) (s : Scheduler) (v : Lists) (task : Option ℕ)
      (w : World S)
      → Thief s v count
      → 0 < count
      → id + 1 + i + n < 2 ^ 32
      → task ≡ none
      → (r : Found) × (steal_loop (λ j. free (queue_of j)) n i id s task w ≡ some (r, w))
        × Outcome s r (search_lists free (victims n i id count) v)
  unfolding steal_loop
  steal_loop_lem free count zero i id s v task w k pos small e = (
    (false, none, s),
    ap (λ (o : Option ℕ). some ((false, o, s), w)) e,
    record {
      told = refl;
      task = refl;
      view = k.seen;
      kept = record { rest_same = refl; workers_same = refl };
    },
  )
  steal_loop_lem free count (suc n) i id s v task w k pos small e =
      elim (Bool-cases ((id + 1 + i) % count == id)) [
        | inl self ↦
            rw (index, self)
              (steal_loop_lem free count n (i + 1) id s v task w k pos (omega arith) e)
        | inr other ↦
            rw (index, other, e)
              (let x = queue_of ((id + 1 + i) % count) in
                let a = attempt (free x) x v in
                let (r, run, o) =
                  pop_worker_lem (free x) s v ((id + 1 + i) % count) w k.seen
                    (rw (k.array) in_range) in
                let (r', run', o') =
                  Outcome-next a (search_lists free (victims n (i + 1) id count))
                    (λ r. steal_loop (λ j. free (queue_of j)) n (i + 1) id r.2 r.1) w o
                    (λ o1.
                      steal_loop_lem free count n (i + 1) id r.2 a.1 r.1 w (Thief-Outcome a k o) pos
                        (omega arith) o1.task) in
                (
                  r',
                  bind-some (pop_worker (free x) ((id + 1 + i) % count) s none) _ w run ∙ run',
                  o',
                ))
      ]
    where
      index : add32 (add32 id 1) i % s.worker_count ≡ (id + 1 + i) % count
      index =
          rw (k.count_eq)
            (ap (λ (x : ℕ). x % count) {x = add32 (add32 id 1) i} {y = id + 1 + i} (omega arith))

      in_range : (id + 1 + i) % count < count
      in_range = grind arith
