-- ===== src/Queue/Calls.antt =====
-- Runs of calls on one queue: the functions of queue.c against the bounded first-in first-out queue.
use fast_queue.Prelude.{
  ℕ, zero, suc, ◌+◌, ◌-◌, ◌≡◌, refl, subst, ap, ap₂, ◌∙◌, Bool, true, false, Option, none, some,
  List, [], ◌∷◌, map, arith, length, take, drop, ◌==◌,
}
use fast_queue.Types.{Status}
use fast_queue.Queue.Fifo
use fast_queue.Queue.Ring.{
  Queue, push_task, push, pop_task, pop, try_pop, size, empty, drain_loop, drain,
}
use fast_queue.Queue.Refine.{Holds, push_refines, pop_refines}
use fast_queue.Queue.Drain.{size-length, drain_loop-take, try_pop-pop}

-- A call: of a push the task, which may be NULL; of a pop, a try_pop or a drain whether the out pointer
-- is there, and what is behind it; of a try_pop also whether its trylock takes the lock.
pub data Call (T : Type 0) : Type 0 where
  pushes : (task : Option T) → Call T
  pops : (given : Bool) (old : Option T) → Call T
  tries : (acquired given : Bool) (old : Option T) → Call T
  drains : (given : Bool) (max : ℕ) → Call T
  asks_size : Call T
  asks_empty : Call T

-- What a call returns, and writes through its out pointer
pub data Answer (T : Type 0) : Type 0 where
  status : (st : Status) → Answer T
  task : (st : Status) (out : Option T) → Answer T
  tasks : (out : List (Option T)) → Answer T
  number : (n : ℕ) → Answer T
  truth : (b : Bool) → Answer T

module _ {T : Type 0} where
  -- One call of the program's functions
  unfoldable pub call : Queue T → Call T → Answer T × Option (Queue T)
  call q (pushes t) = let (st, o) = push (some q) t in (status st, o)
  call q (pops given old) = let (st, out, o) = pop (some q) given old in (task st out, o)
  call q (tries acquired given old) =
      let (st, out, o) = try_pop acquired (some q) given old in (task st out, o)
  call q (drains given n) = let (out, o) = drain (some q) given n in (tasks out, o)
  call q asks_size = (number (size (some q)), some q)
  call q asks_empty = (truth (empty (some q)), some q)

  -- The same call on the list of the tasks held, where `room` is the bound
  unfoldable pub promised : ℕ → List T → Call T → Answer T × List T
  promised room xs (pushes none) = (status Status.err_inval, xs)
  promised room xs (pushes (some t)) = let (st, xs') = Fifo.push room xs t in (status st, xs')
  promised room xs (pops false old) = (task Status.err_inval old, xs)
  promised room xs (pops true old) = let (st, out, xs') = Fifo.pop xs old in (task st out, xs')
  promised room xs (tries acquired false old) = (task Status.err_inval old, xs)
  promised room xs (tries false true old) = (task Status.err_busy old, xs)
  promised room xs (tries true true old) =
      let (st, out, xs') = Fifo.pop xs old in (task st out, xs')
  promised room xs (drains false n) = (tasks [], xs)
  promised room xs (drains true n) = (tasks (map some (take n xs)), drop n xs)
  promised room xs asks_size = (number (length xs), xs)
  promised room xs asks_empty = (truth (length xs == 0), xs)

  -- The answers of a run of calls, and the queue that it leaves
  unfoldable pub run_calls : Queue T → List (Call T) → List (Answer T) × Option (Queue T)
  run_calls q [] = ([], some q)
  run_calls q (c ∷ cs) =
      let (a, left) = call q c in
      elim left [ none ↦ (a ∷ [], none) | some q' ↦ (a ∷ (run_calls q' cs).0, (run_calls q' cs).1) ]

  unfoldable pub promised_run : ℕ → List T → List (Call T) → List (Answer T) × List T
  promised_run room xs [] = ([], xs)
  promised_run room xs (c ∷ cs) =
      let (a, xs') = promised room xs c in let (as', ys) = promised_run room xs' cs in (a ∷ as', ys)

  -- A queue of capacity `room + 1` that holds `xs`
  record Kept (room : ℕ) (q : Queue T) (xs : List T) : Type 0 where
    holds : Holds q xs
    sized : q.capacity ≡ room + 1

  push_task-capacity : (q : Queue T) (t : T) → (push_task q t).1.capacity ≡ q.capacity
  unfolding push_task
  push_task-capacity q t = ground arith

  pop_task-capacity : (q : Queue T) (t : Option T) → (pop_task q t).2.capacity ≡ q.capacity
  unfolding pop_task
  pop_task-capacity q t = ground arith

  drain_loop-capacity : (n : ℕ) (q : Queue T) → (drain_loop n q).1.capacity ≡ q.capacity
  unfolding drain_loop
  drain_loop-capacity zero q = refl
  drain_loop-capacity (suc n) q =
      ground (arith, pop_task-capacity q none, drain_loop-capacity n (pop_task q none).2)

  -- A call answers as promised and leaves what is promised.
  abbrev AsPromised : ℕ → List T → Queue T → Call T → Type 0
  AsPromised room xs q c =
      ((call q c).0 ≡ (promised room xs c).0)
      × (q' : Queue T) × ((call q c).1 ≡ some q')
      × Kept room q' (promised room xs c).1

  drained_lem : (n : ℕ) (xs : List T) (q : Queue T) {room : ℕ} → Kept room q xs → record {
    out : (drain (some q) true n).0 ≡ map some (take n xs);
    rest : (q' : Queue T) × ((drain (some q) true n).1 ≡ some q') × Kept room q' (drop n xs);
    no_array : drain (some q) false n ≡ ([], some q);
  }
  unfolding drain
  drained_lem zero xs q k = record { out = refl; rest = (q, refl, k); no_array = refl }
  drained_lem (suc n) xs q k =
      let p = drain_loop-take (suc n) xs k.holds in
      record {
        out = ground (arith, p.0);
        rest = (
          (drain_loop (suc n) q).1,
          ground arith,
          record { holds = p.1; sized = drain_loop-capacity (suc n) q ∙ k.sized },
        );
        no_array = refl;
      }

  popped_lem :
      (room : ℕ) (xs : List T) (q : Queue T) (old : Option T)
      → Kept room q xs
      → AsPromised room xs q (pops true old)
  unfolding call promised pop
  popped_lem room xs q old k =
      let p = pop_refines xs old k.holds in
      (
        ap₂ task p.0 p.1,
        (pop_task q old).2,
        refl,
        record { holds = p.2; sized = pop_task-capacity q old ∙ k.sized },
      )

  call_lem :
      (room : ℕ) (xs : List T) (q : Queue T) (c : Call T) → Kept room q xs → AsPromised room xs q c
  unfolding call promised push pop try_pop
  call_lem room xs q (pushes none) k = (refl, q, refl, k)
  call_lem room xs q (pushes (some t)) k =
      let p =
        subst
          (λ (r : ℕ).
            ((push_task q t).0 ≡ (Fifo.push r xs t).0)
            × Holds (push_task q t).1 (Fifo.push r xs t).1)
          (bound k) (push_refines xs t k.holds) in
      (
        ap status p.0,
        (push_task q t).1,
        refl,
        record { holds = p.1; sized = push_task-capacity q t ∙ k.sized },
      )
    where
      bound : Kept room q xs → q.capacity - 1 ≡ room
      bound k = omega (arith, k.sized)
  call_lem room xs q (pops false old) k = (refl, q, refl, k)
  call_lem room xs q (pops true old) k = popped_lem room xs q old k
  call_lem room xs q (tries acquired false old) k = (refl, q, refl, k)
  call_lem room xs q (tries false true old) k = rw ((try_pop-pop q old).1) (refl, q, refl, k)
  call_lem room xs q (tries true true old) k =
      rw ((try_pop-pop q old).0) (popped_lem room xs q old k)
  call_lem room xs q (drains false n) k = rw ((drained_lem n xs q k).no_array) (refl, q, refl, k)
  call_lem room xs q (drains true n) k =
      let d = drained_lem n xs q k in (ap tasks d.out, d.rest.0, d.rest.1, d.rest.2)
  call_lem room xs q asks_size k = (ap number (size-length xs k.holds).0, q, refl, k)
  call_lem room xs q asks_empty k = (ap truth (size-length xs k.holds).2, q, refl, k)

  run-Kept :
      {room : ℕ} (cs : List (Call T)) (q : Queue T) (xs : List T)
      → Kept room q xs
      → ((run_calls q cs).0 ≡ (promised_run room xs cs).0)
        × (q' : Queue T) × ((run_calls q cs).1 ≡ some q')
        × Holds q' (promised_run room xs cs).1
  unfolding run_calls promised_run
  run-Kept [] q xs k = (refl, q, refl, k.holds)
  run-Kept {room} (c ∷ cs) q xs k =
      let one = call_lem room xs q c k in
      let rest = run-Kept cs one.1 (promised room xs c).1 one.3 in
      rw (one.2, run_calls, one.0)
        (ap (λ r. (promised room xs c).0 ∷ r) rest.0, rest.1, rest.2, rest.3)

  -- Whatever calls are made, in whatever order and with whatever arguments, on a ring that holds the
  -- list `xs`: each call answers what the bounded first-in first-out list answers, and the ring that
  -- is left holds the list that is left.
  pub run_refines :
      (q : Queue T) (xs : List T) (cs : List (Call T))
      → Holds q xs
      → ((run_calls q cs).0 ≡ (promised_run (q.capacity - 1) xs cs).0)
        × (q' : Queue T) × ((run_calls q cs).1 ≡ some q')
        × Holds q' (promised_run (q.capacity - 1) xs cs).1
  run_refines q xs cs h =
      run-Kept cs q xs (record { holds = h; sized = omega (arith, h.valid.at_least) })
