-- ===== src/Queue/Refine.antt =====
-- The ring behaves as the bounded first-in first-out queue of its contents.
use fast_queue.Prelude.{
  ℕ, suc, ◌+◌, ◌-◌, ◌%◌, ◌≤◌, ◌≡◌, ◌≢◌, refl, sym, ap, ap₂, ◌∙◌, Option, none, some, List, [], ◌∷◌,
  ◌++◌, map, arith, ltb, length, get_or, get_or-set_self, lt→ltb, ℕ_discrete, false,
}
use fast_queue.Types.{Status}
use fast_queue.Queue.Fifo
use fast_queue.Queue.Window.{length-window}
use fast_queue.Queue.Slots.{full_count, room_left, empty_count, some_count}
use fast_queue.Queue.Ring.{Queue, push_task, pop_task}
use fast_queue.Queue.Steps.{
  with_slot, with_tail, with_head, with_slot-IsValid, with_tail-IsValid, with_head-IsValid,
  contents-with_slot, contents-with_tail, contents-with_head,
}
use fast_queue.Queue.Valid.{IsValid, count, contents, next_slot}

-- `q` is in order and holds exactly the tasks `xs`, oldest first; no slot in use is NULL.
pub record Holds {T : Type 0} (q : Queue T) (xs : List T) : Type 0 where
  pub valid : IsValid q
  pub held : contents q ≡ map some xs

length-map-some : {T : Type 0} (xs : List T) → length (map some xs) ≡ length xs
length-map-some [] = refl
length-map-some (x ∷ xs) = ap suc (length-map-some xs)

pub count-length : {T : Type 0} {q : Queue T} (xs : List T) → Holds q xs → count q ≡ length xs
count-length {q = q} xs h =
    sym (length-window q.buffer q.capacity q.head (count q)) ∙ ap length h.held ∙ length-map-some xs

map-snoc : {T : Type 0} (xs : List T) (t : T) → map some xs ++ some t ∷ [] ≡ map some (xs ++ t ∷ [])
map-snoc [] t = refl
map-snoc (x ∷ xs) t = ap (λ r. some x ∷ r) (map-snoc xs t)

-- `push_task` in the terms of `Queue.Steps`, on each branch.
push_task-full :
    {T : Type 0} {q : Queue T} (t : T)
    → IsValid q
    → (q.tail + 1) % q.capacity ≡ q.head
    → push_task q t ≡ (Status.err_overflow, q)
unfolding push_task
push_task-full {q} t v e = ground (arith, next_slot v q.tail v.tail_in)

push_task-room :
    {T : Type 0} {q : Queue T} (t : T)
    → IsValid q
    → (q.tail + 1) % q.capacity ≢ q.head
    → push_task q t ≡ (Status.ok, with_tail (with_slot q (some t)))
unfolding push_task
push_task-room {q} t v e = ground (arith, next_slot v q.tail v.tail_in)

pop_task-some :
    {T : Type 0} {q : Queue T} (task : Option T)
    → IsValid q
    → q.head ≢ q.tail
    → pop_task q task ≡ (Status.ok, get_or q.buffer q.head none, with_head q)
unfolding pop_task
pop_task-some {q} task v e = ground (arith, next_slot v q.head v.head_in)

pop_task-empty :
    {T : Type 0} {q : Queue T} (task : Option T)
    → q.head ≡ q.tail
    → pop_task q task ≡ (Status.err_busy, task, q)
unfolding pop_task
pop_task-empty {q} task e = ground arith

pushed_contents :
    {T : Type 0} {q : Queue T} (xs : List T) (t : T)
    → Holds q xs
    → (q.tail + 1) % q.capacity ≢ q.head
    → Holds (with_tail (with_slot q (some t))) (xs ++ t ∷ [])
pushed_contents {q} xs t h room = record {
  valid = with_tail-IsValid (with_slot-IsValid (some t) h.valid);
  held =
      contents-with_tail (with_slot-IsValid (some t) h.valid) room
      ∙ ap₂ (λ r x. r ++ x ∷ []) (contents-with_slot (some t) h.valid ∙ h.held)
          (get_or-set_self q.buffer q.tail (some t) none (omega (arith, h.valid)))
      ∙ map-snoc xs t;
}

-- On a ring that holds the list `xs`, `fq_queue_push` returns what the bounded queue of the capacity
-- less one returns, and leaves a ring that holds what the bounded queue then holds.
pub push_refines :
    {T : Type 0} {q : Queue T} (xs : List T) (t : T)
    → Holds q xs
    → let (st, q') = push_task q t in
      let (st', xs') = Fifo.push (q.capacity - 1) xs t in (st ≡ st') × Holds q' xs'
unfolding Fifo.push
push_refines {q} xs t h = elim (ℕ_discrete ((q.tail + 1) % q.capacity) q.head) [
  | yes full ↦
      rw
        (
          push_task-full t h.valid full,
          if_full (length xs) (q.capacity - 1) (
              omega (
                arith,
                held,
                full_count q.capacity q.head q.tail h.valid.head_in h.valid.tail_in full,
              )),
        )
        (refl, h)
  | no room ↦
      rw
        (
          push_task-room t h.valid room,
          lt→ltb (length xs) (q.capacity - 1) (
              omega (
                arith,
                held,
                room_left q.capacity q.head q.tail h.valid.head_in h.valid.tail_in room,
              )),
        )
        (refl, pushed_contents xs t h room)
]
  where
    held : count q ≡ length xs
    held = count-length xs h

    if_full : (a b : ℕ) → b ≤ a → ltb a b ≡ false
    if_full a b le = ground arith

-- On a ring that holds the list `xs`, `fq_queue_pop` returns what the abstract queue returns, with the
-- same task through its out pointer, and leaves a ring that holds what the abstract queue then holds.
pub pop_refines :
    {T : Type 0} {q : Queue T} (xs : List T) (task : Option T)
    → Holds q xs
    → let (st, out, q') = pop_task q task in
      let (st', out', xs') = Fifo.pop xs task in (st ≡ st') × (out ≡ out') × Holds q' xs'
unfolding Fifo.pop
pop_refines {q} [] task h = elim (ℕ_discrete q.head q.tail) [
  | yes e ↦ rw (pop_task-empty {q = q} task e) (refl, refl, h)
  | no more ↦ absurd (
      omega (
        arith,
        count-length [] h,
        some_count q.capacity q.head q.tail h.valid.head_in h.valid.tail_in more,
      ))
]
pop_refines {T} {q} (x ∷ xs) task h = elim (ℕ_discrete q.head q.tail) [
  | yes e ↦ absurd (
      omega (
        arith,
        count-length (x ∷ xs) h,
        empty_count q.capacity q.head q.tail h.valid.head_in h.valid.tail_in e,
      ))
  | no more ↦ rw (pop_task-some task h.valid more) (
    refl,
    (cons-eq (front more)).0,
    record { valid = with_head-IsValid h.valid; held = (cons-eq (front more)).1 },
  )
]
  where
    front :
        q.head ≢ q.tail
        → get_or q.buffer q.head none ∷ contents (with_head q) ≡ some x ∷ map some xs
    front more = sym (contents-with_head h.valid more) ∙ h.held

    cons-eq : {a b : Option T} {r s : List (Option T)} → a ∷ r ≡ b ∷ s → (a ≡ b) × (r ≡ s)
    cons-eq e = (cc, cc)
