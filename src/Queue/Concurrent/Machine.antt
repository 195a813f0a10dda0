-- ===== src/Queue/Concurrent/Machine.antt =====
-- The steps of a thread through `fq_queue_push`, `fq_queue_pop` and `fq_queue_try_pop`.
use mathlib.Core.Logic.{ite}
use fast_queue.Prelude.{
  ℕ, ◌≡◌, ◌≢◌, Option, none, some, List, [], ◌∷◌, ◌++◌, ℕ_discrete, add32, get_or, set,
}
use fast_queue.Queue.Ring.{Queue, masked}

-- Where a thread stands, with its local variables.
pub data Pc (T : Type 0) : Type 0 where
  idle : Pc T
  push_wait : (task : T) → Pc T  -- `closed` read as 0; at `fq_mutex_lock`
  push_locked : (task : T) → Pc T
  push_tail : (task : T) (tail : ℕ) → Pc T  -- `tail` read
  push_room : (task : T) (tail : ℕ) → Pc T  -- `head` read, and it is not `next`
  push_written : (task : T) (tail : ℕ) → Pc T  -- the slot written
  push_unlock : Pc T
  pop_wait : Pc T  -- at `fq_mutex_lock` of `fq_queue_pop`
  pop_locked : Pc T
  pop_head : (head : ℕ) → Pc T  -- `head` read
  pop_some : (head : ℕ) → Pc T  -- `tail` read, and it is not `head`
  pop_read : (head : ℕ) (task : Option T) → Pc T  -- the slot read
  pop_unlock : Pc T

-- The queue, the holders of its two mutexes, and the history: the tasks in the order in which they
-- were published by a store of `tail`, and the values taken by a store of `head`.
pub record Shared (T : Type 0) : Type 0 where
  pub queue : Queue T
  pub push_lock : Option ℕ
  pub pop_lock : Option ℕ
  pub pushed : List T
  pub popped : List (Option T)

abbrev pub store_slot : {T : Type 0} → Queue T → ℕ → T → Queue T
store_slot q tail task = record q { buffer = set q.buffer tail (some task) }

abbrev pub store_tail : {T : Type 0} → Queue T → ℕ → Queue T
store_tail q tail = record q { tail = masked q (add32 tail 1) }

abbrev pub store_head : {T : Type 0} → Queue T → ℕ → Queue T
store_head q head = record q { head = masked q (add32 head 1) }

-- One step of thread `i`.
pub data Move {T : Type 0} (i : ℕ) (m : Shared T) : Pc T → Shared T → Pc T → Type 0 where
  push_call : {t : T} → m.queue.closed ≡ 0 → Move i m idle m (push_wait t)
  push_closed : m.queue.closed ≢ 0 → Move i m idle m idle
  push_lock :
      {t : T}
      → m.push_lock ≡ none
      → Move i m (push_wait t) (record m { push_lock = some i }) (push_locked t)
  push_load_tail : {t : T} → Move i m (push_locked t) m (push_tail t m.queue.tail)
  push_full :
      {t : T} {tail : ℕ}
      → masked m.queue (add32 tail 1) ≡ m.queue.head
      → Move i m (push_tail t tail) m push_unlock
  push_load_head :
      {t : T} {tail : ℕ}
      → masked m.queue (add32 tail 1) ≢ m.queue.head
      → Move i m (push_tail t tail) m (push_room t tail)
  push_write :
      {t : T} {tail : ℕ}
      → Move i m
          (push_room t tail)
          (record m { queue = store_slot m.queue tail t })
          (push_written t tail)
  push_publish :
      {t : T} {tail : ℕ}
      → Move i m
          (push_written t tail)
          (record m { queue = store_tail m.queue tail; pushed = m.pushed ++ t ∷ [] })
          push_unlock
  push_release : Move i m push_unlock (record m { push_lock = none }) idle
  pop_call : Move i m idle m pop_wait
  pop_lock : m.pop_lock ≡ none → Move i m pop_wait (record m { pop_lock = some i }) pop_locked
  try_pop_lock : m.pop_lock ≡ none → Move i m idle (record m { pop_lock = some i }) pop_locked
  try_pop_busy : m.pop_lock ≢ none → Move i m idle m idle
  pop_load_head : Move i m pop_locked m (pop_head m.queue.head)
  pop_empty : {head : ℕ} → head ≡ m.queue.tail → Move i m (pop_head head) m pop_unlock
  pop_load_tail : {head : ℕ} → head ≢ m.queue.tail → Move i m (pop_head head) m (pop_some head)
  pop_load_slot :
      {head : ℕ} → Move i m (pop_some head) m (pop_read head (get_or m.queue.buffer head none))
  pop_take :
      {head : ℕ} {task : Option T}
      → Move i m
          (pop_read head task)
          (record m { queue = store_head m.queue head; popped = m.popped ++ task ∷ [] })
          pop_unlock
  pop_release : Move i m pop_unlock (record m { pop_lock = none }) idle

pub record System (T : Type 0) : Type 0 where
  pub mem : Shared T
  pub pc : ℕ → Pc T

abbrev pub update : {T : Type 0} → (ℕ → Pc T) → ℕ → Pc T → ℕ → Pc T
update pc i p j = ite (ℕ_discrete i j) p (pc j)

pub data Step {T : Type 0} (s : System T) : System T → Type 0 where
  pick :
      (i : ℕ) {m : Shared T} {p : Pc T}
      → Move i s.mem (s.pc i) m p
      → Step s (record { mem = m; pc = update s.pc i p })

-- No thread in a call, no lock held, nothing pushed or taken so far.
abbrev pub start_state : {T : Type 0} → Queue T → System T
start_state q = record {
  mem = record { queue = q; push_lock = none; pop_lock = none; pushed = []; popped = [] };
  pc = λ _. Pc.idle;
}

pub data Reach {T : Type 0} (q : Queue T) : System T → Type 0 where
  start : Reach q (start_state q)
  later : {s t : System T} → Reach q s → Step s t → Reach q t
