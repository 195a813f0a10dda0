-- ===== src/Scheduler/Search.antt =====
-- A search for a task through the lists of the queues, in the order of `worker_main`.
use fast_queue.Prelude.{
  ℕ, zero, suc, ◌+◌, ◌%◌, Bool, true, false, Option, none, some, List, [], ◌∷◌, ◌++◌, if◌then◌else◌,
  ◌==◌, get_or, set,
}
use fast_queue.Scheduler.Defs.{Scheduler}
use fast_queue.Scheduler.Worker.{Surroundings}

-- Where a worker looks for a task
pub data Source : Type 0 where
  shared : Source
  queue_of : (i : ℕ) → Source

-- The global list and the workers' lists
abbrev pub Lists : Type 0
Lists = List ℕ × List (List ℕ)

abbrev pub listed : Source → Lists → List ℕ
listed shared v = v.0
listed (queue_of i) v = get_or v.1 i []

abbrev pub put : Source → List ℕ → Lists → Lists
put shared l v = (l, v.1)
put (queue_of i) l v = (v.0, set v.1 i l)

-- What a try of a queue gives: nothing if its lock is taken.
abbrev pub first_of : Bool → List ℕ → Option ℕ × List ℕ
first_of false l = (none, l)
first_of true [] = (none, [])
first_of true (t ∷ ts) = (some t, ts)

-- A try of one source
abbrev pub attempt : Bool → Source → Lists → Option ℕ × Lists
attempt free x v = let (o, l) = first_of free (listed x v) in (o, put x l v)

-- Goes on only if nothing was found.
abbrev pub resume : (Lists → Option ℕ × Lists) → Option ℕ × Lists → Option ℕ × Lists
resume next (none, v) = next v
resume next (some t, v) = (some t, v)

-- The oldest task of the first source that is free and has one
abbrev pub search_lists : (Source → Bool) → List Source → Lists → Option ℕ × Lists
search_lists free [] v = (none, v)
search_lists free (x ∷ xs) v = resume (search_lists free xs) (attempt (free x) x v)

-- The `n` workers from `id + 1 + i` on, round the array, without `id`
abbrev pub victims : ℕ → ℕ → ℕ → ℕ → List Source
victims zero i id count = []
victims (suc n) i id count =
    let idx = (id + 1 + i) % count in
    if idx == id then victims n (i + 1) id count else queue_of idx ∷ victims n (i + 1) id count

-- The other workers, if stealing is enabled
abbrev pub others : Bool → ℕ → ℕ → List Source
others stealing id count = if stealing then victims count 0 id count else []

-- The order in which the worker `id` looks
abbrev pub order : Bool → Bool → ℕ → ℕ → List Source
order true stealing id count = shared ∷ queue_of id ∷ others stealing id count
order false stealing id count = queue_of id ∷ (others stealing id count ++ shared ∷ [])

abbrev pub look_order : Scheduler → ℕ → List Source
look_order s id = order s.enable_priority s.enable_work_stealing id s.worker_count

abbrev pub free_in : Surroundings → Source → Bool
free_in e shared = e.global_free
free_in e (queue_of i) = e.worker_free i

abbrev pub is_some : Option ℕ → Bool
is_some none = false
is_some (some t) = true
