-- ===== src/Queue/Concurrent/Invariant.antt =====
-- What every thread knows at each point of its call, and that each step keeps it.
use mathlib.Core.List.{map-append}
use fast_queue.Prelude.{
  ℕ, ◌+◌, ◌%◌, ◌<◌, ◌≡◌, ◌≢◌, sym, ap, ap₂, ◌∙◌, Option, none, some, List, [], ◌∷◌, ◌++◌, map,
  append_assoc, arith, add32, get_or, set, get_or-set_ne,
}
use fast_queue.Queue.Ring.{Queue, masked}
use fast_queue.Queue.Slots.{full_count, room_count, empty_count, pop_count}
use fast_queue.Queue.Valid.{IsValid, count, contents, next_slot}
use fast_queue.Queue.Steps.{
  with_slot, with_tail, with_head, with_slot-IsValid, with_tail-IsValid, with_head-IsValid,
  contents-with_slot, contents-with_tail, contents-with_head,
}
use fast_queue.Queue.Concurrent.Machine.{
  Pc, idle, push_wait, push_locked, push_tail, push_room, push_written, push_unlock, pop_wait,
  pop_locked, pop_head, pop_some, pop_read, pop_unlock, Shared, System, store_slot, store_tail,
  store_head,
}

-- What thread `i` knows of the shared state where it stands.
abbrev pub Local : {T : Type 0} → ℕ → Shared T → Pc T → Type 0
Local i m idle = Unit
Local i m (push_wait t) = Unit
Local i m (push_locked t) = m.push_lock ≡ some i
Local i m (push_tail t tail) = (m.push_lock ≡ some i) × (tail ≡ m.queue.tail)
Local i m (push_room t tail) =
    (m.push_lock ≡ some i) × (tail ≡ m.queue.tail) × (count m.queue + 1 < m.queue.capacity)
Local i m (push_written t tail) =
    (m.push_lock ≡ some i)
    × (tail ≡ m.queue.tail)
    × (count m.queue + 1 < m.queue.capacity)
    × (get_or m.queue.buffer m.queue.tail none ≡ some t)
Local i m push_unlock = m.push_lock ≡ some i
Local i m pop_wait = Unit
Local i m pop_locked = m.pop_lock ≡ some i
Local i m (pop_head head) = (m.pop_lock ≡ some i) × (head ≡ m.queue.head)
Local i m (pop_some head) = (m.pop_lock ≡ some i) × (head ≡ m.queue.head) × (0 < count m.queue)
Local i m (pop_read head task) =
    (m.pop_lock ≡ some i)
    × (head ≡ m.queue.head)
    × (0 < count m.queue)
    × (get_or m.queue.buffer m.queue.head none ≡ task)
Local i m pop_unlock = m.pop_lock ≡ some i

-- The part of the invariant that does not name a thread.
pub record Good {T : Type 0} (before : List (Option T)) (m : Shared T) : Type 0 where
  pub valid : IsValid m.queue
  pub history : before ++ map some m.pushed ≡ m.popped ++ contents m.queue

pub record Inv {T : Type 0} (before : List (Option T)) (s : System T) : Type 0 where
  pub good : Good before s.mem
  pub known : (i : ℕ) → Local i s.mem (s.pc i)

module _ {T : Type 0} {q : Queue T} (v : IsValid q) where
  pub room_ne : count q + 1 < q.capacity → (q.tail + 1) % q.capacity ≢ q.head
  room_ne room e = omega (arith, full_count q.capacity q.head q.tail v.head_in v.tail_in e)

  pub used_ne : 0 < count q → q.head ≢ q.tail
  used_ne used e = omega (arith, empty_count q.capacity q.head q.tail v.head_in v.tail_in e)

  pub count-with_tail : count q + 1 < q.capacity → count (with_tail q) ≡ count q + 1
  count-with_tail room = room_count q.capacity q.head q.tail v.head_in v.tail_in (room_ne room)

  pub count-with_head : 0 < count q → count (with_head q) + 1 ≡ count q
  count-with_head used = pop_count q.capacity q.head q.tail v.head_in v.tail_in (used_ne used)

  pub store_tail-eq : (tail : ℕ) → tail ≡ q.tail → store_tail q tail ≡ with_tail q
  store_tail-eq tail e =
      ap (λ (n : ℕ). record q { tail = n })
        (ap (λ (n : ℕ). masked q (add32 n 1)) e ∙ next_slot v q.tail v.tail_in)

  pub store_head-eq : (head : ℕ) → head ≡ q.head → store_head q head ≡ with_head q
  store_head-eq head e =
      ap (λ (n : ℕ). record q { head = n })
        (ap (λ (n : ℕ). masked q (add32 n 1)) e ∙ next_slot v q.head v.head_in)

  pub store_slot-eq :
      (tail : ℕ) (t : T) → tail ≡ q.tail → store_slot q tail t ≡ with_slot q (some t)
  store_slot-eq tail t e = ap (λ (n : ℕ). store_slot q n t) e

  -- The write of the next free slot leaves the oldest one alone.
  pub head_slot_kept :
      (w : Option T)
      → 0 < count q
      → get_or (set q.buffer q.tail w) q.head none ≡ get_or q.buffer q.head none
  head_slot_kept w used = get_or-set_ne q.buffer q.tail q.head w none (λ e. used_ne used (sym e))

-- The shared state after each store.
module _ {T : Type 0} (m : Shared T) where
  abbrev pub written : T → Shared T
  written t = record m { queue = with_slot m.queue (some t) }

  abbrev pub published : T → Shared T
  published t = record m { queue = with_tail m.queue; pushed = m.pushed ++ t ∷ [] }

  abbrev pub taken : Option T → Shared T
  taken x = record m { queue = with_head m.queue; popped = m.popped ++ x ∷ [] }

module _ {T : Type 0} {before : List (Option T)} {m : Shared T} (g : Good before m) where
  pub written-Good : (t : T) → Good before (written m t)
  written-Good t = record {
    valid = with_slot-IsValid (some t) g.valid;
    history = g.history ∙ ap (λ r. m.popped ++ r) (sym (contents-with_slot (some t) g.valid));
  }

  pub published-Good :
      (t : T)
      → count m.queue + 1 < m.queue.capacity
      → get_or m.queue.buffer m.queue.tail none ≡ some t
      → Good before (published m t)
  published-Good t room slot = record {
    valid = with_tail-IsValid g.valid;
    history =
        ap (λ r. before ++ r) (map-append some m.pushed (t ∷ []))
        ∙ sym (append_assoc before (map some m.pushed) (some t ∷ []))
        ∙ ap₂ (λ r x. r ++ x ∷ []) g.history (sym slot)
        ∙ append_assoc m.popped (contents m.queue) (get_or m.queue.buffer m.queue.tail none ∷ [])
        ∙ ap (λ r. m.popped ++ r) (sym (contents-with_tail g.valid (room_ne g.valid room)));
  }

  pub taken-Good :
      (x : Option T)
      → 0 < count m.queue
      → get_or m.queue.buffer m.queue.head none ≡ x
      → Good before (taken m x)
  taken-Good x used slot = record {
    valid = with_head-IsValid g.valid;
    history =
        g.history
        ∙ ap (λ r. m.popped ++ r) (contents-with_head g.valid (used_ne g.valid used))
        ∙ ap (λ y. m.popped ++ y ∷ contents (with_head m.queue)) slot
        ∙ sym (append_assoc m.popped (x ∷ []) (contents (with_head m.queue)));
  }
