-- ===== src/Queue/Concurrent/Preserve.antt =====
-- Each step of a thread keeps what the other threads know, and gives it what it knows next.
use mathlib.Core.Logic.{if_pos, if_neg}
use fast_queue.Prelude.{
  ℕ, ◌+◌, ◌<◌, ◌≡◌, ◌≢◌, refl, sym, ap, ◌∙◌, Option, none, some, List, [], ◌∷◌, ◌++◌, arith,
  ℕ_discrete, add32, get_or, get_or-set_self, subst,
}
use fast_queue.Queue.Ring.{masked}
use fast_queue.Queue.Valid.{IsValid, count, next_slot}
use fast_queue.Queue.Slots.{room_left, some_count}
use fast_queue.Queue.Concurrent.Machine.{
  Pc, idle, push_room, push_written, push_unlock, pop_read, pop_unlock, Shared, Move, System, Step,
  pick, update, store_slot, store_tail, store_head, push_call, push_closed, push_lock,
  push_load_tail, push_full, push_load_head, push_write, push_publish, push_release, pop_call,
  pop_lock, try_pop_lock, try_pop_busy, pop_load_head, pop_empty, pop_load_tail, pop_load_slot,
  pop_take, pop_release,
}
use fast_queue.Queue.Concurrent.Invariant.{
  Local, Good, Inv, written, published, taken, written-Good, published-Good, taken-Good,
  count-with_tail, count-with_head, store_tail-eq, store_head-eq, store_slot-eq, head_slot_kept,
}

-- A thread `j` other than the mover `i`.
module _ {T : Type 0} (m : Shared T) (i j : ℕ) (ne : i ≢ j) where
  kept_push_lock :
      (p : Pc T) → m.push_lock ≡ none → Local j m p → Local j (record m { push_lock = some i }) p
  kept_push_lock idle e l = tt
  kept_push_lock p e l = ground arith

  kept_push_release :
      (p : Pc T) → m.push_lock ≡ some i → Local j m p → Local j (record m { push_lock = none }) p
  kept_push_release idle e l = tt
  kept_push_release p e l = ground arith

  kept_pop_lock :
      (p : Pc T) → m.pop_lock ≡ none → Local j m p → Local j (record m { pop_lock = some i }) p
  kept_pop_lock idle e l = tt
  kept_pop_lock p e l = ground arith

  kept_pop_release :
      (p : Pc T) → m.pop_lock ≡ some i → Local j m p → Local j (record m { pop_lock = none }) p
  kept_pop_release idle e l = tt
  kept_pop_release p e l = ground arith

  module _ (v : IsValid m.queue) where
    kept_written : (t : T) (p : Pc T) → m.push_lock ≡ some i → Local j m p → Local j (written m t) p
    kept_written t idle e l = tt
    kept_written t p e l = ground (arith, head_slot_kept v (some t))

    kept_published :
        (t : T) (p : Pc T)
        → m.push_lock ≡ some i
        → count m.queue + 1 < m.queue.capacity
        → Local j m p
        → Local j (published m t) p
    kept_published t idle e room l = tt
    kept_published t p e room l = ground (arith, count-with_tail v room)

    kept_taken :
        (x : Option T) (p : Pc T)
        → m.pop_lock ≡ some i
        → 0 < count m.queue
        → Local j m p
        → Local j (taken m x) p
    kept_taken x idle e used l = tt
    kept_taken x p e used l = ground (arith, count-with_head v used)

-- What holds after a step of thread `i` that goes to `p`.
record Kept {T : Type 0} (before : List (Option T)) (i : ℕ) (m m' : Shared T) (p : Pc T)
    : Type 0 where
  good : Good before m'
  own : Local i m' p
  others : (j : ℕ) (r : Pc T) → i ≢ j → Local j m r → Local j m' r

module _ {T : Type 0} {before : List (Option T)} {m : Shared T} (i : ℕ) (g : Good before m) where
  -- A step that writes nothing shared.
  same : (p : Pc T) → Local i m p → Kept before i m m p
  same p l = record { good = g; own = l; others = λ j r ne k. k }

  room_seen :
      (tail : ℕ)
      → tail ≡ m.queue.tail
      → masked m.queue (add32 tail 1) ≢ m.queue.head
      → count m.queue + 1 < m.queue.capacity
  room_seen tail e ne =
      room_left m.queue.capacity m.queue.head m.queue.tail g.valid.head_in g.valid.tail_in (λ full.
        ne (
          ap (λ (n : ℕ). masked m.queue (add32 n 1)) e
          ∙ next_slot g.valid m.queue.tail g.valid.tail_in
          ∙ full))

  used_seen : (head : ℕ) → head ≡ m.queue.head → head ≢ m.queue.tail → 0 < count m.queue
  used_seen head e ne =
      some_count m.queue.capacity m.queue.head m.queue.tail g.valid.head_in g.valid.tail_in
        (λ same. ne (e ∙ same))

  write-Kept :
      (t : T) (tail : ℕ)
      → Local i m (push_room t tail)
      → Kept before i m (record m { queue = store_slot m.queue tail t }) (push_written t tail)
  write-Kept t tail (lock, e, room) =
      subst (λ q. Kept before i m (record m { queue = q }) (push_written t tail))
        (sym (store_slot-eq g.valid tail t e))
        (record {
          good = written-Good g t;
          own = (
            lock,
            e,
            room,
            get_or-set_self m.queue.buffer m.queue.tail (some t) none (omega (arith, g.valid)),
          );
          others = λ j r ne k. kept_written m i j ne g.valid t r lock k;
        })

  publish-Kept :
      (t : T) (tail : ℕ)
      → Local i m (push_written t tail)
      → Kept before i m
          (record m { queue = store_tail m.queue tail; pushed = m.pushed ++ t ∷ [] })
          push_unlock
  publish-Kept t tail (lock, e, room, slot) =
      subst (λ q. Kept before i m (record m { queue = q; pushed = m.pushed ++ t ∷ [] }) push_unlock)
        (sym (store_tail-eq g.valid tail e))
        (record {
          good = published-Good g t room slot;
          own = lock;
          others = λ j r ne k. kept_published m i j ne g.valid t r lock room k;
        })

  take-Kept :
      (x : Option T) (head : ℕ)
      → Local i m (pop_read head x)
      → Kept before i m
          (record m { queue = store_head m.queue head; popped = m.popped ++ x ∷ [] })
          pop_unlock
  take-Kept x head (lock, e, used, slot) =
      subst (λ q. Kept before i m (record m { queue = q; popped = m.popped ++ x ∷ [] }) pop_unlock)
        (sym (store_head-eq g.valid head e))
        (record {
          good = taken-Good g x used slot;
          own = lock;
          others = λ j r ne k. kept_taken m i j ne g.valid x r lock used k;
        })

Good-lock :
    {T : Type 0} {before : List (Option T)} {m : Shared T} (a b : Option ℕ)
    → Good before m
    → Good before (record m { push_lock = a; pop_lock = b })
Good-lock a b g = record { valid = g.valid; history = g.history }

Move-Kept :
    {T : Type 0} {before : List (Option T)} {i : ℕ} {m m' : Shared T} {p p' : Pc T}
    → Move i m p m' p'
    → Good before m
    → Local i m p
    → Kept before i m m' p'
Move-Kept {i} (push_call e) g l = same i g _ tt
Move-Kept {i} (push_closed e) g l = same i g _ tt
Move-Kept {i} {m} (push_lock e) g l = record {
  good = Good-lock (some i) m.pop_lock g;
  own = refl;
  others = λ j r ne k. kept_push_lock m i j ne r e k;
}
Move-Kept {i} push_load_tail g l = same i g _ (l, refl)
Move-Kept {i} (push_full e) g l = same i g _ l.0
Move-Kept {i} (push_load_head {tail} e) g l = same i g _ (l.0, l.1, room_seen i g tail l.1 e)
Move-Kept {i} (push_write {t} {tail}) g l = write-Kept i g t tail l
Move-Kept {i} (push_publish {t} {tail}) g l = publish-Kept i g t tail l
Move-Kept {i} {m} push_release g l = record {
  good = Good-lock none m.pop_lock g;
  own = tt;
  others = λ j r ne k. kept_push_release m i j ne r l k;
}
Move-Kept {i} pop_call g l = same i g _ tt
Move-Kept {i} {m} (pop_lock e) g l = record {
  good = Good-lock m.push_lock (some i) g;
  own = refl;
  others = λ j r ne k. kept_pop_lock m i j ne r e k;
}
Move-Kept {i} {m} (try_pop_lock e) g l = record {
  good = Good-lock m.push_lock (some i) g;
  own = refl;
  others = λ j r ne k. kept_pop_lock m i j ne r e k;
}
Move-Kept {i} (try_pop_busy e) g l = same i g _ tt
Move-Kept {i} pop_load_head g l = same i g _ (l, refl)
Move-Kept {i} (pop_empty e) g l = same i g _ l.0
Move-Kept {i} (pop_load_tail {head} e) g l = same i g _ (l.0, l.1, used_seen i g head l.1 e)
Move-Kept {i} {m} (pop_load_slot {head}) g l =
    same i g _ (l.0, l.1, l.2, ap (λ (n : ℕ). get_or m.queue.buffer n none) (sym l.1))
Move-Kept {i} (pop_take {head} {task}) g l = take-Kept i g task head l
Move-Kept {i} {m} pop_release g l = record {
  good = Good-lock m.push_lock none g;
  own = tt;
  others = λ j r ne k. kept_pop_release m i j ne r l k;
}

-- Every step of the system keeps the invariant.
pub Step-Inv :
    {T : Type 0} {before : List (Option T)} {s t : System T}
    → Step s t
    → Inv before s
    → Inv before t
Step-Inv {before} {s} (pick i {m} {p} mv) inv = record { good = k.good; known = λ j. place j }
  where
    k : Kept before i s.mem m p
    k = Move-Kept mv inv.good (inv.known i)

    place : (j : ℕ) → Local j m (update s.pc i p j)
    place j = elim (ℕ_discrete i j) [
      | yes e ↦
          subst (Local j m) (sym (if_pos (ℕ_discrete i j) e p (s.pc j)))
            (subst (λ n. Local n m p) e k.own)
      | no ne ↦
          subst (Local j m) (sym (if_neg (ℕ_discrete i j) ne p (s.pc j)))
            (k.others j (s.pc j) ne (inv.known j))
    ]
