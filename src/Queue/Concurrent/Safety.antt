-- ===== src/Queue/Concurrent/Safety.antt =====
-- What holds of the queue in every state that its threads can reach.
use fast_queue.Prelude.{
  ℕ, ◌<◌, ◌≡◌, ◌≢◌, sym, ◌∙◌, Bool, true, false, ◌||◌, Option, some, ◌++◌, map, arith, length,
  append-nil,
}
use fast_queue.Queue.Ring.{Queue}
use fast_queue.Queue.Valid.{IsValid, count, contents, count-lt}
use fast_queue.Queue.Concurrent.Machine.{
  Pc, push_room, push_written, pop_some, pop_read, Shared, System, Reach, start, later,
}
use fast_queue.Queue.Concurrent.Invariant.{Local, Inv, used_ne}
use fast_queue.Queue.Concurrent.Preserve.{Step-Inv}

pub Reach-Inv :
    {T : Type 0} {q : Queue T} {s : System T} → IsValid q → Reach q s → Inv (contents q) s
Reach-Inv {q} v start = record {
  good = record { valid = v; history = append-nil (contents q) };
  known = λ i. tt;
}
Reach-Inv v (later r st) = Step-Inv st (Reach-Inv v r)

-- Whatever the threads and their interleaving, the tasks that the queue held at the start, followed
-- by those pushed since in the order of their publication, are the values taken in the order of
-- their taking, followed by what the queue holds: none is lost, doubled, overtaken or made up. The
-- queue stays in order, and holds fewer tasks than its capacity.
pub linear_history :
    {T : Type 0} {q : Queue T} {s : System T}
    → IsValid q
    → Reach q s
    → (contents q ++ map some s.mem.pushed ≡ s.mem.popped ++ contents s.mem.queue)
      × IsValid s.mem.queue
      × (count s.mem.queue < s.mem.queue.capacity)
linear_history v r =
    let inv = Reach-Inv v r in (inv.good.history, inv.good.valid, count-lt inv.good.valid)

-- A thread that is about to write a slot or to publish one.
pub data Pushing {T : Type 0} : Pc T → Type 0 where
  at_room : {t : T} {tail : ℕ} → Pushing (push_room t tail)
  at_written : {t : T} {tail : ℕ} → Pushing (push_written t tail)

-- A thread that is about to read a slot or to take what it read.
pub data Popping {T : Type 0} : Pc T → Type 0 where
  at_some : {head : ℕ} → Popping (pop_some head)
  at_read : {head : ℕ} {x : Option T} → Popping (pop_read head x)

module _ {T : Type 0} (m : Shared T) (i : ℕ) where
  push_owner : {p : Pc T} → Pushing p → Local i m p → m.push_lock ≡ some i
  push_owner at_room l = l.0
  push_owner at_written l = l.0

  pop_owner : {p : Pc T} → Popping p → Local i m p → m.pop_lock ≡ some i
  pop_owner at_some l = l.0
  pop_owner at_read l = l.0

same_owner : (i j : ℕ) {o : Option ℕ} → o ≡ some i → o ≡ some j → i ≡ j
same_owner i j e f = cc

-- In every reachable state at most one thread is about to write a slot or to publish one.
pub push_exclusive :
    {T : Type 0} {q : Queue T} {s : System T} (i j : ℕ)
    → IsValid q
    → Reach q s
    → Pushing (s.pc i)
    → Pushing (s.pc j)
    → i ≡ j
push_exclusive {s} i j v r a b =
    let inv = Reach-Inv v r in
    same_owner i j (push_owner s.mem i a (inv.known i)) (push_owner s.mem j b (inv.known j))

-- In every reachable state at most one thread is about to read a slot or to take what it read.
pub pop_exclusive :
    {T : Type 0} {q : Queue T} {s : System T} (i j : ℕ)
    → IsValid q
    → Reach q s
    → Popping (s.pc i)
    → Popping (s.pc j)
    → i ≡ j
pop_exclusive {s} i j v r a b =
    let inv = Reach-Inv v r in
    same_owner i j (pop_owner s.mem i a (inv.known i)) (pop_owner s.mem j b (inv.known j))

-- A thread at this point is about to access this slot of the buffer; the Boolean tells whether it
-- writes.
pub data Access {T : Type 0} : Pc T → ℕ → Bool → Type 0 where
  writes : {t : T} {tail : ℕ} → Access (push_room t tail) tail true
  reads : {head : ℕ} → Access (pop_some head) head false

module _ {T : Type 0} (m : Shared T) (w : IsValid m.queue) where
  slot_inside :
      {p : Pc T} {a : ℕ} {b : Bool} (i : ℕ) → Access p a b → Local i m p → a < length m.queue.buffer
  slot_inside i writes l = omega (arith, l.1, w.storage, w.tail_in)
  slot_inside i reads l = omega (arith, l.1, w.storage, w.head_in)

  write_read_apart :
      (t : T) {tail head : ℕ} (i j : ℕ)
      → Local i m (push_room t tail)
      → Local j m (pop_some head)
      → tail ≢ head
  write_read_apart t i j l l' same = used_ne w l'.2 (sym l'.1 ∙ sym same ∙ l.1)

  slots_apart :
      {p p' : Pc T} {a a' : ℕ} {b b' : Bool} (i j : ℕ)
      → i ≢ j
      → Access p a b
      → Access p' a' b'
      → Local i m p
      → Local j m p'
      → (b || b') ≡ true
      → a ≢ a'
  slots_apart i j other writes writes l l' one same = other (same_owner i j l.0 l'.0)
  slots_apart i j other (writes {t}) reads l l' one same = write_read_apart t i j l l' same
  slots_apart i j other reads (writes {t}) l l' one same = write_read_apart t j i l' l (sym same)
  slots_apart i j other reads reads l l' one same = absurd (cc)

-- In every reachable state: where two threads are each about to access a slot of the buffer, and at
-- least one of them to write it, both slots lie inside the buffer and are not the same. So no two
-- threads race for a slot, be it two writers or a writer and a reader.
pub no_data_race :
    {T : Type 0} {q : Queue T} {s : System T} {a a' : ℕ} {b b' : Bool} (i j : ℕ)
    → IsValid q
    → Reach q s
    → i ≢ j
    → Access (s.pc i) a b
    → Access (s.pc j) a' b'
    → (b || b') ≡ true
    → (a < length s.mem.queue.buffer) × (a' < length s.mem.queue.buffer) × (a ≢ a')
no_data_race {s} i j v r other x y one =
    let inv = Reach-Inv v r in
    let w = inv.good.valid in
    (
      slot_inside s.mem w i x (inv.known i),
      slot_inside s.mem w j y (inv.known j),
      slots_apart s.mem w i j other x y (inv.known i) (inv.known j) one,
    )
