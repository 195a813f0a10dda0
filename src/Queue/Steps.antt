-- ===== src/Queue/Steps.antt =====
-- What each store of `fq_queue_push` and `fq_queue_pop` does to the contents: the write of a slot,
-- the store of `tail`, the store of `head`.
use fast_queue.Prelude.{
  ℕ, suc, ◌+◌, ◌%◌, ◌≡◌, ◌≢◌, sym, ap, ◌∙◌, Option, none, [], ◌∷◌, ◌++◌, arith, length-set, get_or,
  set,
}
use fast_queue.Queue.Window.{window, window-snoc, window-set_past}
use fast_queue.Queue.Slots.{tail_slot, room_count, pop_count}
use fast_queue.Queue.Ring.{Queue}
use fast_queue.Queue.Valid.{IsValid, count, contents}

module _ {T : Type 0} where
  -- `queue->buffer[tail] = v`
  abbrev pub with_slot : Queue T → Option T → Queue T
  with_slot q v = record q { buffer = set q.buffer q.tail v }

  -- `queue->tail = next`
  abbrev pub with_tail : Queue T → Queue T
  with_tail q = record q { tail = (q.tail + 1) % q.capacity }

  -- `queue->head = (head + 1) & mask`
  abbrev pub with_head : Queue T → Queue T
  with_head q = record q { head = (q.head + 1) % q.capacity }

  pub with_slot-IsValid : {q : Queue T} (w : Option T) → IsValid q → IsValid (with_slot q w)
  with_slot-IsValid {q} w v = ground (arith, length-set q.buffer q.tail w)

  pub with_tail-IsValid : {q : Queue T} → IsValid q → IsValid (with_tail q)
  with_tail-IsValid v = ground arith

  pub with_head-IsValid : {q : Queue T} → IsValid q → IsValid (with_head q)
  with_head-IsValid v = ground arith

  -- The slot at `tail` is not among those in use.
  pub contents-with_slot :
      {q : Queue T} (w : Option T) → IsValid q → contents (with_slot q w) ≡ contents q
  contents-with_slot {q} w v =
      ap (λ (i : ℕ). window (set q.buffer i w) q.capacity q.head (count q)) place
      ∙ window-set_past q.buffer q.capacity q.head (count q) 0 w v.head_in
          (omega (arith, v.at_least))
    where
      place : q.tail ≡ (q.head + (count q + 0)) % q.capacity
      place =
          sym (tail_slot q.capacity q.head q.tail v.head_in v.tail_in)
          ∙ ap (λ (n : ℕ). (q.head + n) % q.capacity) {x = count q} {y = count q + 0} (omega arith)

  -- The store of `tail` adds the slot there at the end.
  pub contents-with_tail :
      {q : Queue T}
      → IsValid q
      → (q.tail + 1) % q.capacity ≢ q.head
      → contents (with_tail q) ≡ contents q ++ get_or q.buffer q.tail none ∷ []
  contents-with_tail {q} v room =
      ap (window q.buffer q.capacity q.head) grown
      ∙ window-snoc q.buffer q.capacity q.head (count q) v.head_in
      ∙ ap (λ (i : ℕ). contents q ++ get_or q.buffer i none ∷ [])
          (tail_slot q.capacity q.head q.tail v.head_in v.tail_in)
    where
      grown : count (with_tail q) ≡ suc (count q)
      grown = omega (arith, room_count q.capacity q.head q.tail v.head_in v.tail_in room)

  -- The store of `head` drops the slot there from the front.
  pub contents-with_head :
      {q : Queue T}
      → IsValid q
      → q.head ≢ q.tail
      → contents q ≡ get_or q.buffer q.head none ∷ contents (with_head q)
  contents-with_head {q} v more =
      ap (window q.buffer q.capacity q.head) {x = count q} {y = suc (count (with_head q))}
        (omega (arith, pop_count q.capacity q.head q.tail v.head_in v.tail_in more))
