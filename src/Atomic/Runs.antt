-- ===== src/Atomic/Runs.antt =====
-- Runs of atomic operations on one cell, by each of the three versions and by an integer of 32 bits
-- that does one operation after the other.
use fast_queue.Prelude.{
  ℕ, ◌+◌, ◌-◌, ◌%◌, ◌^◌, ◌<◌, ◌≢◌, Bool, true, false, Option, none, some, List, [], ◌∷◌, ◌==◌, ◌||◌,
  not, bit_and, bit_or, if◌then◌else◌,
}
use fast_queue.Atomic.Std
use fast_queue.Atomic.Std.{Exchanged}
use fast_queue.Atomic.Msvc
use fast_queue.Atomic.Gcc

-- An operation with its operands, which are patterns of `int`. A weak exchange also has whether it
-- fails spuriously, where the version's may.
pub data Operation : Type 0 where
  load : Operation
  store : (val : ℕ) → Operation
  exchange : (val : ℕ) → Operation
  strong : (expected desired : ℕ) → Operation
  weak : (spurious : Bool) (expected desired : ℕ) → Operation
  fetch_add : (operand : ℕ) → Operation
  fetch_sub : (operand : ℕ) → Operation
  fetch_or : (operand : ℕ) → Operation
  fetch_and : (operand : ℕ) → Operation

-- What the caller sees: nothing, a value, or whether an exchange was made and `*expected` after it.
pub data Answer : Type 0 where
  done : Answer
  value : (n : ℕ) → Answer
  exchanged : (made : Bool) (expected : ℕ) → Answer

-- A version of the operations: the answer and the cell after it, for a cell, an operation and the
-- orders that are asked for; `none` is undefined.
abbrev pub Version : Type 0
Version = ℕ → ℕ → ℕ → Operation → Option (Answer × ℕ)

abbrev pub answer_of : Exchanged → Option (Answer × ℕ)
answer_of e = some (exchanged e.done e.expected, e.cell)

unfoldable pub std : Version
std a order failure load = some (value (Std.load a order).0, a)
std a order failure (store v) = some (done, (Std.store a v order).0)
std a order failure (exchange v) = let r = Std.exchange a v order in some (value r.0, r.1)
std a order failure (strong e d) = answer_of (Std.compare_exchange_strong a e d order failure)
std a order failure (weak b e d) = answer_of (Std.compare_exchange_weak b a e d order failure)
std a order failure (fetch_add x) = let r = Std.fetch_add a x order in some (value r.0, r.1)
std a order failure (fetch_sub x) = let r = Std.fetch_sub a x order in some (value r.0, r.1)
std a order failure (fetch_or x) = let r = Std.fetch_or a x order in some (value r.0, r.1)
std a order failure (fetch_and x) = let r = Std.fetch_and a x order in some (value r.0, r.1)

unfoldable pub gcc : Version
gcc a order failure load = some (value (Gcc.load a order).0, a)
gcc a order failure (store v) = some (done, (Gcc.store a v order).0)
gcc a order failure (exchange v) = let r = Gcc.exchange a v order in some (value r.0, r.1)
gcc a order failure (strong e d) = answer_of (Gcc.compare_exchange_strong a e d order failure)
gcc a order failure (weak b e d) = answer_of (Gcc.compare_exchange_weak b a e d order failure)
gcc a order failure (fetch_add x) = let r = Gcc.fetch_add a x order in some (value r.0, r.1)
gcc a order failure (fetch_sub x) = let r = Gcc.fetch_sub a x order in some (value r.0, r.1)
gcc a order failure (fetch_or x) = let r = Gcc.fetch_or a x order in some (value r.0, r.1)
gcc a order failure (fetch_and x) = let r = Gcc.fetch_and a x order in some (value r.0, r.1)

abbrev pub valued : ℕ × ℕ → Option (Answer × ℕ)
valued r = some (value r.0, r.1)

abbrev pub valued_or_none : Option (ℕ × ℕ) → Option (Answer × ℕ)
valued_or_none none = none
valued_or_none (some r) = valued r

-- MSVC's weak exchange never fails spuriously.
unfoldable pub msvc : Version
msvc a order failure load = valued (Msvc.load a order)
msvc a order failure (store v) = some (done, Msvc.store a v order)
msvc a order failure (exchange v) = valued (Msvc.exchange a v order)
msvc a order failure (strong e d) = answer_of (Msvc.compare_exchange_strong a e d order failure)
msvc a order failure (weak b e d) = answer_of (Msvc.compare_exchange_weak a e d order failure)
msvc a order failure (fetch_add x) = valued (Msvc.fetch_add a x order)
msvc a order failure (fetch_sub x) = valued_or_none (Msvc.fetch_sub a x order)
msvc a order failure (fetch_or x) = valued (Msvc.fetch_or a x order)
msvc a order failure (fetch_and x) = valued (Msvc.fetch_and a x order)

-- What C promises of the operation on an integer of 32 bits.
abbrev pub promised : ℕ → Operation → Answer × ℕ
promised a load = (value a, a)
promised a (store v) = (done, v)
promised a (exchange v) = (value a, v)
promised a (strong e d) = if a == e then (exchanged true e, d) else (exchanged false a, a)
promised a (weak b e d) =
    if b || not (a == e) then (exchanged false a, a) else (exchanged true e, d)
promised a (fetch_add x) = (value a, (a + x) % 2 ^ 32)
promised a (fetch_sub x) = (value a, (a + (2 ^ 32 - x)) % 2 ^ 32)
promised a (fetch_or x) = (value a, bit_or a x)
promised a (fetch_and x) = (value a, bit_and a x)

abbrev pub promised_run : ℕ → List Operation → List Answer × ℕ
promised_run a [] = ([], a)
promised_run a (o ∷ os) =
    let (r, a') = promised a o in let (rs, b) = promised_run a' os in (r ∷ rs, b)

-- The answers of a run and the cell after it; every operation asks for the same orders.
unfoldable pub run_on : Version → ℕ → ℕ → ℕ → List Operation → Option (List Answer × ℕ)
run_on v order failure a [] = some ([], a)
run_on v order failure a (o ∷ os) = elim (v a order failure o) [
  | none ↦ none
  | some (r, a') ↦ elim (run_on v order failure a' os) [
    | none ↦ none
    | some (rs, b) ↦ some (r ∷ rs, b)
  ]
]

-- No weak exchange fails spuriously, and nothing is subtracted that is not an `int` or whose negation
-- overflows.
abbrev pub FitsMsvc : List Operation → Type 0
FitsMsvc [] = Unit
FitsMsvc (weak true e d ∷ os) = ⊥
FitsMsvc (fetch_sub x ∷ os) = (x < 2 ^ 32) × (x ≢ 2 ^ 31) × FitsMsvc os
FitsMsvc (_ ∷ os) = FitsMsvc os
