-- ===== src/World/Defs.antt =====
-- The state of a program: the allocators' heaps, the tasks and futures by address, and the events
-- that the library causes. `none` is undefined behaviour: an access to an object that is not there.
use Prim.Native.String.{String}
use fast_queue.Prelude.{ℕ, Option, none, some, List, [], ◌∷◌, ◌++◌, ◌==◌, if◌then◌else◌}
use fast_queue.Types.{Status, Priority, LogLevel, Ptr}

-- `fq_task_t` of task.c. `executed` and `canceled` are patterns of `int`; functions and user data are
-- addresses.
pub record Task : Type 0 where
  pub callback : ℕ
  pub user_data : ℕ
  pub completion : Ptr
  pub completion_data : ℕ
  pub future : Ptr
  pub priority : Priority
  pub executed : ℕ
  pub canceled : ℕ
  pub allocator : ℕ

-- `fq_future_t` of future.c, without its mutex and condition variable
pub record Future : Type 0 where
  pub ready : ℕ
  pub canceled : ℕ
  pub status : Status
  pub callback : Ptr
  pub callback_data : ℕ
  pub allocator : ℕ

-- Calls of client functions, and wake-ups and waits of threads.
pub data Event : Type 0 where
  called : (fn user_data : ℕ) → Event
  completed : (fn user_data : ℕ) (status : Status) → Event
  woke_waiters : (future : ℕ) → Event
  woke_one_worker : Event
  woke_workers : Event
  waited : (timeout_ms : ℕ) → Event
  waited_idle : Event
  logged : (fn : ℕ) (level : LogLevel) (message : String) (ctx : ℕ) → Event

pub record World (S : Type 0) : Type 0 where
  pub heap : S
  pub tasks : ℕ → Option Task
  pub futures : ℕ → Option Future
  pub events : List Event

abbrev pub M : Type 0 → Type 0 → Type 0
M S A = World S → Option (A × World S)

infixl 5 ◌>>=◌ ◌>>◌
abbrev pub ◌>>=◌ : {S A B : Type 0} → M S A → (A → M S B) → M S B
◌>>=◌ m f w = elim (m w) [ none ↦ none | some (a, w') ↦ f a w' ]

abbrev pub ◌>>◌ : {S B : Type 0} → M S (Unit {0}) → M S B → M S B
m >> k = m >>= λ _. k

abbrev pub pure : {S A : Type 0} → A → M S A
pure a w = some (a, w)

-- A map changed at one address.
abbrev pub update {ℓ} : {A : Type ℓ} → (ℕ → A) → ℕ → A → ℕ → A
update f p v q = if p == q then v else f q

module _ {S : Type 0} where
  abbrev pub load_task : ℕ → M S Task
  load_task p w = elim (w.tasks p) [ none ↦ none | some t ↦ some (t, w) ]

  abbrev pub store_task : ℕ → Task → M S (Unit {0})
  store_task p t w = some (tt, record w { tasks = update w.tasks p (some t) })

  abbrev pub load_future : ℕ → M S Future
  load_future p w = elim (w.futures p) [ none ↦ none | some f ↦ some (f, w) ]

  abbrev pub store_future : ℕ → Future → M S (Unit {0})
  store_future p f w = some (tt, record w { futures = update w.futures p (some f) })

  abbrev pub emit : Event → M S (Unit {0})
  emit e w = some (tt, record w { events = w.events ++ e ∷ [] })
