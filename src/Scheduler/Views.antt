-- ===== src/Scheduler/Views.antt =====
-- The scheduler's queues as lists of tasks.
use fast_queue.Prelude.{
  ℕ, zero, suc, ◌<◌, ◌≡◌, refl, ap, subst, arith, some, List, [], ◌∷◌, get_elem?, get_or, set,
  length,
}
use fast_queue.Queue.Refine.{Holds}
use fast_queue.Scheduler.Defs.{Worker, Scheduler}

-- The queue of each worker holds the list of tasks at its place.
abbrev pub EachHolds : List Worker → List (List ℕ) → Type 0
EachHolds [] [] = Unit
EachHolds [] (l ∷ ls) = ⊥
EachHolds (k ∷ ks) [] = ⊥
EachHolds (k ∷ ks) (l ∷ ls) = Holds k.queue l × EachHolds ks ls

-- The global queue holds `gs`, and the worker's queues the lists of `ls`.
pub record View (s : Scheduler) (gs : List ℕ) (ls : List (List ℕ)) : Type 0 where
  pub global : Holds s.global_queue gs
  pub each : EachHolds s.workers ls

pub EachHolds-get :
    (ks : List Worker) (ls : List (List ℕ)) (i : ℕ) (k : Worker)
    → EachHolds ks ls
    → get_elem? ks i ≡ some k
    → Holds k.queue (get_or ls i [])
EachHolds-get [] [] i k h e = absurd (cc)
EachHolds-get [] (l ∷ ls) i k h e = absurd h
EachHolds-get (k' ∷ ks) [] i k h e = absurd h
EachHolds-get (k' ∷ ks) (l ∷ ls) zero k h e =
    let same : k' ≡ k = cc in subst (λ (x : Worker). Holds x.queue l) same h.0
EachHolds-get (k' ∷ ks) (l ∷ ls) (suc i) k h e = EachHolds-get ks ls i k h.1 e

pub EachHolds-set :
    (ks : List Worker) (ls : List (List ℕ)) (i : ℕ) (k : Worker) (l : List ℕ)
    → EachHolds ks ls
    → Holds k.queue l
    → EachHolds (set ks i k) (set ls i l)
EachHolds-set [] [] i k l h hk = tt
EachHolds-set [] (l' ∷ ls) i k l h hk = absurd h
EachHolds-set (k' ∷ ks) [] i k l h hk = absurd h
EachHolds-set (k' ∷ ks) (l' ∷ ls) zero k l h hk = (hk, h.1)
EachHolds-set (k' ∷ ks) (l' ∷ ls) (suc i) k l h hk = (h.0, EachHolds-set ks ls i k l h.1 hk)

pub set-get_or : (ls : List (List ℕ)) (i : ℕ) (d : List ℕ) → set ls i (get_or ls i d) ≡ ls
set-get_or [] i d = refl
set-get_or (l ∷ ls) zero d = refl
set-get_or (l ∷ ls) (suc i) d = ap (λ r. l ∷ r) (set-get_or ls i d)

-- Each index below the number of workers has a worker.
pub worker_there :
    (ks : List Worker) (i : ℕ) → i < length ks → (k : Worker) × (get_elem? ks i ≡ some k)
worker_there [] i h = absurd (omega arith)
worker_there (k ∷ ks) zero h = (k, refl)
worker_there (k ∷ ks) (suc i) h = worker_there ks i (omega arith)
