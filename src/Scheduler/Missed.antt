-- ===== src/Scheduler/Missed.antt =====
-- Whether a search of a worker can miss a task.
use fast_queue.Prelude.{
  ℕ, zero, suc, ◌+◌, ◌-◌, ◌%◌, ◌^◌, ◌<◌, ◌≤◌, ◌≡◌, ◌≢◌, ◌↔◌, ◌⊎◌, refl, sym, ap, subst, ◌∙◌, Bool,
  true, false, none, some, List, [], ◌∷◌, ◌++◌, inl, inr, if◌then◌else◌, ◌==◌, length, get_or,
  arith, dec_lt, ℕ_discrete,
}
use native.Mathlib.Nat.{mod-eq_of_lt}
use fast_queue.World.Defs.{World}
use fast_queue.Scheduler.Defs.{Worker, Scheduler}
use fast_queue.Scheduler.Worker.{Surroundings, Found, find_task}
use fast_queue.Scheduler.Views.{View, EachHolds, set-get_or}
use fast_queue.Scheduler.Search.{
  Source, Lists, listed, put, first_of, attempt, resume, search_lists, victims, order, look_order,
  free_in, is_some, shared, queue_of,
}
use fast_queue.Scheduler.Find.{find_task_lem}

-- No queue holds a task.
abbrev pub AllEmpty : Lists → Type 0
AllEmpty v = (v.0 ≡ []) × ((i : ℕ) → get_or v.1 i [] ≡ [])

-- The sources `xs` hold no task.
abbrev NoneIn : List Source → Lists → Type 0
NoneIn [] v = Unit
NoneIn (x ∷ xs) v = (listed x v ≡ []) × NoneIn xs v

pub put-listed : (x : Source) (v : Lists) → put x (listed x v) v ≡ v
put-listed shared v = refl
put-listed (queue_of i) v = ap (λ ls. (v.0, ls)) (set-get_or v.1 i [])

first_of-nil : (b : Bool) → first_of b [] ≡ (none, [])
first_of-nil true = refl
first_of-nil false = refl

cons-ne : {t : ℕ} {ts : List ℕ} {A : Type 0} → t ∷ ts ≡ [] → A
cons-ne e = absurd (cc)

-- One try of a free source either takes a task or changes nothing.
pub attempt_lem :
    (x : Source) (v : Lists)
    → ((listed x v ≡ []) × (attempt true x v ≡ (none, v)))
      ⊎ ((t : ℕ) × (ts : List ℕ) × (listed x v ≡ t ∷ ts)
          × (attempt true x v ≡ (some t, put x ts v)))
attempt_lem x v = cases (listed x v) refl
  where
    cases :
        (l : List ℕ)
        → listed x v ≡ l
        → ((listed x v ≡ []) × (attempt true x v ≡ (none, v)))
          ⊎ ((t : ℕ) × (ts : List ℕ) × (listed x v ≡ t ∷ ts)
              × (attempt true x v ≡ (some t, put x ts v)))
    cases [] e = inl (
      e,
      ap (λ l. ((first_of true l).0, put x (first_of true l).1 v)) e
          ∙ ap (λ u. (none, u)) (ap (λ l. put x l v) (sym e) ∙ put-listed x v),
    )
    cases (t ∷ ts) e =
        inr (t, ts, e, ap (λ l. ((first_of true l).0, put x (first_of true l).1 v)) e)

-- A search past no locked queue fails just if its sources are empty.
search_lists-none :
    (free : Source → Bool)
    → ((x : Source) → free x ≡ true)
    → (xs : List Source) (v : Lists) → (is_some (search_lists free xs v).0 ≡ false) ↔ NoneIn xs v
search_lists-none free all [] v = ((λ h. tt), (λ h. refl))
search_lists-none free all (x ∷ xs) v =
    subst (λ (b : Bool). IsStep b) (sym (all x))
      (elim (attempt_lem x v) [
        | inl (e, same) ↦
            rw same
              (let ih = search_lists-none free all xs v in ((λ h. (e, ih.0 h)), (λ h. ih.1 h.1)))
        | inr (t, ts, full, found) ↦ rw found ((λ h. cc), (λ h. cons-ne (sym full ∙ h.0)))
      ])
  where
    IsStep : Bool → Type 0
    IsStep b =
        (is_some (resume (search_lists free xs) (attempt b x v)).0 ≡ false)
        ↔ ((listed x v ≡ []) × NoneIn xs v)

NoneIn-append :
    (xs ys : List Source) (v : Lists) → NoneIn (xs ++ ys) v ↔ (NoneIn xs v × NoneIn ys v)
NoneIn-append [] ys v = ((λ h. (tt, h)), (λ h. h.1))
NoneIn-append (x ∷ xs) ys v =
    let ih = NoneIn-append xs ys v in
    ((λ h. ((h.0, (ih.0 h.1).0), (ih.0 h.1).1)), (λ h. (h.0.0, ih.1 (h.0.1, h.1))))

AllEmpty-NoneIn : (xs : List Source) (v : Lists) → AllEmpty v → NoneIn xs v
AllEmpty-NoneIn [] v h = tt
AllEmpty-NoneIn (shared ∷ xs) v h = (h.0, AllEmpty-NoneIn xs v h)
AllEmpty-NoneIn (queue_of i ∷ xs) v h = (h.1 i, AllEmpty-NoneIn xs v h)

split_victim :
    (b : Bool) (q : ℕ) (rest : List Source) (v : Lists)
    → NoneIn (if b then rest else queue_of q ∷ rest) v
    → NoneIn rest v × (b ≡ false → get_or v.1 q [] ≡ [])
split_victim true q rest v g = (g, λ e. absurd (cc))
split_victim false q rest v g = (g.1, λ e. g.0)

differs : (a b : ℕ) → a ≢ b → (a == b) ≡ false
differs a b g = ground arith

-- The victims are empty, so each of the workers that the loop comes past is, but for the thief.
victims_empty :
    (n i id count : ℕ) (v : Lists)
    → NoneIn (victims n i id count) v
    → (j : ℕ) → j < n
    → (id + 1 + (i + j)) % count ≢ id
    → get_or v.1 ((id + 1 + (i + j)) % count) [] ≡ []
victims_empty zero i id count v h j lt ne = absurd (omega arith)
victims_empty (suc n) i id count v h zero lt ne =
    let here : id + 1 + i ≡ id + 1 + (i + 0) = omega arith in
    subst (λ (k : ℕ). get_or v.1 (k % count) [] ≡ []) here
      ((split_victim ((id + 1 + i) % count == id) _ _ v h).1
        (differs _ id (λ e. ne (ap (λ (k : ℕ). k % count) (sym here) ∙ e))))
victims_empty (suc n) i id count v h (suc j) lt ne =
    let there : id + 1 + ((i + 1) + j) ≡ id + 1 + (i + suc j) = omega arith in
    subst (λ (k : ℕ). get_or v.1 (k % count) [] ≡ []) there
      (victims_empty n (i + 1) id count v ((split_victim ((id + 1 + i) % count == id) _ _ v h).0) j
        (omega arith) (λ e. ne (ap (λ (k : ℕ). k % count) (sym there) ∙ e)))

-- The place at which the loop comes past the worker `q`
turn_of :
    (id q count : ℕ)
    → q < count
    → id < count
    → q ≢ id
    → (j : ℕ) × (j < count) × ((id + 1 + (0 + j)) % count ≡ q)
turn_of id q count lq li ne = elim (dec_lt id q) [
  | yes after ↦ (
    q - id - 1,
    omega arith,
    ap (λ (k : ℕ). k % count) {x = id + 1 + (0 + (q - id - 1))} {y = q} (omega arith)
        ∙ mod-eq_of_lt lq,
  )
  | no before ↦ (
    q + count - id - 1,
    omega arith,
    ap (λ (k : ℕ). k % count) {x = id + 1 + (0 + (q + count - id - 1))} {y = q + count}
          (omega arith)
        ∙ wrap,
  )
]
  where
    wrap : (q + count) % count ≡ q
    wrap = grind arith

others_empty :
    (id count : ℕ) (v : Lists)
    → id < count
    → NoneIn (victims count 0 id count) v
    → get_or v.1 id [] ≡ []
    → (q : ℕ) → q < count
    → get_or v.1 q [] ≡ []
others_empty id count v li h own q lq = elim (ℕ_discrete q id) [
  | yes same ↦ rw same own
  | no other ↦
      let (j, lt, e) = turn_of id q count lq li other in
      subst (λ (k : ℕ). get_or v.1 k [] ≡ []) e
        (victims_empty count 0 id count v h j lt (λ g. other (sym e ∙ g)))
]

EachHolds-length : (ks : List Worker) (ls : List (List ℕ)) → EachHolds ks ls → length ls ≡ length ks
EachHolds-length [] [] h = refl
EachHolds-length [] (l ∷ ls) h = absurd h
EachHolds-length (k ∷ ks) [] h = absurd h
EachHolds-length (k ∷ ks) (l ∷ ls) h = ap suc (EachHolds-length ks ls h.1)

get_or_past : (ls : List (List ℕ)) (i : ℕ) → length ls ≤ i → get_or ls i [] ≡ []
get_or_past [] i h = refl
get_or_past (l ∷ ls) zero h = absurd (omega arith)
get_or_past (l ∷ ls) (suc i) h = get_or_past ls i (omega arith)

queues-AllEmpty :
    (id count : ℕ) (v : Lists)
    → length v.1 ≡ count
    → id < count
    → v.0 ≡ []
    → get_or v.1 id [] ≡ []
    → NoneIn (victims count 0 id count) v
    → AllEmpty v
queues-AllEmpty id count v len li g own h = (
  g,
  λ i. elim (dec_lt i count) [
    | yes lt ↦ others_empty id count v li h own i lt
    | no past ↦ get_or_past v.1 i (omega (arith, len))
  ],
)

order-AllEmpty :
    (priority : Bool) (id count : ℕ) (v : Lists)
    → length v.1 ≡ count
    → id < count
    → NoneIn (order priority true id count) v
    → AllEmpty v
order-AllEmpty true id count v len li h = queues-AllEmpty id count v len li h.0 h.1.0 h.1.1
order-AllEmpty false id count v len li h =
    let both = (NoneIn-append (victims count 0 id count) (shared ∷ []) v).0 h.1 in
    queues-AllEmpty id count v len li both.1.0 h.0 both.0

all_free :
    (e : Surroundings)
    → e.global_free ≡ true
    → ((i : ℕ) → e.worker_free i ≡ true)
    → (x : Source) → free_in e x ≡ true
all_free e g h shared = g
all_free e g h (queue_of i) = h i

-- Where work stealing is enabled and no trylock fails, a worker finds no task just if no queue holds
-- one.
pub find_task-AllEmpty :
    {S : Type 0} (e : Surroundings) (id : ℕ) (s : Scheduler) (v : Lists) (w : World S)
    → View s v.0 v.1
    → length s.workers ≡ s.worker_count
    → s.worker_count < 2 ^ 31
    → id < s.worker_count
    → s.enable_work_stealing ≡ true
    → e.global_free ≡ true
    → ((i : ℕ) → e.worker_free i ≡ true)
    → (r : Found) × (find_task e id s w ≡ some (r, w)) × ((r.0 ≡ false) ↔ AllEmpty v)
find_task-AllEmpty e id s v w h array few lt stealing global_free worker_free =
    let (r, run, o) = find_task_lem e id s v w h array few lt in
    let none_found =
      search_lists-none (free_in e) (all_free e global_free worker_free) (look_order s id) v in
    (
      r,
      run,
      (
        (λ missed.
            order-AllEmpty s.enable_priority id s.worker_count v
              (EachHolds-length s.workers v.1 h.each ∙ array) lt
              (subst (λ (b : Bool). NoneIn (order s.enable_priority b id s.worker_count) v) stealing
                (none_found.0 (sym o.told ∙ missed)))),
        (λ empty. o.told ∙ none_found.1 (AllEmpty-NoneIn (look_order s id) v empty)),
      ),
    )
