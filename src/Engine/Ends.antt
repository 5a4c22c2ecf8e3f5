-- ===== src/Engine/Ends.antt =====
-- The snapshot tasks end, and they cannot block each other for good.
use futures_orderbook.Prelude.{
  ℕ, zero, suc, ◌+◌, ◌-◌, ◌*◌, ◌≤◌, ◌<◌, String, ◌≡◌, refl, sym, ap, List, [], ◌∷◌, Bool, true,
  false, not, ◌&&◌, Option, none, some, ◌⊎◌, inl, inr, Result-cases, if-elim, if◌then◌else◌, All,
  length, arith, Bool-cases, Option-cases, ◌==◌, subst,
}
use futures_orderbook.Level.Floats.{F64}
use futures_orderbook.Book.Apply.{apply_snapshot}
use futures_orderbook.Sync.Defs.{reconcile}
use futures_orderbook.Engine.Defs.{
  System, Kind, Task, fetching, loading, loaded, reconciled, seeding, over, Fetch, timed_out,
  failed, received, task, max_retries, retry, sync_locked, get_task, set_task, run_task, wants_sync,
  advance,
}

-- The number of an attempt is in the range of the `for` loop.
abbrev pub IsBounded : Kind × Task → Type 0
IsBounded (kind, fetching attempt) = (1 ≤ attempt) × (attempt ≤ max_retries)
IsBounded (kind, loading attempt snap) = (1 ≤ attempt) × (attempt ≤ max_retries)
IsBounded (kind, loaded attempt snap) = (1 ≤ attempt) × (attempt ≤ max_retries)
IsBounded (kind, _) = Unit

-- The steps that a task has left at most: three for each attempt, and two at the end.
abbrev pub left : Task → ℕ
left (fetching attempt) = 3 * (max_retries - attempt) + 5
left (loading attempt snap) = 3 * (max_retries - attempt) + 4
left (loaded attempt snap) = 3 * (max_retries - attempt) + 3
left (reconciled snap events) = 2
left (seeding snap) = 1
left over = 0

abbrev pub all_left : List (Kind × Task) → ℕ
all_left [] = 0
all_left ((kind, t) ∷ ts) = left t + all_left ts

abbrev pub is_over : Task → Bool
is_over over = true
is_over _ = false

abbrev pub IsOver : Kind × Task → Type 0
IsOver (kind, t) = is_over t ≡ true

some_eq : {A : Type 0} {a b : A} → some a ≡ some b → a ≡ b
some_eq e = cc

all_left-set_task :
    (i : ℕ) (kind : Kind) (t next : Task) (ts : List (Kind × Task))
    → get_task i ts ≡ some (kind, t)
    → all_left (set_task i next ts) + left t ≡ all_left ts + left next
all_left-set_task i kind t next [] e = cc
all_left-set_task zero kind t next ((k, old) ∷ ts) e =
    let same = ap (λ (p : Kind × Task). left p.1) (some_eq e) in omega (arith, same)
all_left-set_task (suc i) kind t next ((k, old) ∷ ts) e =
    omega (arith, all_left-set_task i kind t next ts e)

set_task-All :
    (i : ℕ) (next : Task) (ts : List (Kind × Task))
    → ((kind : Kind) → IsBounded (kind, next))
    → All IsBounded ts
    → All IsBounded (set_task i next ts)
set_task-All i next [] n h = tt
set_task-All zero next ((k, old) ∷ ts) n h = (n k, h.1)
set_task-All (suc i) next ((k, old) ∷ ts) n h = (h.0, set_task-All i next ts n h.1)

get_task-All :
    (i : ℕ) (t : Kind × Task) (ts : List (Kind × Task))
    → All IsBounded ts
    → get_task i ts ≡ some t
    → IsBounded t
get_task-All i t [] h e = cc
get_task-All zero t (u ∷ ts) h e = subst IsBounded (some_eq e) h.0
get_task-All (suc i) t (u ∷ ts) h e = get_task-All i t ts h.1 e

retry-falls :
    (attempt : ℕ)
    → (1 ≤ attempt) × (attempt ≤ max_retries)
    → left (retry attempt) < 3 * (max_retries - attempt) + 3
unfolding retry
retry-falls attempt h =
    if-elim (λ t. left t < 3 * (max_retries - attempt) + 3) (attempt == max_retries) _ _
      (λ _. omega arith) (λ e. ground (arith, e, h))

retry-IsBounded :
    (kind : Kind) (attempt : ℕ)
    → (1 ≤ attempt) × (attempt ≤ max_retries)
    → IsBounded (kind, retry attempt)
unfolding retry
retry-IsBounded kind attempt h =
    if-elim (λ t. IsBounded (kind, t)) (attempt == max_retries) _ _ (λ _. tt)
      (λ e. ground (arith, e, h))

module _ (fl : F64) (symbol : String) where
  open fl use {Float}

  -- The task is there, is not over, and does not wait for the lock of the synchronizer.
  abbrev pub may_move : Option (Kind × Task) → Bool → Bool
  may_move none locked = false
  may_move (some (kind, t)) locked = not (is_over t) && not (wants_sync fl symbol t && locked)

  unfoldable pub can_move : ℕ → System Float → Bool
  can_move i sys = may_move (get_task i sys.tasks) (sync_locked sys.tasks)

  -- What a step of a task that is not over does to the list of tasks.
  record Falls (i : ℕ) (t : Task) (before after : List (Kind × Task)) : Type 0 where
    pub next : Task
    pub stored : after ≡ set_task i next before
    pub fewer : left next < left t
    pub bounded : (kind : Kind) → IsBounded (kind, next)

  run_task-Falls :
      (i : ℕ) (kind : Kind) (t : Task) (fetch : Fetch) (sys : System Float)
      → IsBounded (kind, t)
      → is_over t ≡ false
      → Falls i t sys.tasks (run_task fl symbol i kind t fetch sys).tasks
  unfolding run_task
  run_task-Falls i kind (fetching attempt) timed_out sys h e = record {
    next = retry attempt;
    stored = refl;
    fewer = omega (arith, retry-falls attempt h);
    bounded = λ k. retry-IsBounded k attempt h;
  }
  run_task-Falls i kind (fetching attempt) failed sys h e = record {
    next = retry attempt;
    stored = refl;
    fewer = omega (arith, retry-falls attempt h);
    bounded = λ k. retry-IsBounded k attempt h;
  }
  run_task-Falls i kind (fetching attempt) (received snap) sys h e = record {
    next = loading attempt snap;
    stored = refl;
    fewer = omega arith;
    bounded = λ k. h;
  }
  run_task-Falls i kind (loading attempt snap) fetch sys h e =
      elim (Result-cases (apply_snapshot fl snap.bids snap.asks snap.last_update_id sys.book).1) [
        | inl (u, f) ↦
            rw (f, run_task)
              (record {
                next = loaded attempt snap;
                stored = refl;
                fewer = omega arith;
                bounded = λ k. h;
              })
        | inr (x, f) ↦
            rw (f, run_task)
              (record { next = over; stored = refl; fewer = omega arith; bounded = λ k. tt })
      ]
  run_task-Falls i kind (loaded attempt snap) fetch sys h e =
      elim (Result-cases (reconcile snap.last_update_id sys.sync).1) [
        | inl (events, f) ↦
            rw (f, run_task)
              (record {
                next = reconciled snap events;
                stored = refl;
                fewer = omega arith;
                bounded = λ k. tt;
              })
        | inr (x, f) ↦
            rw (f, run_task)
              (record {
                next = retry attempt;
                stored = refl;
                fewer = retry-falls attempt h;
                bounded = λ k. retry-IsBounded k attempt h;
              })
      ]
  run_task-Falls i kind (reconciled snap events) fetch sys h e = record {
    next = seeding snap;
    stored = refl;
    fewer = omega arith;
    bounded = λ k. tt;
  }
  run_task-Falls i kind (seeding snap) fetch sys h e = record {
    next = over;
    stored = refl;
    fewer = omega arith;
    bounded = λ k. tt;
  }
  run_task-Falls i kind over fetch sys h e = cc

  -- A step of a task that can move, and one that cannot.
  abbrev Stepped : ℕ → Fetch → System Float → Type 0
  Stepped i fetch sys =
      let next = advance fl symbol (task i fetch) sys in
      (suc (all_left next.tasks) ≤ all_left sys.tasks) × All IsBounded next.tasks

  run_task-Stepped :
      (i : ℕ) (kind : Kind) (t : Task) (fetch : Fetch) (sys : System Float)
      → get_task i sys.tasks ≡ some (kind, t)
      → All IsBounded sys.tasks
      → is_over t ≡ false
      → let next = run_task fl symbol i kind t fetch sys in
        (suc (all_left next.tasks) ≤ all_left sys.tasks) × All IsBounded next.tasks
  run_task-Stepped i kind t fetch sys e h o =
      let falls = run_task-Falls i kind t fetch sys (get_task-All i (kind, t) sys.tasks h e) o in
      let balance = all_left-set_task i kind t falls.next sys.tasks e in
      (
        omega (arith, ap all_left falls.stored, balance, falls.fewer),
        subst (All IsBounded) (sym falls.stored)
            (set_task-All i falls.next sys.tasks falls.bounded h),
      )

  advance-Stepped :
      (i : ℕ) (fetch : Fetch) (sys : System Float)
      → All IsBounded sys.tasks
      → can_move i sys ≡ true
      → Stepped i fetch sys
  unfolding advance can_move
  advance-Stepped i fetch sys h m = elim (Option-cases (get_task i sys.tasks)) [
    | inl e ↦ let f = rw e at m in cc
    | inr ((kind, t), e) ↦
        let f = rw e at m in
        let free : (wants_sync fl symbol t && sync_locked sys.tasks) ≡ false = ground (arith, f) in
        let o : is_over t ≡ false = ground (arith, f) in
        rw (e, advance) (rw (free, advance) (run_task-Stepped i kind t fetch sys e h o))
  ]

  is_over-over : (t : Task) → is_over t ≡ true → t ≡ over
  is_over-over (fetching a) e = cc
  is_over-over (loading a snap) e = cc
  is_over-over (loaded a snap) e = cc
  is_over-over (reconciled snap events) e = cc
  is_over-over (seeding snap) e = cc
  is_over-over over e = refl

  advance-idle :
      (i : ℕ) (fetch : Fetch) (sys : System Float)
      → can_move i sys ≡ false
      → advance fl symbol (task i fetch) sys ≡ sys
  unfolding advance can_move run_task
  advance-idle i fetch sys m = elim (Option-cases (get_task i sys.tasks)) [
    | inl e ↦ rw (e, advance) refl
    | inr ((kind, t), e) ↦
        let f = rw e at m in
        elim (Bool-cases (is_over t)) [
          | inl o ↦ rw (e, advance) (rw (is_over-over t o, advance, run_task) refl)
          | inr o ↦
              let waits : (wants_sync fl symbol t && sync_locked sys.tasks) ≡ true =
                ground (arith, f, o) in
              rw (e, advance) (rw (waits, advance) refl)
        ]
  ]

  -- The holder of the lock can move.
  locked_moves :
      (ts : List (Kind × Task))
      → sync_locked ts ≡ true
      → (i : ℕ) × (may_move (get_task i ts) true ≡ true)
  unfolding sync_locked
  locked_moves [] e = cc
  locked_moves ((kind, reconciled snap events) ∷ ts) e = (0, refl)
  locked_moves ((kind, seeding snap) ∷ ts) e = (0, refl)
  locked_moves ((kind, fetching a) ∷ ts) e = let (i, m) = locked_moves ts e in (suc i, m)
  locked_moves ((kind, loading a snap) ∷ ts) e = let (i, m) = locked_moves ts e in (suc i, m)
  locked_moves ((kind, loaded a snap) ∷ ts) e = let (i, m) = locked_moves ts e in (suc i, m)
  locked_moves ((kind, over) ∷ ts) e = let (i, m) = locked_moves ts e in (suc i, m)

  free_moves :
      (ts : List (Kind × Task))
      → All IsOver ts ⊎ ((i : ℕ) × (may_move (get_task i ts) false ≡ true))
  free_moves [] = inl tt
  free_moves ((kind, over) ∷ ts) = elim (free_moves ts) [
    | inl all ↦ inl (refl, all)
    | inr (i, m) ↦ inr (suc i, m)
  ]
  free_moves ((kind, fetching a) ∷ ts) = inr (0, refl)
  free_moves ((kind, loading a snap) ∷ ts) = inr (0, refl)
  free_moves ((kind, loaded a snap) ∷ ts) = inr (0, refl)
  free_moves ((kind, reconciled snap events) ∷ ts) = inr (0, refl)
  free_moves ((kind, seeding snap) ∷ ts) = inr (0, refl)

  some_moves : (sys : System Float) → All IsOver sys.tasks ⊎ ((i : ℕ) × (can_move i sys ≡ true))
  unfolding can_move
  some_moves sys = elim (Bool-cases (sync_locked sys.tasks)) [
    | inl e ↦ inr (let (i, m) = locked_moves sys.tasks e in (i, rw e m))
    | inr e ↦ elim (free_moves sys.tasks) [ inl all ↦ inl all | inr (i, m) ↦ inr (i, rw e m) ]
  ]

  -- A run in which only tasks move, each with the answer that it gets if it fetches, and how many
  -- of its steps moved a task.
  unfoldable pub run_tasks : List (ℕ × Fetch) → System Float → System Float
  run_tasks [] sys = sys
  run_tasks ((i, fetch) ∷ inputs) sys = run_tasks inputs (advance fl symbol (task i fetch) sys)

  unfoldable pub moved : List (ℕ × Fetch) → System Float → ℕ
  moved [] sys = 0
  moved ((i, fetch) ∷ inputs) sys =
      (if can_move i sys then 1 else 0) + moved inputs (advance fl symbol (task i fetch) sys)

  moved_bound :
      (inputs : List (ℕ × Fetch)) (sys : System Float)
      → All IsBounded sys.tasks
      → moved inputs sys + all_left (run_tasks inputs sys).tasks ≤ all_left sys.tasks
  unfolding moved run_tasks
  moved_bound [] sys h = omega arith
  moved_bound ((i, fetch) ∷ inputs) sys h =
      let next = advance fl symbol (task i fetch) sys in
      elim (Bool-cases (can_move i sys)) [
        | inl m ↦
            let (fewer, bounded) = advance-Stepped i fetch sys h m in
            rw (m, moved) (omega (arith, fewer, moved_bound inputs next bounded))
        | inr m ↦
            let kept =
              subst (λ s. moved inputs s + all_left (run_tasks inputs s).tasks ≤ all_left sys.tasks)
                (sym (advance-idle i fetch sys m)) (moved_bound inputs sys h) in
            rw (m, moved) (omega (arith, kept))
      ]

  left-le : (kind : Kind) (t : Task) → IsBounded (kind, t) → left t ≤ 17
  left-le kind (fetching a) h = omega (arith, h)
  left-le kind (loading a snap) h = omega (arith, h)
  left-le kind (loaded a snap) h = omega (arith, h)
  left-le kind (reconciled snap events) h = omega arith
  left-le kind (seeding snap) h = omega arith
  left-le kind over h = omega arith

  all_left-le : (ts : List (Kind × Task)) → All IsBounded ts → all_left ts ≤ 17 * length ts
  all_left-le [] h = omega arith
  all_left-le ((kind, t) ∷ ts) h = omega (arith, left-le kind t h.0, all_left-le ts h.1)

  -- From any system whose tasks are within their attempts, whichever tasks are scheduled, in any
  -- order, and whatever answers they get: at most 17 steps for each task move a task, and as long as
  -- some task is not over there is a task that can move, so that the tasks never block each other.
  pub tasks_end :
      (inputs : List (ℕ × Fetch)) (sys : System Float)
      → All IsBounded sys.tasks
      → let last = run_tasks inputs sys in
        (moved inputs sys ≤ 17 * length sys.tasks)
        × (All IsOver last.tasks ⊎ ((i : ℕ) × (can_move i last ≡ true)))
  tasks_end inputs sys h = (
    omega (arith, moved_bound inputs sys h, all_left-le sys.tasks h),
    some_moves (run_tasks inputs sys),
  )
