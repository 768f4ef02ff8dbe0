-- ===== src/Scheduling/Run.antt =====
-- koro/scheduler.cpp, `Scheduler::run`: the loop of each worker thread, one access to shared memory at a
-- time. What a fiber does while it runs is left open but for how it comes back: by `yield`, by `hold`,
-- or by the end of its function.
pub mod Count
pub mod Invariant
pub mod Tracking
pub mod Safety
pub mod Stopping
pub mod Locking
use koro.Prelude.{ℕ, suc, ◌+◌, ◌-◌, ◌<◌, ◌≡◌, ◌≢◌, Bool, true, false, List, [], ◌∷◌, ◌++◌, update}
use koro.Scheduling.Task.{State, ready, running, hold, term, Task, fiber, callback}

-- What the workers share. `queues` are the task queues, `state` and `execute` the fields of each fiber,
-- `active` is `active_thread_count_`; fibers from `fresh` on do not exist yet.
-- `idle_over` tells the workers whose idle fiber has ended.
-- `scheduled` is no field of the program: it marks the fibers that were ever submitted or made by a
-- worker for a callback.
pub record Memory : Type 0 where
  pub queues : ℕ → List Task
  pub state : ℕ → State
  pub execute : ℕ → Bool
  pub active : ℕ
  pub fresh : ℕ
  pub scheduled : ℕ → Bool
  pub idle_over : ℕ → Bool

-- Where a worker stands in its loop.
pub data Pc : Type 0 where
  fetching : Pc  -- at the head of the loop
  stealing : Pc  -- its own queue was empty
  idle_next : Pc  -- it has no task
  resting : Pc  -- in its idle fiber
  stopped : Pc  -- out of the loop
  got : Task → Pc  -- before `active_thread_count_.fetch_add`
  counted : Task → Pc
  refused : ℕ → Pc  -- `tryLock` has failed
  locked : ℕ → Pc  -- `tryLock` has succeeded
  inside : ℕ → Pc  -- in the fiber
  returned : ℕ → Pc  -- behind `resume`
  settled : ℕ → Pc  -- before `unlock`
  leaving : Pc  -- before `active_thread_count_.fetch_sub`

-- One step of worker `i`.
pub data Move (i : ℕ) (m : Memory) : Pc → Memory → Pc → Type 0 where
  pop :
      {t : Task} {rest : List Task}
      → m.queues i ≡ t ∷ rest
      → Move i m fetching (record m { queues = update m.queues i rest }) (got t)
  own_empty : m.queues i ≡ [] → Move i m fetching m stealing
  -- `stealTask` takes the last task of another queue,
  steal :
      {t : Task} (victim : ℕ) (front : List Task)
      → victim ≢ i
      → m.queues victim ≡ front ++ t ∷ []
      → Move i m stealing (record m { queues = update m.queues victim front }) (got t)
  -- or finds each of the others empty or locked.
  steal_none : Move i m stealing m idle_next
  enter_idle : m.idle_over i ≡ false → Move i m idle_next m resting
  idle_yields : Move i m resting m fetching
  -- `idle` returns, so its fiber has ended; the worker looks for tasks again, and leaves when there are none.
  idle_ends : Move i m resting (record m { idle_over = update m.idle_over i true }) fetching
  leave_loop : m.idle_over i ≡ true → Move i m idle_next m stopped
  count : {t : Task} → Move i m (got t) (record m { active = m.active + 1 }) (counted t)
  try_lock :
      {f : ℕ}
      → m.execute f ≡ false
      → Move i m (counted (fiber f)) (record m { execute = update m.execute f true }) (locked f)
  try_fail : {f : ℕ} → m.execute f ≡ true → Move i m (counted (fiber f)) m (refused f)
  push_back :
      {f : ℕ}
      → Move i m
          (refused f)
          (record m { queues = update m.queues i (m.queues i ++ fiber f ∷ []) })
          leaving
  skip_dead :
      {f : ℕ}
      → m.state f ≡ term
      → Move i m (locked f) (record m { execute = update m.execute f false }) leaving
  resume :
      {f : ℕ}
      → m.state f ≢ term
      → Move i m (locked f) (record m { state = update m.state f running }) (inside f)
  -- A callback runs in a new fiber, which is locked and resumed at once.
  wrap :
      {c : ℕ}
      → Move i m
          (counted (callback c))
          (record m {
            state = update m.state m.fresh running;
            execute = update m.execute m.fresh true;
            fresh = suc m.fresh;
            scheduled = update m.scheduled m.fresh true;
          })
          (inside m.fresh)
  come_back :
      {f : ℕ} {s : State}
      → s ≢ running
      → Move i m (inside f) (record m { state = update m.state f s }) (returned f)
  requeue :
      {f : ℕ}
      → m.state f ≡ ready
      → Move i m
          (returned f)
          (record m { queues = update m.queues i (m.queues i ++ fiber f ∷ []) })
          (settled f)
  no_requeue : {f : ℕ} → m.state f ≢ ready → Move i m (returned f) m (settled f)
  unlock : {f : ℕ} → Move i m (settled f) (record m { execute = update m.execute f false }) leaving
  uncount : Move i m leaving (record m { active = m.active - 1 }) fetching

pub record System : Type 0 where
  pub mem : Memory
  pub pc : ℕ → Pc

-- A task may stand in a queue: a callback, or a fiber that exists.
abbrev pub IsKnown : ℕ → Task → Type 0
IsKnown fresh (fiber f) = f < fresh
IsKnown fresh (callback c) = Unit {0}

abbrev pub mark : Task → (ℕ → Bool) → ℕ → Bool
mark (fiber f) scheduled = update scheduled f true
mark (callback c) scheduled = scheduled

-- `n` workers, and the code that submits tasks, wakes fibers and makes new ones.
pub data Step (n : ℕ) (s : System) : System → Type 0 where
  pick :
      (i : ℕ) {m : Memory} {p : Pc}
      → i < n
      → Move i s.mem (s.pc i) m p
      → Step n s (record { mem = m; pc = update s.pc i p })
  submit :
      (j : ℕ) (t : Task)
      → j < n
      → IsKnown s.mem.fresh t
      → Step n s (record s {
        mem = record (s.mem) {
          queues = update s.mem.queues j (s.mem.queues j ++ t ∷ []);
          scheduled = mark t s.mem.scheduled;
        };
      })
  new_fiber : Step n s (record s {
    mem = record (s.mem) { state = update s.mem.state s.mem.fresh ready; fresh = suc s.mem.fresh };
  })

unfoldable pub init : System
init = record {
  mem = record {
    queues = λ _. [];
    state = λ _. ready;
    execute = λ _. false;
    active = 0;
    fresh = 0;
    scheduled = λ _. false;
    idle_over = λ _. false;
  };
  pc = λ _. fetching;
}

pub data Reach (n : ℕ) : System → Type 0 where
  start : Reach n init
  later : {s t : System} → Reach n s → Step n s t → Reach n t
