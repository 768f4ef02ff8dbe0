-- ===== src/Scheduling/Waiting.antt =====
-- koro/scheduler.cpp: `idle` and `tickle` of the base class, which wait on a condition variable, with `stop`
-- and `submit`, for one worker, one access to shared memory at a time. No event is pending there.
pub mod Waking
pub mod Missed
mod Examples
use koro.Prelude.{
  ℕ, suc, ◌+◌, ◌≡◌, Bool, true, false, List, [], ◌∷◌, ◌++◌, if◌then◌else◌, is_empty, ◌⊎◌,
}
use koro.Scheduling.Task.{Task}
use koro.Scheduling.Run.Stopping.{stopping}

-- Where the worker stands.
pub data Worker : Type 0 where
  fetching : Worker  -- in `run`, before it looks into its queue
  taken : Worker  -- it has a task and has not counted itself in `active_thread_count_`
  running : Worker
  raising : Worker  -- at the head of the loop of `idle`
  locking : Worker  -- before `cv.wait`
  waiting : Worker  -- in `cv.wait`
  woken : Worker  -- behind it
  deciding : Worker  -- before `stopping()`
  stopped : Worker  -- out of `run`

-- Where the thread stands that calls `stop()`.
pub data Stopper : Type 0 where
  away : Stopper
  tickling : Stopper  -- before `tickle` in the loop
  asleep : Stopper  -- behind it, before `stopping()`
  parting : Stopper  -- before `tickle` behind the loop
  joining : Stopper
  returned : Stopper

-- `callers` counts the threads between their push and their `tickle`; `idle_over` says that the idle fiber
-- has ended.
pub record System : Type 0 where
  pub tasks : List Task
  pub stop : Bool
  pub idling : Bool
  pub idle_over : Bool
  pub worker : Worker
  pub callers : ℕ
  pub stopper : Stopper

-- `cv.notify_one()`
unfoldable pub notify_one : Worker → Worker
notify_one waiting = woken
notify_one p = p

unfoldable pub tickle : System → System
unfolding notify_one
tickle s = if s.idling then record s { worker = notify_one s.worker } else s

unfoldable pub active_thread_count : Worker → ℕ
active_thread_count running = 1
active_thread_count p = 0

unfoldable pub is_stopping : System → Bool
is_stopping s = stopping 1 1 s.stop (active_thread_count s.worker) 0 (λ _. s.tasks)

-- `need_tickle`
unfoldable pub with_caller : List Task → ℕ → ℕ
with_caller tasks callers = if is_empty tasks then callers + 1 else callers

-- The queue is empty: the worker goes to its idle fiber, or leaves `run` when that has ended.
unfoldable pub without_task : Bool → Worker
without_task idle_over = if idle_over then stopped else raising

-- What happens without the program's doing: another task comes, and a wait may end by itself.
pub data Step (s : System) : System → Type 0 where
  take :
      (t : Task) (rest : List Task)
      → s.worker ≡ fetching
      → s.tasks ≡ t ∷ rest
      → Step s (record s { tasks = rest; worker = taken })
  nothing :
      s.worker ≡ fetching → s.tasks ≡ [] → Step s (record s { worker = without_task s.idle_over })
  count : s.worker ≡ taken → Step s (record s { worker = running })
  push_own : (t : Task) → s.worker ≡ running → Step s (record s { tasks = s.tasks ++ t ∷ [] })
  uncount : s.worker ≡ running → Step s (record s { worker = fetching })
  raise : s.worker ≡ raising → Step s (record s { idling = true; worker = locking })
  wait : s.worker ≡ locking → Step s (record s { worker = waiting })
  wake_up : s.worker ≡ waiting → Step s (record s { worker = woken })
  lower : s.worker ≡ woken → Step s (record s { idling = false; worker = deciding })
  go_on : s.worker ≡ deciding → is_stopping s ≡ false → Step s (record s { worker = fetching })
  finish :
      s.worker ≡ deciding
      → is_stopping s ≡ true
      → Step s (record s { idle_over = true; worker = fetching })
  submit :
      (t : Task)
      → Step s (record s { tasks = s.tasks ++ t ∷ []; callers = with_caller s.tasks s.callers })
  notify : (n : ℕ) → s.callers ≡ suc n → Step s (tickle (record s { callers = n }))
  call_stop : s.stopper ≡ away → Step s (record s { stop = true; stopper = tickling })
  stop_tickles : s.stopper ≡ tickling → Step s (tickle (record s { stopper = asleep }))
  stop_again : s.stopper ≡ asleep → is_stopping s ≡ false → Step s (record s { stopper = tickling })
  stop_ends : s.stopper ≡ asleep → is_stopping s ≡ true → Step s (record s { stopper = parting })
  stop_parts : s.stopper ≡ parting → Step s (tickle (record s { stopper = joining }))
  join : s.stopper ≡ joining → s.worker ≡ stopped → Step s (record s { stopper = returned })

unfoldable pub init : System
init = record {
  tasks = [];
  stop = false;
  idling = false;
  idle_over = false;
  worker = fetching;
  callers = 0;
  stopper = away;
}

pub data Reach : System → Type 0 where
  start : Reach init
  later : {s t : System} → Reach s → Step s t → Reach t
