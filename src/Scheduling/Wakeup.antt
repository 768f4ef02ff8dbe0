-- ===== src/Scheduling/Wakeup.antt =====
-- koro/io_manager.cpp, `idle` and `tickle`, with `submit` of koro/scheduler.h: how one worker goes to sleep
-- in `epoll_wait` and is woken, one access to shared memory at a time, in the order in which they take
-- effect (`idling` is read and set with sequential consistency there).
pub mod Progress
mod Examples
use koro.Prelude.{
  ℕ, ◌+◌, ◌-◌, ◌<◌, ◌^◌, ◌≡◌, ◌≢◌, Bool, true, false, List, [], ◌∷◌, ◌++◌, if◌then◌else◌, ltb,
  is_empty, ◌⊎◌, update,
}
use koro.Scheduling.Task.{Task}

-- Where the worker stands.
pub data Worker : Type 0 where
  fetching : Worker  -- in `run`, before it looks into its queue or while it runs a task
  stealing : Worker
  raising : Worker  -- at the head of the loop of `idle`
  deciding : Worker  -- before the first `stopping()`
  looking : Worker  -- before it looks into its queue again
  lowering : Worker  -- it has found a task
  quitting : Worker
  polling : Worker  -- in `epoll_wait`
  woken : Worker
  handling : Worker  -- in the loop over the events, or behind it
  stopped : Worker

-- Where a thread stands that submits, or that calls `stop()`.
pub data Caller : Type 0 where
  away : Caller
  notifying : Caller  -- before it reads `idling`
  writing : Caller  -- before it writes to the eventfd

pub record System : Type 0 where
  pub tasks : List Task
  pub idling : Bool
  pub idle_over : Bool  -- the idle fiber has ended
  pub eventfd : ℕ  -- the counter behind `wakeup_ch_`
  pub worker : Worker
  pub callers : ℕ → Caller

-- Writing 1 adds it to the counter, or fails where that would exceed the largest value.
unfoldable pub write_event_fd : ℕ → ℕ
write_event_fd count = if ltb count (2 ^ 64 - 2) then count + 1 else count

-- `need_tickle`
unfoldable pub after_push : List Task → Caller
after_push tasks = if is_empty tasks then notifying else away

unfoldable pub after_look : List Task → Worker
after_look tasks = if is_empty tasks then polling else lowering

-- `tickle`
unfoldable pub after_notify : Bool → Caller
after_notify idling = if idling then writing else away

pub data Step (s : System) : System → Type 0 where
  -- The worker in `run`. Tasks that it runs may push to its queue, and so may the handling of events.
  pop :
      (t : Task) (rest : List Task)
      → s.worker ≡ fetching
      → s.tasks ≡ t ∷ rest
      → Step s (record s { tasks = rest })
  push_own :
      (t : Task)
      → (s.worker ≡ fetching) ⊎ (s.worker ≡ handling)
      → Step s (record s { tasks = s.tasks ++ t ∷ [] })
  own_empty : s.worker ≡ fetching → s.tasks ≡ [] → Step s (record s { worker = stealing })
  stole : s.worker ≡ stealing → Step s (record s { worker = fetching })
  stole_none : s.worker ≡ stealing → s.idle_over ≡ false → Step s (record s { worker = raising })
  leave : s.worker ≡ stealing → s.idle_over ≡ true → Step s (record s { worker = stopped })
  -- Another worker takes the last task.
  stolen :
      (t : Task) (front : List Task)
      → s.tasks ≡ front ++ t ∷ []
      → Step s (record s { tasks = front })
  -- The worker in `idle`; `stopping()` may answer either way.
  raise : s.worker ≡ raising → Step s (record s { idling = true; worker = deciding })
  go_on : s.worker ≡ deciding → Step s (record s { worker = looking })
  give_up : s.worker ≡ deciding → Step s (record s { worker = quitting })
  quit :
      s.worker ≡ quitting
      → Step s (record s { idling = false; idle_over = true; worker = fetching })
  look : s.worker ≡ looking → Step s (record s { worker = after_look s.tasks })
  lower : s.worker ≡ lowering → Step s (record s { idling = false; worker = fetching })
  wake : s.worker ≡ polling → 0 < s.eventfd → Step s (record s { worker = woken })
  other_event : s.worker ≡ polling → Step s (record s { worker = woken })
  lower_woken : s.worker ≡ woken → Step s (record s { idling = false; worker = handling })
  read_event_fd : s.worker ≡ handling → Step s (record s { eventfd = 0 })
  yields : s.worker ≡ handling → Step s (record s { worker = fetching })
  ends : s.worker ≡ handling → Step s (record s { idle_over = true; worker = fetching })
  -- A thread submits a task to this queue, or `stop()` wakes the worker.
  submit :
      (j : ℕ) (t : Task)
      → s.callers j ≡ away
      → Step s (record s {
        tasks = s.tasks ++ t ∷ [];
        callers = update s.callers j (after_push s.tasks);
      })
  stop : (j : ℕ) → s.callers j ≡ away → Step s (record s { callers = update s.callers j notifying })
  notify :
      (j : ℕ)
      → s.callers j ≡ notifying
      → Step s (record s { callers = update s.callers j (after_notify s.idling) })
  write :
      (j : ℕ)
      → s.callers j ≡ writing
      → Step s (record s { eventfd = write_event_fd s.eventfd; callers = update s.callers j away })

unfoldable pub init : System
init = record {
  tasks = [];
  idling = false;
  idle_over = false;
  eventfd = 0;
  worker = fetching;
  callers = λ _. away;
}

pub data Reach : System → Type 0 where
  start : Reach init
  later : {s t : System} → Reach s → Step s t → Reach t
