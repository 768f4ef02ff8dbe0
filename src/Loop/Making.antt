-- ===== src/Loop/Making.antt =====
-- koro/io_manager.cpp, `idle`: the tasks that events make, as a specification, and what the handling of an
-- event leaves as it is.
use koro.Prelude.{
  ℕ, ◌≡◌, refl, ◌∙◌, false, Option, none, some, List, [], ◌∷◌, ◌++◌, map, ◌==◌, if◌then◌else◌,
  select, update,
}
use koro.Scheduling.Task.{Task, callback}
use koro.Timers.Entries.Order.{is_due}
use koro.Timers.Manager.{Manager}
use koro.Timers.Manager.Validity.{IsValid}
use koro.Timers.Manager.Firing.{is_on}
use koro.Timers.Manager.Firing as Firing
use koro.Events.Channel.{Channel}
use koro.Events.Channel.Firing.{tasks_of}
use koro.Events.Table.{find}
use koro.Loop.{Loop, Ready}

-- The tasks of the timers that are due and on, earliest first.
abbrev pub due_tasks : ℕ → Manager → List Task
due_tasks now m =
    map callback
      (map (Firing.callback m.heap) (select (is_on m.heap) (select (is_due now) m.timers)))

-- What a channel makes of an event, for queue `j`.
abbrev pub channel_tasks : Channel → ℕ → ℕ → List Task
channel_tasks ch revents j = elim ch.task_queue [
  | none ↦ []
  | some q ↦ if q == j then tasks_of (record ch { revents = revents }) else []
]

module _ {K : Type 0} where
  abbrev pub entry_tasks : Option ℕ → ℕ → ℕ → Loop K → List Task
  entry_tasks none revents j s = []
  entry_tasks (some c) revents j s = channel_tasks (s.io.channels c) revents j

  -- The tasks that an event makes for queue `j` on the worker of queue `q`: none, if the event only wakes
  -- the worker; those of the timers, for its own queue; those of the descriptor's channel, for the
  -- channel's queue.
  abbrev pub made : ℕ → ℕ → ℕ → Loop K → Ready → List Task
  made now q j s ev =
      if s.wakeup_fd q == ev.fd
      then []
      else if s.timer_fd q == ev.fd
      then (if q == j then due_tasks now (s.managers q) else [])
      else entry_tasks (find s.io.chs ev.fd) ev.revents j s

  abbrev pub made_all : ℕ → ℕ → ℕ → Loop K → List Ready → List Task
  made_all now q j s [] = []
  made_all now q j s (ev ∷ evs) = made now q j s ev ++ made_all now q j s evs

  -- Every channel of the table has a task queue.
  abbrev pub HasQueues : Loop K → Type 0
  HasQueues s =
      (fd c : ℕ) → find s.io.chs fd ≡ some c → (q : ℕ) × ((s.io.channels c).task_queue ≡ some q)

  -- No channel has changed in what it makes of events; no timer and no descriptor is touched.
  pub record Steady (s t : Loop K) : Type 0 where
    pub chs : t.io.chs ≡ s.io.chs
    pub queues : (c : ℕ) → (t.io.channels c).task_queue ≡ (s.io.channels c).task_queue
    pub channels :
        (c revents j : ℕ)
        → channel_tasks (t.io.channels c) revents j ≡ channel_tasks (s.io.channels c) revents j
    pub wakeup : t.wakeup_fd ≡ s.wakeup_fd
    pub timer : t.timer_fd ≡ s.timer_fd
    pub pending : t.io.pending ≡ s.io.pending

  pub Steady-refl : (s : Loop K) → Steady s s
  Steady-refl s = record {
    chs = refl;
    queues = λ c. refl;
    channels = λ c revents j. refl;
    wakeup = refl;
    timer = refl;
    pending = refl;
  }

  pub Steady-counters :
      (s : Loop K) (q : ℕ) → Steady s (record s { counters = update s.counters q 0 })
  Steady-counters s q = record {
    chs = refl;
    queues = λ c. refl;
    channels = λ c revents j. refl;
    wakeup = refl;
    timer = refl;
    pending = refl;
  }

  pub Steady-trans : {s t u : Loop K} → Steady s t → Steady t u → Steady s u
  Steady-trans a b = record {
    chs = b.chs ∙ a.chs;
    queues = λ c. b.queues c ∙ a.queues c;
    channels = λ c revents j. b.channels c revents j ∙ a.channels c revents j;
    wakeup = b.wakeup ∙ a.wakeup;
    timer = b.timer ∙ a.timer;
    pending = b.pending ∙ a.pending;
  }

  pub Steady-HasQueues : {s t : Loop K} → Steady s t → HasQueues s → HasQueues t
  Steady-HasQueues a h fd c found = let (q, e) = h fd c (rw a.chs at found) in (q, a.queues c ∙ e)

  -- What one event has done.
  pub record Handled (now q : ℕ) (ev : Ready) (s t : Loop K) : Type 0 where
    pub steady : Steady s t
    pub tasks : (j : ℕ) → t.tasks j ≡ s.tasks j ++ made now q j s ev
    pub managers : (s.timer_fd q == ev.fd) ≡ false → t.managers ≡ s.managers
    pub valid : IsValid (t.managers q)
