-- ===== src/Loop/Examples.antt =====
-- A worker whose wake-up descriptor is 3, whose timers' descriptor is 4, and a reader of descriptor 5.
use koro.Prelude.{
  ℕ, ◌≡◌, refl, true, none, some, List, [], ◌∷◌, ◌++◌, ◌*◌, ◌+◌, ◌≢◌, arith, ℤ, pos, ap, update,
  update_ne,
}
use koro.Scheduling.Task.{callback}
use koro.Timers.{Timer}
use koro.Timers.Manager.{Manager}
use koro.Timers.Manager.Validity.{IsValid}
use koro.Events.Channel.{Channel, new_channel}
use koro.Events.Strict.{Interest, strict_epoll, change_new, change_old_some}
use koro.Loop.Teardown.{destroy_task_queue}
use koro.Loop.Teardown.Dismantling.{Deletes, destroy_task_queue-on_init}
use koro.Loop.Startup.{Resources, Accepts, on_init}
use koro.Loop.{Loop, Ready, dispatch, run_at, run_after, run_every}
use koro.Loop.Making.{made_all, HasQueues, Steady}
use koro.Loop.Dispatching.{IsOnce, dispatch-made_all}
use koro.Loop.Counting.{Undone, cancelled-Undone}

-- Callback 7 at 100, every 50.
abbrev every_50 : Timer
every_50 = record {
  expiration = 100;
  interval = pos 50;
  repeating = true;
  on = true;
  on_time_callback = 7;
}

abbrev one_timer : Manager
one_timer = record {
  timers = record { time = 100; timer = 1 } ∷ [];
  active_timers = [];
  heap = λ p. every_50;
  next = 2;
  tasks = [];
  fd = none;
}

one_timer-IsValid : IsValid one_timer
one_timer-IsValid = record {
  ordered = (tt, tt);
  keyed = ((refl, omega arith), tt);
  distinct = (tt, tt);
  idle = refl;
  real = ground arith;
}

abbrev reader : Channel
reader = record (new_channel 5 1) { task_queue = some 1; read_callback = some 8 }

abbrev worker : Loop Interest
worker = record {
  io = record {
    epoll = λ q. λ fd. none;
    channels = λ c. reader;
    next = 1;
    chs = none ∷ none ∷ none ∷ none ∷ none ∷ some 0 ∷ [];
    pending = 1;
    post_index = 0;
  };
  managers = λ q. one_timer;
  tasks = λ q. [];
  wakeup_fd = λ q. 3;
  timer_fd = λ q. 4;
  counters = λ q. 1;
}

abbrev three_events : List Ready
three_events =
    record { fd = 5; revents = 1 }
    ∷ record { fd = 4; revents = 1 }
    ∷ record { fd = 3; revents = 1 }
    ∷ []

made_run :
    (made_all 120 0 0 worker three_events ≡ callback 7 ∷ [])
    × (made_all 120 0 1 worker three_events ≡ callback 8 ∷ [])
made_run = (refl, refl)

worker-HasQueues : HasQueues worker
worker-HasQueues fd c h = (1, refl)

three_events-IsOnce : IsOnce 4 three_events
three_events-IsOnce = (λ h. absurd (cc), ((λ h. (refl, tt)), ((λ h. tt), tt)))

dispatch-made_all_example :
    (t : Loop Interest) × (dispatch 120 121 0 three_events worker ≡ some t)
    × ((j : ℕ) → t.tasks j ≡ [] ++ made_all 120 0 j worker three_events)
    × Steady worker t
dispatch-made_all_example =
    dispatch-made_all 120 121 0 three_events worker worker-HasQueues one_timer-IsValid
      three_events-IsOnce

cancelled-Undone_example :
    ((timestamp : ℕ) → Undone 0 worker (run_at 90 6 timestamp 9 (some 0) worker))
    × ((delay_sec : ℤ) → Undone 0 worker (run_after 90 6 delay_sec 9 (some 0) worker))
    × ((interval_sec : ℤ) → Undone 0 worker (run_every 90 6 interval_sec 9 (some 0) worker))
cancelled-Undone_example =
    cancelled-Undone 90 6 9 0 worker (ground arith) one_timer-IsValid (ground arith) (ground arith)

-- Two descriptors for each queue.
abbrev resources : Resources Interest
resources = record {
  instance_of = λ q. λ fd. none;
  event_fd = λ q. 2 * q + 3;
  timer_fd = λ q. 2 * q + 4;
  trigger = λ q. 9;
  heap = λ p. every_50;
  next = 1;
}

resources-Accepts : Accepts strict_epoll resources
resources-Accepts = record {
  wakeup = λ q. refl;
  timer = λ q.
      let ne : 2 * q + 4 ≢ 2 * q + 3 = λ e. absurd (omega arith) in
      ap (λ o. (change_new o (2 * q + 4) (some 1) (update (λ fd. none) (2 * q + 3) (some 1))).1)
        (update_ne (λ fd. none) (some 1) ne);
}

strict_epoll-Deletes : Deletes strict_epoll
strict_epoll-Deletes k fd h = change_old_some (k fd) fd none k h

destroy_task_queue-on_init_example :
    (k : Interest) × (destroy_task_queue strict_epoll (on_init strict_epoll resources 2)
      ≡ some (k, 7 ∷ 8 ∷ []))
    × (k 7 ≡ none)
    × (k 8 ≡ none)
    × ((fd : ℕ) → fd ≢ 7 → fd ≢ 8 → k fd ≡ none)
destroy_task_queue-on_init_example =
    destroy_task_queue-on_init strict_epoll resources 2 strict_epoll-Deletes resources-Accepts
      (λ e. absurd (omega arith))
