-- ===== src/Scheduling/Wakeup/Examples.antt =====
-- A worker that has gone to sleep when a task comes, and the theorems of Progress at that state.
use koro.Prelude.{ℕ, ◌≤◌, ◌≡◌, ◌≢◌, refl, true, [], ◌∷◌, update}
use koro.Scheduling.Task.{callback}
use koro.Scheduling.Wakeup.{
  Worker, looking, polling, woken, notifying, System, after_push, after_look, Step, init, Reach,
}
use koro.Scheduling.Wakeup.Progress.{IsAlarmed, no_lost_wakeup, Deliveries, sleeper_wakes}

abbrev at : Worker → System
at w = record (init) { worker = w }

looking-Reach : Reach (record (at looking) { idling = true })
unfolding init
looking-Reach =
    Reach.later
      (Reach.later
        (Reach.later (Reach.later Reach.start (Step.own_empty refl refl))
          (Step.stole_none refl refl))
        (Step.raise refl))
      (Step.go_on refl)

abbrev asleep : System
asleep = record (at polling) { idling = true }

asleep-Reach : Reach asleep
unfolding init after_look
asleep-Reach = Reach.later looking-Reach (Step.look refl)

abbrev called : System
called = record (asleep) { tasks = callback 4 ∷ []; callers = update asleep.callers 0 notifying }

called-Reach : Reach called
unfolding init after_push
called-Reach = Reach.later asleep-Reach (Step.submit 0 (callback 4) refl)

has_task : called.tasks ≢ []
has_task e = cc

no_lost_wakeup_example : IsAlarmed called.eventfd called.callers
no_lost_wakeup_example = no_lost_wakeup called-Reach refl has_task

sleeper_wakes_example :
    (n : ℕ) × (n ≤ 3) × (t : System) × Deliveries n called t × (t.worker ≡ woken)
sleeper_wakes_example = sleeper_wakes called-Reach refl has_task
