-- ===== src/Scheduling/Waiting/Examples.antt =====
-- One worker of the base class on its way to wait, and the theorems of Waking and Missed there.
use koro.Prelude.{◌≡◌, ◌≢◌, refl, true, [], ◌∷◌}
use koro.Scheduling.Task.{callback}
use koro.Scheduling.Run.Stopping.{stopping, all_empty}
use koro.Scheduling.Waiting.{
  locking, waiting, woken, parting, joining, System, notify_one, tickle, active_thread_count,
  is_stopping, with_caller, without_task, Step, init, Reach,
}
use koro.Scheduling.Waiting.Waking.{tickle-wakes}
use koro.Scheduling.Waiting.Missed.{Ordinary, IsOutside, notified_too_early, stop_hangs}

abbrev about_to_wait : System
about_to_wait = record (init) { idling = true; worker = locking }

about_to_wait-Reach : Reach about_to_wait
unfolding init without_task
about_to_wait-Reach =
    Reach.later (Reach.later Reach.start (Step.nothing refl refl)) (Step.raise refl)

abbrev waits : System
waits = record (about_to_wait) { worker = waiting }

tickle-wakes_example : tickle waits ≡ record (waits) { worker = woken }
unfolding init
tickle-wakes_example = tickle-wakes (Reach.later about_to_wait-Reach (Step.wait refl))

abbrev pushed : System
pushed = record (about_to_wait) { tasks = callback 4 ∷ []; callers = 1 }

pushed-Reach : Reach pushed
unfolding init with_caller
pushed-Reach = Reach.later about_to_wait-Reach (Step.submit (callback 4))

notified_too_early_example :
    let forgotten = record (pushed) { callers = 0; worker = waiting } in
    Reach forgotten × ((t : System) → Ordinary forgotten t → (t.worker ≡ waiting) × (t.tasks ≢ []))
unfolding init
notified_too_early_example = notified_too_early pushed-Reach refl refl refl (λ e. cc)

-- `stop` is called at the same moment, and finds no task.
abbrev told : System
told = record (about_to_wait) { stop = true; stopper = parting }

told-Reach : Reach told
unfolding init tickle notify_one is_stopping active_thread_count stopping all_empty
told-Reach =
    Reach.later
      (Reach.later (Reach.later about_to_wait-Reach (Step.call_stop refl)) (Step.stop_tickles refl))
      (Step.stop_ends refl refl)

stop_hangs_example :
    let stuck = record (told) { stopper = joining; worker = waiting } in
    Reach stuck × ((t : System) (st : Step stuck t) → IsOutside st)
unfolding init
stop_hangs_example = stop_hangs told-Reach refl refl refl
