-- ===== src/Fibers/Examples.antt =====
-- A thread with one fiber that stops twice, and the theorems about it.
use koro.Prelude.{ℕ, ◌≡◌, ◌≢◌, refl, true, none, some, List, [], ◌∷◌, inl, arith, update}
use koro.Fibers.{
  Action, work, yields, holds, Thread, thread_fiber, new_fiber, running_fiber, outside, can_resume,
}
use koro.Fibers.Coroutine.{segment}
use koro.Fibers.Switching.{IsIdle}
use koro.Fibers.Life.{Stops}
use koro.Fibers.Life.Resuming.{resume_and_run, resume-segment}
use koro.Fibers.Life.Completion.{resume_times, Ended, resumed_to_end}

abbrev actions : List Action
actions = work 5 ∷ yields ∷ work 6 ∷ holds ∷ work 7 ∷ []

abbrev empty : Thread
empty = record {
  fibers = λ _. thread_fiber;
  next = 0;
  t_fiber = none;
  t_scheduler_fiber = none;
  t_thread_fiber = none;
  control = outside;
  log = [];
}

abbrev started : Thread
unfolding running_fiber
started = (running_fiber empty).0

abbrev with_one : Thread
unfolding running_fiber
with_one = record (started) { fibers = update started.fibers 1 (new_fiber actions true); next = 2 }

idle : IsIdle 0 with_one
unfolding running_fiber
idle = record { control = refl; current = refl; scheduler = refl; thread = refl }

apart : ◌≢◌ {A = ℕ} 1 0
apart = ground arith

resume-segment_example :
    (u : Thread) × (resume_and_run 9 1 with_one ≡ some u) × Stops 0 1 with_one (segment actions) u
unfolding running_fiber can_resume new_fiber
resume-segment_example =
    resume-segment 0 1 actions 9 with_one idle apart refl (inl (refl, refl)) (ground arith)

resumed_to_end_example :
    (u : Thread) × (resume_times 3 9 1 with_one ≡ some u) × Ended 0 1 with_one actions u
unfolding running_fiber can_resume new_fiber
resumed_to_end_example =
    resumed_to_end 0 1 9 actions with_one idle apart refl (inl (refl, refl)) (ground arith)
