-- ===== src/Scheduling/Stealing/Examples.antt =====
-- Three workers, of which the first steals: the lock of the second is taken, the third has two tasks.
use koro.Prelude.{ℕ, ◌≡◌, refl, Bool, Option, some, [], ◌∷◌, if◌then◌else◌, ◌==◌, not}
use koro.Scheduling.Task.{fiber, callback}
use koro.Scheduling.Run.{Memory, init}
use koro.Scheduling.Stealing.{submit, pop_back}

abbrev two_tasks : Memory
two_tasks = record (init.mem) {
  queues = λ j. if j == 2 then fiber 4 ∷ callback 5 ∷ [] else if j == 1 then fiber 3 ∷ [] else [];
}

abbrev not_second : ℕ → Bool
not_second j = not (j == 1)

pop_back_run : pop_back (fiber 4 ∷ callback 5 ∷ []) ≡ some (fiber 4 ∷ [], callback 5)
unfolding pop_back
pop_back_run = refl

submit_run : (submit 3 (fiber 6) two_tasks.queues 4).tickled ≡ Option.none
unfolding submit
submit_run = refl
