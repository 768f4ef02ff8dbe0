-- ===== src/Scheduling/Examples.antt =====
-- A run of one worker with one fiber, and the theorems of Run at its states.
use koro.Prelude.{◌<◌, ℕ, ◌≡◌, ◌≢◌, suc, refl, true, some, [], ◌∷◌, ◌++◌, ◌⊎◌, arith, update}
use koro.Scheduling.Task.{ready, running, hold, term, fiber, callback}
use koro.Scheduling.Run.{
  System, pick, submit, new_fiber, init, Reach, start, later, pop, count, try_lock, got, counted,
  locked, returned,
}
use koro.Scheduling.Run.Tracking.{IsTracked, Has, tracks}
use koro.Scheduling.Run.Stopping.{stopping, all_empty}
use koro.Scheduling.Run.Stopping.Scanning.{Steps, stopping_lem}
use koro.Scheduling.Run.Safety.{lock_exclusive, assertions_hold, ready_kept}

abbrev made : System
made = record (init) {
  mem = record (init.mem) { state = update init.mem.state 0 ready; fresh = 1 };
}

made-Reach : Reach 1 made
unfolding init
made-Reach = later start new_fiber

abbrev submitted : System
submitted = record (made) {
  mem = record (made.mem) {
    queues = update made.mem.queues 0 (fiber 0 ∷ []);
    scheduled = update made.mem.scheduled 0 true;
  };
}

submitted-Reach : Reach 1 submitted
unfolding init
submitted-Reach = later made-Reach (submit 0 (fiber 0) (ground arith) (ground arith))

abbrev popped : System
popped = record {
  mem = record (submitted.mem) { queues = update submitted.mem.queues 0 [] };
  pc = update submitted.pc 0 (got (fiber 0));
}

popped-Reach : Reach 1 popped
unfolding init
popped-Reach = later submitted-Reach (pick 0 (ground arith) (pop refl))

abbrev added : System
added = record {
  mem = record (popped.mem) { active = 1 };
  pc = update popped.pc 0 (counted (fiber 0));
}

added-Reach : Reach 1 added
unfolding init
added-Reach = later popped-Reach (pick 0 (ground arith) count)

abbrev taken : System
taken = record {
  mem = record (added.mem) { execute = update added.mem.execute 0 true };
  pc = update added.pc 0 (locked 0);
}

taken-Reach : Reach 1 taken
unfolding init
taken-Reach = later added-Reach (pick 0 (ground arith) (try_lock refl))

lock_exclusive_example : ◌≡◌ {A = ℕ} 0 0
lock_exclusive_example = lock_exclusive taken-Reach 0 0 0 refl refl

assertions_hold_example :
    (taken.pc 0 ≡ locked 0
      → taken.mem.state 0 ≢ term
      → (taken.mem.state 0 ≡ ready) ⊎ (taken.mem.state 0 ≡ hold))
    × (taken.pc 0 ≡ returned 0 → taken.mem.state 0 ≢ running)
assertions_hold_example = assertions_hold taken-Reach 0 0

ready_kept_example : IsTracked submitted.mem.queues submitted.pc 0
unfolding init
ready_kept_example = ready_kept submitted-Reach 0 refl refl

-- While the worker holds the fiber, queue 0 is found empty, and then a callback is put into it.
abbrev behind : System
behind = record (popped) {
  mem = record (popped.mem) {
    queues = update popped.mem.queues 0 (popped.mem.queues 0 ++ callback 7 ∷ []);
  };
}

abbrev at_check : ℕ → System
at_check ℕ.zero = popped
at_check (suc j) = behind

check_next : (j : ℕ) → Steps 1 (at_check j) (at_check (suc j))
check_next ℕ.zero = Steps.go_on Steps.stay (submit 0 (callback 7) (ground arith) tt)
check_next (suc j) = Steps.stay

none_left : stopping 1 5 true popped.mem.active 0 (λ j. (at_check j).mem.queues j) ≡ true
unfolding stopping all_empty init
none_left = refl

stopping_lem_example :
    (true ≡ true)
    × (◌≡◌ {A = ℕ} 0 0)
    × ((f : ℕ)
        → popped.mem.state f ≡ ready
        → popped.mem.scheduled f ≡ true
        → ((i : ℕ) × (i < 1) × (popped.pc i ≡ got (fiber f)))
          ⊎ ((j : ℕ) × (j < 1)
              × Has (fiber f) (popped.mem.queues j)
              × ((at_check j).mem.queues j ≡ [])))
    × ((f : ℕ)
        → behind.mem.state f ≡ ready
        → behind.mem.scheduled f ≡ true
        → ((i : ℕ) × (i < 1) × (tracks (behind.pc i) ≡ some f))
          ⊎ ((j : ℕ) × (j < 1)
              × ((at_check j).mem.queues j ≡ [])
              × Has (fiber f) (behind.mem.queues j)))
stopping_lem_example =
    stopping_lem at_check popped-Reach Steps.stay check_next 5 0 true (ground arith) none_left
