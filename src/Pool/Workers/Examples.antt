-- ===== src/Pool/Workers/Examples.antt =====
-- A pool of one worker that runs one task and is destroyed, and the theorems at its states.
use koro.Prelude.{ℕ, zero, suc, ◌<◌, ◌≡◌, refl, true, [], ◌∷◌, arith, update}
use koro.Pool.Workers.{choosing, running, returned, System, Step, init, Reach}
use koro.Pool.Workers.Sums.{occurrences}
use koro.Pool.Workers.Conservation.{IsConserved, conserved}
use koro.Pool.Workers.Draining.{drained}

abbrev submitted : System
submitted = record (init) { queues = update init.queues 0 (5 ∷ []); cur_id = 1; submitted = 5 ∷ [] }

submitted-Reach : Reach 1 submitted
unfolding init
submitted-Reach = Reach.later Reach.start (Step.submit 5 (ground arith))

abbrev taken : System
taken = record (submitted) {
  queues = update submitted.queues 0 [];
  pc = update submitted.pc 0 (running 5);
}

taken-Reach : Reach 1 taken
unfolding init
taken-Reach = Reach.later submitted-Reach (Step.take_own 0 5 [] (ground arith) refl refl)

abbrev finished : System
finished = record (taken) { pc = update taken.pc 0 choosing; ran = 5 ∷ [] }

finished-Reach : Reach 1 finished
unfolding init
finished-Reach = Reach.later taken-Reach (Step.run 0 5 (ground arith) refl)

abbrev told : System
told = record (finished) { stop = update finished.stop 0 true; closing = 1 }

told-Reach : Reach 1 told
unfolding init
told-Reach = Reach.later finished-Reach (Step.close_next (ground arith))

abbrev left : System
left = record (told) { pc = update told.pc 0 returned }

left-Reach : Reach 1 left
unfolding init
left-Reach = Reach.later told-Reach (Step.leave 0 (ground arith) refl refl refl)

all_left : (i : ℕ) → i < 1 → left.pc i ≡ returned
all_left zero h = refl
all_left (suc i) h = absurd (omega arith)

conserved_example : IsConserved 1 taken
conserved_example = conserved taken-Reach

drained_example : occurrences 5 left.ran ≡ occurrences 5 left.submitted
unfolding init
drained_example = drained left-Reach all_left refl 5
