-- ===== src/Elog/Frontend/Racing/Examples.antt =====
-- Two threads that log, and a third that shuts asynchronous logging down.
use koro.Prelude.{ℕ, ◌<◌, ◌≡◌, refl, false, arith, update}
use koro.Elog.Frontend.Racing.{away, testing, cleared, System, Step, init, Reach}
use koro.Elog.Frontend.Racing.Accounting.{IsAccounted, crashes, accounted}

-- Thread 1 has tested the flag for the first time.
abbrev shutting_down : System
shutting_down = record (init) {
  alive = false;
  shutter = cleared;
  pc = update init.pc 1 testing;
  begun = 1;
}

shutting_down-Reach : Reach 2 shutting_down
unfolding init
shutting_down-Reach =
    Reach.later
      (Reach.later (Reach.later Reach.start (Step.begin 1 (omega arith) refl))
        (Step.call refl refl))
      (Step.reset refl)

accounted_example :
    IsAccounted 2 shutting_down
    × (shutting_down.shutter ≡ cleared
        → (j : ℕ) → j < 2
        → shutting_down.pc j ≡ away
        → Reach 2 (crashes j shutting_down))
accounted_example = accounted shutting_down-Reach
