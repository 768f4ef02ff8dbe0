-- ===== src/Scheduling/Task.antt =====
-- koro/task.h and the states of koro/fiber.h. Fibers and callbacks are known by numbers.
use koro.Prelude.{ℕ}

pub data State : Type 0 where
  ready running hold term : State

pub State-discrete : Discrete State
State-discrete = hlevel

-- A `ScheduledTask` that is not empty.
pub data Task : Type 0 where
  fiber : ℕ → Task
  callback : ℕ → Task
