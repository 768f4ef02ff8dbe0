-- ===== src/Scheduling/Stealing/Victims.antt =====
-- koro/scheduler.cpp, `Scheduler::stealTask`: it is a step of the workers' loop, and it overlooks nothing.
use koro.Prelude.{
  ℕ, ◌+◌, ◌%◌, ◌≤◌, ◌<◌, ◌≡◌, ◌≢◌, Bool, true, Option, none, some, List, [], ◌∷◌, ◌++◌, update,
}
use koro.Scheduling.Task.{Task}
use koro.Scheduling.Run.{Memory, Move, stealing, idle_next, got}

-- `pop_back` takes the last task, and fails on an empty queue only.
PoppedBack : List Task → Option (List Task × Task) → Type 0
PoppedBack tasks none = tasks ≡ []
PoppedBack tasks (some (front, t)) = tasks ≡ front ++ t ∷ []

-- What is stolen from the victims of the rounds from `i` on.
module _ (n thief : ℕ) (owns : ℕ → Bool) (queues : ℕ → List Task) where
  -- Nothing is there to take from the queue, or its lock is taken.
  abbrev pub IsBarren : ℕ → Type 0
  IsBarren j = owns j ≡ true → queues j ≡ []

  abbrev pub Stolen : ℕ → (ℕ → List Task) → Task → Type 0
  Stolen victim after t =
      (owns victim ≡ true)
      × (front : List Task) × (queues victim ≡ front ++ t ∷ [])
      × (after ≡ update queues victim front)

  abbrev Tried : ℕ → Option ((ℕ → List Task) × Task) → Type 0
  Tried victim none = IsBarren victim
  Tried victim (some (after, t)) = Stolen victim after t

  -- The rounds from `i` on, `left` of them.
  abbrev Searched : ℕ → ℕ → Option ((ℕ → List Task) × Task) → Type 0
  Searched left i none = (k : ℕ) → i ≤ k → k < i + left → IsBarren ((thief + k) % n)
  Searched left i (some (after, t)) =
      (k : ℕ) × (i ≤ k) × (k < i + left) × Stolen ((thief + k) % n) after t

-- What `stealTask` is for in the loop of worker `thief` of `n`: it goes on with the last task of another
-- worker's queue, from which it has been taken, or with none, and then each other queue is empty or
-- locked.
abbrev pub Outcome : ℕ → ℕ → (ℕ → Bool) → Memory → Option ((ℕ → List Task) × Task) → Type 0
Outcome n thief owns m none =
    Move thief m stealing m idle_next
    × ((j : ℕ) → j < n → j ≢ thief → IsBarren n thief owns m.queues j)
Outcome n thief owns m (some (after, t)) =
    Move thief m stealing (record m { queues = after }) (got t)
    × ((victim : ℕ) × (victim < n) × (victim ≢ thief) × (owns victim ≡ true))
