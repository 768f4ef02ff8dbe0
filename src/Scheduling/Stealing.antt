-- ===== src/Scheduling/Stealing.antt =====
-- koro/scheduler.cpp, `Scheduler::stealTask`, and `submit` of koro/scheduler.h, taken at one moment.
pub mod Victims
mod Examples
use mathlib.Core.Option
use koro.Prelude.{
  ℕ, zero, suc, ◌+◌, ◌-◌, ◌%◌, ◌^◌, Bool, true, false, Option, none, some, List, [], ◌∷◌, ◌++◌,
  if◌then◌else◌, is_empty, update,
}
use koro.Scheduling.Task.{Task}

-- `tasks.back()` and what `tasks.pop_back()` leaves.
unfoldable pub pop_back : List Task → Option (List Task × Task)
pop_back [] = none
pop_back (t ∷ tasks) = elim (pop_back tasks) [
  | none ↦ some ([], t)
  | some (front, last) ↦ some (t ∷ front, last)
]

-- One victim; `owns` says for which queues `std::try_to_lock` gets the lock.
unfoldable pub steal_from : (ℕ → Bool) → ℕ → (ℕ → List Task) → Option ((ℕ → List Task) × Task)
steal_from owns victim queues =
    if owns victim
    then Option.map (λ (front, t). (update queues victim front, t)) (pop_back (queues victim))
    else none

-- The loop from `i` on, with `left` rounds left, over `n` queues.
unfoldable pub steal_loop :
    ℕ → ℕ → (ℕ → Bool) → (ℕ → List Task) → ℕ → ℕ → Option ((ℕ → List Task) × Task)
steal_loop n thief owns queues zero i = none
steal_loop n thief owns queues (suc left) i = elim (steal_from owns ((thief + i) % n) queues) [
  | some r ↦ some r
  | none ↦ steal_loop n thief owns queues left (suc i)
]

unfoldable pub steal_task : ℕ → ℕ → (ℕ → Bool) → (ℕ → List Task) → Option ((ℕ → List Task) × Task)
steal_task n thief owns queues = steal_loop n thief owns queues (n - 1) 1

-- What `submit` leaves: the queues, `thread_to_post_index_`, and the queue whose worker has to be woken.
pub record Submitted : Type 0 where
  pub queues : ℕ → List Task
  pub post_index : ℕ
  pub tickled : Option ℕ

-- `need_tickle`
unfoldable pub submit : ℕ → Task → (ℕ → List Task) → ℕ → Submitted
submit n task queues post_index =
    let idx = post_index % n in
    record {
      queues = update queues idx (queues idx ++ task ∷ []);
      post_index = (post_index + 1) % 2 ^ 64;
      tickled = if is_empty (queues idx) then some idx else none;
    }
