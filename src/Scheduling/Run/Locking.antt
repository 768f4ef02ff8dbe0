-- ===== src/Scheduling/Run/Locking.antt =====
-- koro/fiber.h, `tryLock` and `unlock`, as the loop of a worker uses them.
use koro.Prelude.{ℕ, subst, sym, Bool, true, false, if◌then◌else◌, Bool-cases, inl, inr, update}
use koro.Scheduling.Task.{fiber}
use koro.Scheduling.Run.{Memory, Move, counted, locked, refused, settled, leaving}

-- `compare_exchange_strong` on `execute`.
unfoldable pub try_lock : ℕ → (ℕ → Bool) → (ℕ → Bool) × Bool
try_lock f execute = if execute f then (execute, false) else (update execute f true, true)

unfoldable pub unlock : ℕ → (ℕ → Bool) → ℕ → Bool
unlock f execute = update execute f false

-- The step of worker `i` that holds fiber `f` when the call has answered.
abbrev Locks : ℕ → ℕ → Memory → (ℕ → Bool) × Bool → Type 0
Locks i f m (execute, true) =
    Move i m (counted (fiber f)) (record m { execute = execute }) (locked f)
Locks i f m (execute, false) =
    Move i m (counted (fiber f)) (record m { execute = execute }) (refused f)

-- Each answer of `tryLock` is a step of the loop, and so is `unlock`.
pub try_lock-Move :
    (i f : ℕ) (m : Memory)
    → Locks i f m (try_lock f m.execute)
      × Move i m (settled f) (record m { execute = unlock f m.execute }) leaving
unfolding try_lock unlock
try_lock-Move i f m =
    let answer = λ (b : Bool). if b then (m.execute, false) else (update m.execute f true, true) in
    (
      elim (Bool-cases (m.execute f)) [
        | inl held ↦ subst (λ b. Locks i f m (answer b)) (sym held) (Move.try_fail held)
        | inr free ↦ subst (λ b. Locks i f m (answer b)) (sym free) (Move.try_lock free)
      ],
      Move.unlock,
    )
