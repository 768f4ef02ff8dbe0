-- ===== src/Scheduling/Run/Invariant/Defs.antt =====
-- Which worker holds which fiber, and what the fields of a fiber say about it.
use koro.Prelude.{ℕ, ◌≤◌, ◌<◌, ◌≡◌, true, false, Option, none, some, All}
use koro.Scheduling.Task.{ready, running, fiber}
use koro.Scheduling.Run.{
  Memory, Pc, got, counted, refused, locked, inside, returned, settled, IsKnown,
}
use koro.Scheduling.Run.Count.{active_workers}

-- The fiber whose lock the worker holds.
abbrev pub owns : Pc → Option ℕ
owns (locked f) = some f
owns (inside f) = some f
owns (returned f) = some f
owns (settled f) = some f
owns _ = none

-- The fiber of the task that the worker has in hand.
abbrev pub carries : Pc → Option ℕ
carries (got (fiber f)) = some f
carries (counted (fiber f)) = some f
carries (refused f) = some f
carries (locked f) = some f
carries (inside f) = some f
carries (returned f) = some f
carries (settled f) = some f
carries _ = none

pub record Inv (n : ℕ) (m : Memory) (pc : ℕ → Pc) : Type 0 where
  pub counts : m.active ≡ active_workers n pc
  pub held : (i f : ℕ) → owns (pc i) ≡ some f → m.execute f ≡ true
  pub owner : (f : ℕ) → m.execute f ≡ true → (i : ℕ) × (owns (pc i) ≡ some f)
  pub unique : (i j f : ℕ) → owns (pc i) ≡ some f → owns (pc j) ≡ some f → i ≡ j
  pub runs : (i f : ℕ) → pc i ≡ inside f → m.state f ≡ running
  pub runner : (f : ℕ) → m.state f ≡ running → (i : ℕ) × (pc i ≡ inside f)
  pub known : (j : ℕ) → All (IsKnown m.fresh) (m.queues j)
  pub in_hand : (i f : ℕ) → carries (pc i) ≡ some f → f < m.fresh
  pub unborn : (f : ℕ) → m.fresh ≤ f → (m.execute f ≡ false) × (m.state f ≡ ready)
