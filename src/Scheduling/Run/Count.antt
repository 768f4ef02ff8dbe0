-- ===== src/Scheduling/Run/Count.antt =====
-- How many of the first `n` workers stand between the two updates of `active_thread_count_`.
use koro.Prelude.{total, total-zero, ℕ, ◌≡◌, refl}
use koro.Scheduling.Run.{Pc, fetching, stealing, idle_next, resting, stopped, got}

abbrev pub is_active : Pc → ℕ
is_active fetching = 0
is_active stealing = 0
is_active idle_next = 0
is_active resting = 0
is_active stopped = 0
is_active (got t) = 0
is_active _ = 1

abbrev pub active_workers : ℕ → (ℕ → Pc) → ℕ
active_workers = total is_active

pub active_workers-fetching : (n : ℕ) → active_workers n (λ _. fetching) ≡ 0
active_workers-fetching n = total-zero is_active n (λ _. fetching) (λ i lt. refl)
