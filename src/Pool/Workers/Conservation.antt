-- ===== src/Pool/Workers/Conservation.antt =====
-- koro/thread_pool.cpp: no task is lost, and none is run twice.
use koro.Prelude.{
  total, total-update, total-zero, ℕ, ◌+◌, ◌%◌, ◌<◌, ◌≡◌, refl, ap, List, [], ◌∷◌, ◌++◌,
  if◌then◌else◌, ◌==◌, arith, update,
}
use koro.Pool.Workers.{
  Pc, choosing, stealing, locking, waiting, running, returned, System, Step, init, Reach,
}
use koro.Pool.Workers.Sums.{occurrences, occurrences-append}

-- How often the worker has task `t` in hand.
abbrev pub in_hand : ℕ → Pc → ℕ
in_hand t (running x) = if t == x then 1 else 0
in_hand t _ = 0

abbrev pub queued : ℕ → ℕ → (ℕ → List ℕ) → ℕ
queued n t queues = total (occurrences t) n queues

abbrev pub carried : ℕ → ℕ → (ℕ → Pc) → ℕ
carried n t pc = total (in_hand t) n pc

-- Each submitted task is as often in a queue, with a worker, or done, as it was submitted.
abbrev pub IsConserved : ℕ → System → Type 0
IsConserved n s =
    (t : ℕ)
    → occurrences t s.submitted ≡ queued n t s.queues + carried n t s.pc + occurrences t s.ran

-- A worker moves and has no task in hand before or after.
carried-idle :
    (n : ℕ) (pc : ℕ → Pc) (i t : ℕ) (p q : Pc)
    → i < n
    → pc i ≡ p
    → in_hand t p ≡ 0
    → in_hand t q ≡ 0
    → carried n t (update pc i q) ≡ carried n t pc
carried-idle n pc i t p q lt e a b =
    omega (arith, total-update (in_hand t) n pc i q lt, ap (in_hand t) e)

Step-IsConserved : {n : ℕ} {s u : System} → Step n s u → IsConserved n s → IsConserved n u
Step-IsConserved {n} {s} (Step.take_own i x rest lt e h) v t = omega (
  arith,
  v t,
  total-update (occurrences t) n s.queues i rest lt,
  total-update (in_hand t) n s.pc i (running x) lt,
  ap (occurrences t) h,
  ap (in_hand t) e,
)
Step-IsConserved {n} {s} (Step.own_empty i lt e h k) v t =
    omega (arith, v t, carried-idle n s.pc i t choosing stealing lt e refl refl)
Step-IsConserved {n} {s} (Step.leave i lt e h k) v t =
    omega (arith, v t, carried-idle n s.pc i t choosing returned lt e refl refl)
Step-IsConserved {n} {s} (Step.steal i victim x front lt lt' ne e h) v t = omega (
  arith,
  v t,
  total-update (occurrences t) n s.queues victim front lt',
  total-update (in_hand t) n s.pc i (running x) lt,
  ap (occurrences t) h,
  occurrences-append t front (x ∷ []),
  ap (in_hand t) e,
)
Step-IsConserved {n} {s} (Step.steal_none i lt e) v t =
    omega (arith, v t, carried-idle n s.pc i t stealing locking lt e refl refl)
Step-IsConserved {n} {s} (Step.sleep i lt e h k) v t =
    omega (arith, v t, carried-idle n s.pc i t locking waiting lt e refl refl)
Step-IsConserved {n} {s} (Step.stay_awake i lt e h) v t =
    omega (arith, v t, carried-idle n s.pc i t locking choosing lt e refl refl)
Step-IsConserved {n} {s} (Step.wake i lt e h) v t =
    omega (arith, v t, carried-idle n s.pc i t waiting choosing lt e refl refl)
Step-IsConserved {n} {s} (Step.run i x lt e) v t =
    omega (arith, v t, total-update (in_hand t) n s.pc i choosing lt, ap (in_hand t) e)
Step-IsConserved {n} {s} (Step.submit x lt) v t = omega (
  arith,
  v t,
  total-update (occurrences t) n s.queues (s.cur_id % n) (s.queues (s.cur_id % n) ++ x ∷ []) lt,
  occurrences-append t (s.queues (s.cur_id % n)) (x ∷ []),
)
Step-IsConserved (Step.close_next lt) v t = v t

-- In every reachable state each task stands in a queue, is in a worker's hand, or has been run, together
-- exactly as often as it was submitted; so no task is lost or run twice, stealing included.
pub conserved : {n : ℕ} {s : System} → Reach n s → IsConserved n s
unfolding init
conserved {n} Reach.start t = omega (
  arith,
  total-zero (occurrences t) n (λ _. []) (λ i lt. refl),
  total-zero (in_hand t) n (λ _. choosing) (λ i lt. refl),
)
conserved (Reach.later r st) t = Step-IsConserved st (conserved r) t
