-- ===== src/Scheduling/Run/Stopping/Scanning.antt =====
-- koro/scheduler.cpp: `Scheduler::stopping` while workers and callers go on.
use koro.Prelude.{
  total-zero_inv, ℕ, suc, ◌≤◌, ◌<◌, ◌≡◌, sym, ap, ◌∙◌, subst, Bool, true, some, [], arith, ◌⊎◌, inl,
  inr, Bool-cases, ltb, ltb→lt,
}
use koro.Scheduling.Task.{ready, fiber}
use koro.Scheduling.Run.{fetching, got, System, Step, Reach, later}
use koro.Scheduling.Run.Count.{is_active}
use koro.Scheduling.Run.Invariant.{Reach-Inv}
use koro.Scheduling.Run.Tracking.{Has, tracks}
use koro.Scheduling.Run.Safety.{ready_kept}
use koro.Scheduling.Run.Stopping.{stopping, all_empty-nil, stopping-true, in_gap, Reach-IsWithin}

pub data Steps (n : ℕ) (s : System) : System → Type 0 where
  stay : Steps n s s
  go_on : {t u : System} → Steps n s t → Step n t u → Steps n s u

Reach-Steps : {n : ℕ} {s t : System} → Reach n s → Steps n s t → Reach n t
Reach-Steps r Steps.stay = r
Reach-Steps r (Steps.go_on st x) = later (Reach-Steps r st) x

-- A submitted fiber that is ready, in a worker or in a queue that exists.
where_ready :
    {n : ℕ} {s : System}
    → Reach n s
    → (f : ℕ) → s.mem.state f ≡ ready
    → s.mem.scheduled f ≡ true
    → ((i : ℕ) × (i < n) × (tracks (s.pc i) ≡ some f))
      ⊎ ((j : ℕ) × (j < n) × Has (fiber f) (s.mem.queues j))
where_ready {n} {s} r f st sc = elim (ready_kept r f st sc) [
  | inl (j, has) ↦ elim (Bool-cases (ltb j n)) [
    | inl here ↦ inr (j, ltb→lt j n here, has)
    | inr beyond ↦
        absurd (subst (Has (fiber f)) ((Reach-IsWithin r).queues_end j (ground arith)) has)
  ]
  | inr (i, hand) ↦ elim (Bool-cases (ltb i n)) [
    | inl here ↦ inl (i, ltb→lt i n here, hand)
    | inr beyond ↦
        let away : s.pc i ≡ fetching = (Reach-IsWithin r).workers_end i (ground arith) in
        absurd (cc (ap tracks away))
  ]
]

-- The states in which the loop has the locks of the queues, one behind the other.
Reach-each :
    {n : ℕ} {s : System} (at : ℕ → System)
    → Reach n s
    → Steps n s (at 0)
    → ((j : ℕ) → Steps n (at j) (at (suc j)))
    → (j : ℕ) → Reach n (at j)
Reach-each at r first next ℕ.zero = Reach-Steps r first
Reach-each at r first next (suc j) = Reach-Steps (Reach-each at r first next j) (next j)

-- `stopping()` of all queues reads the count of active workers in the state `s` and then each queue `j`
-- under its lock in the state `at j`, and everybody goes on between these. If it answers true, it was
-- told to stop and no event was pending. Each submitted fiber that was ready when the count was
-- read was then in the hand of a worker that had taken it out of a queue and had not yet raised
-- `active_thread_count_`, or in a queue that was empty when it was checked. Each that is ready when the
-- last queue has been checked is with a worker, or in a queue that was empty when it was checked.
pub stopping_lem :
    {n : ℕ} {s : System} (at : ℕ → System)
    → Reach n s
    → Steps n s (at 0)
    → ((j : ℕ) → Steps n (at j) (at (suc j)))
    → (skip pending : ℕ) (stop : Bool) → n ≤ skip
    → stopping n skip stop s.mem.active pending (λ j. (at j).mem.queues j) ≡ true
    → (stop ≡ true)
      × (pending ≡ 0)
      × ((f : ℕ)
          → s.mem.state f ≡ ready
          → s.mem.scheduled f ≡ true
          → ((i : ℕ) × (i < n) × (s.pc i ≡ got (fiber f)))
            ⊎ ((j : ℕ) × (j < n) × Has (fiber f) (s.mem.queues j) × ((at j).mem.queues j ≡ [])))
      × ((f : ℕ)
          → (at n).mem.state f ≡ ready
          → (at n).mem.scheduled f ≡ true
          → ((i : ℕ) × (i < n) × (tracks ((at n).pc i) ≡ some f))
            ⊎ ((j : ℕ) × (j < n)
                × ((at j).mem.queues j ≡ [])
                × Has (fiber f) ((at n).mem.queues j)))
stopping_lem {n} {s} at r first next skip pending stop far h =
    let (told, idle, none_pending, empty) =
      stopping-true n skip s.mem.active pending stop (λ j. (at j).mem.queues j) h in
    let checked : (j : ℕ) → j < n → (at j).mem.queues j ≡ [] =
      λ j lt. all_empty-nil n skip (λ j. (at j).mem.queues j) empty j lt (λ e. omega arith) in
    (
      told,
      none_pending,
      λ f st sc. elim (where_ready r f st sc) [
        | inl (i, lt, hand) ↦ inl (
          i,
          lt,
          in_gap (s.pc i) f (total-zero_inv is_active n s.pc (sym (Reach-Inv r).counts ∙ idle) i lt)
              hand,
        )
        | inr (j, lt, has) ↦ inr (j, lt, has, checked j lt)
      ],
      λ f st sc. elim (where_ready (Reach-each at r first next n) f st sc) [
        | inl hand ↦ inl hand
        | inr (j, lt, has) ↦ inr (j, lt, checked j lt, has)
      ],
    )
