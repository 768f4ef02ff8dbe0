-- ===== src/Pool/Workers/Draining.antt =====
-- koro/thread_pool.cpp, `ThreadPool::~ThreadPool`: what has been done when every worker has returned.
use koro.Prelude.{
  total-zero, append_nonempty, ℕ, ◌<◌, ◌≡◌, ◌≢◌, refl, sym, ap, ◌∙◌, subst, Bool, true, false, not,
  ◌||◌, List, [], ◌==◌, arith, inl, inr, update, update-cases,
}
use koro.Pool.Workers.{
  Pc, choosing, stealing, locking, waiting, running, returned, System, Step, init, Reach,
}
use koro.Pool.Workers.Sums.{occurrences}
use koro.Pool.Workers.Conservation.{conserved, in_hand}

pub record IsClosing (s : System) : Type 0 where
  pub told : (i : ℕ) → s.stop i ≡ true → 0 < s.closing
  pub left : (i : ℕ) → s.pc i ≡ returned → s.stop i ≡ true
  pub empty : s.late ≡ false → (i : ℕ) → s.pc i ≡ returned → s.queues i ≡ []

module _ {s : System} (v : IsClosing s) where
  -- A worker goes on to `p`, which is not the end, and the queues stay.
  IsClosing-move : (i : ℕ) (p : Pc) → p ≢ returned → IsClosing (record s { pc = update s.pc i p })
  IsClosing-move i p ne = record {
    told = v.told;
    left = λ j h. v.left j (before j h);
    empty = λ calm j h. v.empty calm j (before j h);
  }
    where
      before : (j : ℕ) → update s.pc i p j ≡ returned → s.pc j ≡ returned
      before j h = elim (update-cases s.pc i j p) [
        | inl (same, w) ↦ absurd (ne (sym w ∙ h))
        | inr (apart, w) ↦ sym w ∙ h
      ]

  -- A queue that was not empty gets shorter.
  IsClosing-take :
      (i : ℕ) (xs : List ℕ)
      → s.queues i ≢ []
      → IsClosing (record s { queues = update s.queues i xs })
  IsClosing-take i xs ne = record {
    told = v.told;
    left = v.left;
    empty = λ calm j h. elim (update-cases s.queues i j xs) [
      | inl (same, w) ↦ absurd (ne (ap s.queues same ∙ v.empty calm j h))
      | inr (apart, w) ↦ w ∙ v.empty calm j h
    ];
  }

on_time : (late : Bool) (closing : ℕ) → (late || not (closing == 0)) ≡ false → closing ≡ 0
on_time true closing h = absurd (cc)
on_time false closing h = ground arith

Step-IsClosing : {n : ℕ} {s u : System} → Step n s u → IsClosing s → IsClosing u
Step-IsClosing {s = s} (Step.take_own i t rest lt e h) v =
    IsClosing-move (IsClosing-take v i rest (λ q. absurd (cc))) i (running t) (λ q. cc)
Step-IsClosing {s = s} (Step.leave i lt e h k) v = record {
  told = v.told;
  left = λ j q. elim (update-cases s.pc i j returned) [
    | inl (same, w) ↦ subst (λ x. s.stop x ≡ true) same k
    | inr (apart, w) ↦ v.left j (sym w ∙ q)
  ];
  empty = λ calm j q. elim (update-cases s.pc i j returned) [
    | inl (same, w) ↦ subst (λ x. s.queues x ≡ []) same h
    | inr (apart, w) ↦ v.empty calm j (sym w ∙ q)
  ];
}
Step-IsClosing {s = s} (Step.steal i victim t front lt lt' ne e h) v =
    IsClosing-move (IsClosing-take v victim front (λ q. append_nonempty front t (sym h ∙ q))) i
      (running t) (λ q. cc)
Step-IsClosing (Step.own_empty i lt e h k) v = IsClosing-move v i stealing (λ q. cc)
Step-IsClosing (Step.steal_none i lt e) v = IsClosing-move v i locking (λ q. cc)
Step-IsClosing (Step.sleep i lt e h k) v = IsClosing-move v i waiting (λ q. cc)
Step-IsClosing (Step.stay_awake i lt e h) v = IsClosing-move v i choosing (λ q. cc)
Step-IsClosing (Step.wake i lt e h) v = IsClosing-move v i choosing (λ q. cc)
Step-IsClosing {s = s} (Step.run i t lt e) v =
    let w = IsClosing-move v i choosing (λ q. cc) in
    record { told = w.told; left = w.left; empty = w.empty }
Step-IsClosing {s = s} (Step.submit t lt) v = record {
  told = v.told;
  left = v.left;
  empty = λ calm j q. absurd (omega (arith, v.told j (v.left j q), on_time s.late s.closing calm));
}
Step-IsClosing {s = s} (Step.close_next lt) v = record {
  told = λ i q. omega arith;
  left = λ j q. elim (update-cases s.stop s.closing j true) [
    | inl (same, w) ↦ w
    | inr (apart, w) ↦ w ∙ v.left j q
  ];
  empty = v.empty;
}

Reach-IsClosing : {n : ℕ} {s : System} → Reach n s → IsClosing s
unfolding init
Reach-IsClosing Reach.start = record {
  told = λ i h. absurd (cc);
  left = λ i h. absurd (cc);
  empty = λ calm i h. refl;
}
Reach-IsClosing (Reach.later r st) = Step-IsClosing st (Reach-IsClosing r)

-- When all workers have returned, which is what the destructor waits for, and nobody has submitted a task
-- since the destructor started, each task has been run exactly as often as it was submitted.
pub drained :
    {n : ℕ} {s : System}
    → Reach n s
    → ((i : ℕ) → i < n → s.pc i ≡ returned)
    → s.late ≡ false
    → (t : ℕ) → occurrences t s.ran ≡ occurrences t s.submitted
drained {n} {s} r all calm t = omega (
  arith,
  conserved r t,
  total-zero (occurrences t) n s.queues
      (λ i lt. ap (occurrences t) ((Reach-IsClosing r).empty calm i (all i lt))),
  total-zero (in_hand t) n s.pc (λ i lt. ap (in_hand t) (all i lt)),
)
