-- ===== src/Scheduling/Run/Safety.antt =====
-- koro/scheduler.cpp, `Scheduler::run`: what the workers promise, in every reachable state.
use koro.Prelude.{
  ℕ, ◌<◌, ◌≡◌, ◌≢◌, refl, sym, ap, ◌∙◌, true, some, List, [], ◌∷◌, ◌++◌, ◌==◌, arith, Bool-cases,
  ◌⊎◌, inl, inr, subst, update,
}
use koro.Scheduling.Task.{State, ready, running, hold, term, Task, fiber, callback}
use koro.Scheduling.Run.{
  Memory, Pc, locked, inside, returned, System, IsKnown, Move, wrap, Step, pick, submit, new_fiber,
  init, Reach, start, later, mark,
}
use koro.Scheduling.Run.Invariant.{Inv, Reach-Inv, owns}
use koro.Scheduling.Run.Tracking.{IsTracking, IsTracked, Has, Move-ready_kept, queued_push, pushed}

-- In every reachable state no two workers hold the lock of the same fiber, from `tryLock` to `unlock`, the
-- time that they spend in the fiber included.
pub lock_exclusive :
    {n : ℕ} {s : System}
    → Reach n s
    → (i j f : ℕ) → owns (s.pc i) ≡ some f
    → owns (s.pc j) ≡ some f
    → i ≡ j
lock_exclusive r i j f p q = (Reach-Inv r).unique i j f p q

-- `execute` is set exactly while some worker is between `tryLock` and `unlock` of the fiber.
pub execute_iff :
    {n : ℕ} {s : System}
    → Reach n s
    → (f : ℕ)
    → (s.mem.execute f ≡ true → (i : ℕ) × (owns (s.pc i) ≡ some f))
      × ((i : ℕ) → owns (s.pc i) ≡ some f → s.mem.execute f ≡ true)
execute_iff r f = ((Reach-Inv r).owner f, λ i q. (Reach-Inv r).held i f q)

-- The assertions of `resume` and `run` hold: a fiber that a worker has locked and does not find
-- terminated is ready or on hold, and one that has come back from `resume` is not running.
pub assertions_hold :
    {n : ℕ} {s : System}
    → Reach n s
    → (i f : ℕ)
    → (s.pc i ≡ locked f → s.mem.state f ≢ term → (s.mem.state f ≡ ready) ⊎ (s.mem.state f ≡ hold))
      × (s.pc i ≡ returned f → s.mem.state f ≢ running)
assertions_hold {n} {s} r i f = (
  λ q live. by_state (s.mem.state f) (not_running (locked f) q refl (λ e. cc)) live,
  λ q. not_running (returned f) q refl (λ e. cc),
)
  where
    v : Inv n s.mem s.pc
    v = Reach-Inv r

    not_running : (p : Pc) → s.pc i ≡ p → owns p ≡ some f → p ≢ inside f → s.mem.state f ≢ running
    not_running p e own away run =
        let (k, q) = v.runner f run in
        let same : i ≡ k = v.unique i k f (ap owns e ∙ own) (ap owns q) in
        away (sym e ∙ ap s.pc same ∙ q)

    by_state : (st : State) → st ≢ running → st ≢ term → (st ≡ ready) ⊎ (st ≡ hold)
    by_state ready a b = inl refl
    by_state running a b = absurd (a refl)
    by_state hold a b = inr refl
    by_state term a b = absurd (b refl)

Move-born :
    {i : ℕ} {m m' : Memory} {pc : ℕ → Pc} {p p' : Pc}
    → IsTracking m pc
    → Move i m p m' p'
    → (f : ℕ) → m'.scheduled f ≡ true
    → f < m'.fresh
Move-born v wrap f h = ground (arith, v.born f)
Move-born v mv f h = v.born f h

-- A submitted task stands at the end of queue `j`.
IsTracked-submit :
    (queues : ℕ → List Task) (pc : ℕ → Pc) (j : ℕ) (x : Task) (f : ℕ)
    → IsTracked queues pc f
    → IsTracked (update queues j (queues j ++ x ∷ [])) pc f
IsTracked-submit queues pc j x f (inl (k, h)) = inl (k, queued_push queues j (fiber f) x k h)
IsTracked-submit queues pc j x f (inr hand) = inr hand

ready_kept-submit :
    {m : Memory} {pc : ℕ → Pc} (j : ℕ) (x : Task)
    → IsTracking m pc
    → (f : ℕ) → m.state f ≡ ready
    → mark x m.scheduled f ≡ true
    → IsTracked (update m.queues j (m.queues j ++ x ∷ [])) pc f
ready_kept-submit {m} {pc} j (callback c) v f st sc =
    IsTracked-submit m.queues pc j (callback c) f (v.ready_kept f st sc)
ready_kept-submit {m} {pc} j (fiber g) v f st sc = elim (Bool-cases (g == f)) [
  | inl here ↦
      let same : g ≡ f = ground arith in
      inl (
        j,
        subst (λ k. Has (fiber k) (update m.queues j (m.queues j ++ fiber g ∷ []) j)) same
            (pushed m.queues j (fiber g)),
      )
  | inr there ↦ IsTracked-submit m.queues pc j (fiber g) f (v.ready_kept f st (ground arith))
]

born-submit :
    {m : Memory} {pc : ℕ → Pc} (x : Task)
    → IsTracking m pc
    → IsKnown m.fresh x
    → (f : ℕ) → mark x m.scheduled f ≡ true
    → f < m.fresh
born-submit (callback c) v k f sc = v.born f sc
born-submit (fiber g) v k f sc = ground (arith, v.born f)

Step-IsTracking :
    {n : ℕ} {s t : System} → Step n s t → IsTracking s.mem s.pc → IsTracking t.mem t.pc
Step-IsTracking (pick i h mv) v = record {
  ready_kept = Move-ready_kept v i mv refl;
  born = Move-born v mv;
}
Step-IsTracking (submit j x b h) v = record {
  ready_kept = ready_kept-submit j x v;
  born = born-submit x v h;
}
Step-IsTracking {s = s} new_fiber v = record {
  ready_kept =
      λ f st sc. let old : f < s.mem.fresh = v.born f sc in v.ready_kept f (ground arith) sc;
  born = λ f sc. omega (arith, v.born f sc);
}

Reach-IsTracking : {n : ℕ} {s : System} → Reach n s → IsTracking s.mem s.pc
unfolding init
Reach-IsTracking start = record { ready_kept = λ f st sc. absurd (cc); born = λ f sc. absurd (cc) }
Reach-IsTracking (later r st) = Step-IsTracking st (Reach-IsTracking r)

-- No fiber that can run is lost: one that was submitted, or made for a callback, and is ready, stands in
-- some queue, or a worker has it in hand on the way between a queue and the fiber.
pub ready_kept :
    {n : ℕ} {s : System}
    → Reach n s
    → (f : ℕ) → s.mem.state f ≡ ready
    → s.mem.scheduled f ≡ true
    → IsTracked s.mem.queues s.pc f
ready_kept r f st sc = (Reach-IsTracking r).ready_kept f st sc
