-- ===== src/Scheduling/Waiting/Missed.antt =====
-- koro/scheduler.cpp: a `tickle` of the base class that comes before the wait is missed.
use koro.Prelude.{ℕ, ◌≡◌, ◌≢◌, refl, ap, ◌∙◌, List, [], ◌∷◌, append_nonempty, if◌then◌else◌, subst}
use koro.Scheduling.Waiting.Waking.{has_raised, is_waiting, tickle-raised, Reach-raised}
use koro.Scheduling.Task.{Task}
use koro.Scheduling.Waiting.{
  locking, waiting, woken, away, parting, joining, System, tickle, with_caller, Step, Reach,
}

-- Neither the end of a wait by itself nor a call of `stop`.
abbrev pub IsOrdinary : {s t : System} → Step s t → Type 0
IsOrdinary (Step.wake_up p) = ⊥
IsOrdinary (Step.call_stop e) = ⊥
IsOrdinary _ = Unit {0}

-- The end of a wait by itself, or a new task.
abbrev pub IsOutside : {s t : System} → Step s t → Type 0
IsOutside (Step.wake_up p) = Unit {0}
IsOutside (Step.submit t) = Unit {0}
IsOutside _ = ⊥

-- What ordinary steps lead to.
pub data Ordinary (s : System) : System → Type 0 where
  here : Ordinary s s
  next : {t u : System} → Ordinary s t → (st : Step t u) → IsOrdinary st → Ordinary s u

pub record IsForgotten (s : System) : Type 0 where
  pub waits : s.worker ≡ waiting
  pub has_tasks : s.tasks ≢ []
  pub no_caller : s.callers ≡ 0
  pub not_stopped : s.stopper ≡ away

with_caller-nonempty : (tasks : List Task) (n : ℕ) → tasks ≢ [] → with_caller tasks n ≡ n
unfolding with_caller
with_caller-nonempty [] n h = absurd (h refl)
with_caller-nonempty (t ∷ tasks) n h = refl

Step-IsForgotten : {s t : System} (st : Step s t) → IsOrdinary st → IsForgotten s → IsForgotten t
Step-IsForgotten (Step.take t rest p e) o f = absurd (cc (p, f.waits))
Step-IsForgotten (Step.nothing p e) o f = absurd (cc (p, f.waits))
Step-IsForgotten (Step.count p) o f = absurd (cc (p, f.waits))
Step-IsForgotten (Step.push_own t p) o f = absurd (cc (p, f.waits))
Step-IsForgotten (Step.uncount p) o f = absurd (cc (p, f.waits))
Step-IsForgotten (Step.raise p) o f = absurd (cc (p, f.waits))
Step-IsForgotten (Step.wait p) o f = absurd (cc (p, f.waits))
Step-IsForgotten (Step.wake_up p) o f = absurd o
Step-IsForgotten (Step.lower p) o f = absurd (cc (p, f.waits))
Step-IsForgotten (Step.go_on p q) o f = absurd (cc (p, f.waits))
Step-IsForgotten (Step.finish p q) o f = absurd (cc (p, f.waits))
Step-IsForgotten {s} (Step.submit t) o f = record {
  waits = f.waits;
  has_tasks = append_nonempty s.tasks t;
  no_caller = with_caller-nonempty s.tasks s.callers f.has_tasks ∙ f.no_caller;
  not_stopped = f.not_stopped;
}
Step-IsForgotten (Step.notify n e) o f = absurd (cc (e, f.no_caller))
Step-IsForgotten (Step.call_stop e) o f = absurd o
Step-IsForgotten (Step.stop_tickles e) o f = absurd (cc (e, f.not_stopped))
Step-IsForgotten (Step.stop_again e q) o f = absurd (cc (e, f.not_stopped))
Step-IsForgotten (Step.stop_ends e q) o f = absurd (cc (e, f.not_stopped))
Step-IsForgotten (Step.stop_parts e) o f = absurd (cc (e, f.not_stopped))
Step-IsForgotten (Step.join e q) o f = absurd (cc (e, f.not_stopped))

Ordinary-IsForgotten : {s t : System} → IsForgotten s → Ordinary s t → IsForgotten t
Ordinary-IsForgotten f Ordinary.here = f
Ordinary-IsForgotten f (Ordinary.next r st o) = Step-IsForgotten st o (Ordinary-IsForgotten f r)

tickle-locking : (s : System) → has_raised s.worker ≡ s.idling → s.worker ≡ locking → tickle s ≡ s
tickle-locking s h p =
    tickle-raised s h ∙ ap (λ q. if is_waiting q then record s { worker = woken } else s) p

-- A task pushed to the empty queue while the worker is on its way to wait is forgotten: if the `tickle`
-- behind the push comes before `cv.wait`, the worker goes to wait over its queue, and neither that thread
-- nor any later `submit` wakes it, until `stop` is called or the wait ends by itself.
pub notified_too_early :
    {s : System}
    → Reach s
    → s.worker ≡ locking
    → s.callers ≡ 1
    → s.stopper ≡ away
    → s.tasks ≢ []
    → let forgotten = record s { callers = 0; worker = waiting } in
      Reach forgotten
      × ((t : System) → Ordinary forgotten t → (t.worker ≡ waiting) × (t.tasks ≢ []))
notified_too_early {s} r at one free some_task =
    let missed = tickle-locking (record s { callers = 0 }) (Reach-raised r) at in
    (
      Reach.later (subst Reach missed (Reach.later r (Step.notify 0 one))) (Step.wait at),
      λ t steps.
          let f =
            Ordinary-IsForgotten
              (record { waits = refl; has_tasks = some_task; no_caller = refl; not_stopped = free })
              steps in
          (f.waits, f.has_tasks),
    )

Step-IsOutside :
    {s t : System} (st : Step s t)
    → s.worker ≡ waiting
    → s.stopper ≡ joining
    → s.callers ≡ 0
    → IsOutside st
Step-IsOutside (Step.take t rest p e) w j n = absurd (cc (p, w))
Step-IsOutside (Step.nothing p e) w j n = absurd (cc (p, w))
Step-IsOutside (Step.count p) w j n = absurd (cc (p, w))
Step-IsOutside (Step.push_own t p) w j n = absurd (cc (p, w))
Step-IsOutside (Step.uncount p) w j n = absurd (cc (p, w))
Step-IsOutside (Step.raise p) w j n = absurd (cc (p, w))
Step-IsOutside (Step.wait p) w j n = absurd (cc (p, w))
Step-IsOutside (Step.wake_up p) w j n = tt
Step-IsOutside (Step.lower p) w j n = absurd (cc (p, w))
Step-IsOutside (Step.go_on p q) w j n = absurd (cc (p, w))
Step-IsOutside (Step.finish p q) w j n = absurd (cc (p, w))
Step-IsOutside (Step.submit t) w j n = tt
Step-IsOutside (Step.notify k e) w j n = absurd (cc (e, n))
Step-IsOutside (Step.call_stop e) w j n = absurd (cc (e, j))
Step-IsOutside (Step.stop_tickles e) w j n = absurd (cc (e, j))
Step-IsOutside (Step.stop_again e q) w j n = absurd (cc (e, j))
Step-IsOutside (Step.stop_ends e q) w j n = absurd (cc (e, j))
Step-IsOutside (Step.stop_parts e) w j n = absurd (cc (e, j))
Step-IsOutside (Step.join e q) w j n = absurd (cc (q, w))

-- The last `tickle` of `stop` that finds the worker on its way to wait is missed too: the worker waits and
-- `stop` waits for the worker to end. Unless a task is submitted or the wait ends by itself, no step is
-- left.
pub stop_hangs :
    {s : System}
    → Reach s
    → s.worker ≡ locking
    → s.callers ≡ 0
    → s.stopper ≡ parting
    → let stuck = record s { stopper = joining; worker = waiting } in
      Reach stuck × ((t : System) (st : Step stuck t) → IsOutside st)
stop_hangs {s} r at none_left last =
    let missed = tickle-locking (record s { stopper = joining }) (Reach-raised r) at in
    (
      Reach.later (subst Reach missed (Reach.later r (Step.stop_parts last))) (Step.wait at),
      λ t st. Step-IsOutside st refl refl none_left,
    )
