-- ===== src/Scheduling/Waiting/Waking.antt =====
-- koro/scheduler.cpp: a `tickle` of the base class wakes the worker if it waits.
use koro.Prelude.{◌≡◌, refl, sym, ap, ◌∙◌, Bool, true, false, if◌then◌else◌, inl, inr, Bool-cases}
use koro.Scheduling.Waiting.{
  Worker, locking, waiting, woken, System, notify_one, tickle, without_task, Step, init, Reach,
}

-- The worker is between raising `idling` and lowering it.
abbrev pub has_raised : Worker → Bool
has_raised locking = true
has_raised waiting = true
has_raised woken = true
has_raised _ = false

abbrev pub is_waiting : Worker → Bool
is_waiting waiting = true
is_waiting _ = false

has_raised-notify_one : (p : Worker) → has_raised (notify_one p) ≡ has_raised p
unfolding notify_one
has_raised-notify_one waiting = refl
has_raised-notify_one locking = refl
has_raised-notify_one woken = refl
has_raised-notify_one _ = refl

has_raised-tickle :
    (s : System) → has_raised s.worker ≡ s.idling → has_raised (tickle s).worker ≡ (tickle s).idling
unfolding tickle
has_raised-tickle s h = elim (Bool-cases s.idling) [
  | inl raised ↦ rw raised (has_raised-notify_one s.worker ∙ h ∙ raised)
  | inr low ↦ rw low (h ∙ low)
]

has_raised-without_task : (over : Bool) → has_raised (without_task over) ≡ false
unfolding without_task
has_raised-without_task true = refl
has_raised-without_task false = refl

Step-raised :
    {s t : System} → Step s t → has_raised s.worker ≡ s.idling → has_raised t.worker ≡ t.idling
Step-raised {s} (Step.take t rest p e) h = sym (ap has_raised p) ∙ h
Step-raised {s} (Step.nothing p e) h =
    has_raised-without_task s.idle_over ∙ sym (ap has_raised p) ∙ h
Step-raised (Step.count p) h = sym (ap has_raised p) ∙ h
Step-raised (Step.push_own t p) h = h
Step-raised (Step.uncount p) h = sym (ap has_raised p) ∙ h
Step-raised (Step.raise p) h = refl
Step-raised (Step.wait p) h = sym (ap has_raised p) ∙ h
Step-raised (Step.wake_up p) h = sym (ap has_raised p) ∙ h
Step-raised (Step.lower p) h = refl
Step-raised (Step.go_on p q) h = sym (ap has_raised p) ∙ h
Step-raised (Step.finish p q) h = sym (ap has_raised p) ∙ h
Step-raised (Step.submit t) h = h
Step-raised {s} (Step.notify n e) h = has_raised-tickle (record s { callers = n }) h
Step-raised (Step.call_stop e) h = h
Step-raised {s} (Step.stop_tickles e) h = has_raised-tickle _ h
Step-raised (Step.stop_again e q) h = h
Step-raised (Step.stop_ends e q) h = h
Step-raised (Step.stop_parts e) h = has_raised-tickle _ h
Step-raised (Step.join e q) h = h

pub Reach-raised : {s : System} → Reach s → has_raised s.worker ≡ s.idling
unfolding init
Reach-raised Reach.start = refl
Reach-raised (Reach.later r st) = Step-raised st (Reach-raised r)

notified :
    (p : Worker) (s : System)
    → record s { worker = notify_one p }
      ≡ (if is_waiting p then record s { worker = woken } else record s { worker = p })
unfolding notify_one
notified waiting s = refl
notified locking s = refl
notified woken s = refl
notified _ s = refl

quiet : (p : Worker) → has_raised p ≡ false → is_waiting p ≡ false
quiet waiting h = absurd (cc)
quiet locking h = refl
quiet woken h = refl
quiet _ h = refl

pub tickle-raised :
    (s : System)
    → has_raised s.worker ≡ s.idling
    → tickle s ≡ (if is_waiting s.worker then record s { worker = woken } else s)
unfolding tickle
tickle-raised s h = elim (Bool-cases s.idling) [
  | inl raised ↦
      ap (λ b. if b then record s { worker = notify_one s.worker } else s) raised
      ∙ notified s.worker s
  | inr low ↦
      ap (λ b. if b then record s { worker = notify_one s.worker } else s) low
      ∙ ap (λ b. if b then record s { worker = woken } else s) (sym (quiet s.worker (h ∙ low)))
]

-- In every reachable state `tickle` wakes the worker if it waits for the condition variable, and else does
-- nothing: the test of `idling` never holds back a notification that the worker waits for.
pub tickle-wakes :
    {s : System}
    → Reach s
    → tickle s ≡ (if is_waiting s.worker then record s { worker = woken } else s)
tickle-wakes {s} r = tickle-raised s (Reach-raised r)
