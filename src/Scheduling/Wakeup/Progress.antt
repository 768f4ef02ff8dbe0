-- ===== src/Scheduling/Wakeup/Progress.antt =====
-- koro/io_manager.cpp, `idle` and `tickle`: a worker does not sleep over a task in its queue.
use koro.Prelude.{
  append_nonempty, ℕ, suc, ◌≤◌, ◌<◌, ◌≡◌, ◌≢◌, refl, sym, ap, ◌∙◌, Bool, true, false, List, [], ◌∷◌,
  ◌⊎◌, inl, inr, arith, subst, update, update_ne, update_self,
}
use koro.Scheduling.Task.{Task}
use koro.Scheduling.Wakeup.{
  Worker, Caller, deciding, looking, lowering, quitting, polling, woken, away, notifying, writing,
  System, write_event_fd, after_push, after_look, after_notify, Step, init, Reach,
}

-- The worker is between raising `idling` and lowering it.
abbrev pub has_raised : Worker → Bool
has_raised deciding = true
has_raised looking = true
has_raised lowering = true
has_raised quitting = true
has_raised polling = true
has_raised woken = true
has_raised _ = false

-- The eventfd is readable, or some thread is on its way to write to it.
abbrev pub IsAlarmed : ℕ → (ℕ → Caller) → Type 0
IsAlarmed eventfd callers =
    (0 < eventfd) ⊎ ((j : ℕ) × ((callers j ≡ notifying) ⊎ (callers j ≡ writing)))

pub record Inv (s : System) : Type 0 where
  pub raised : has_raised s.worker ≡ true → s.idling ≡ true
  pub alarmed : s.worker ≡ polling → s.tasks ≢ [] → IsAlarmed s.eventfd s.callers

write_event_fd-pos : (n : ℕ) → 0 < write_event_fd n
unfolding write_event_fd
write_event_fd-pos n = ground arith

-- An alarm outlasts a step of a caller that is not part of it.
IsAlarmed-update :
    (eventfd : ℕ) (callers : ℕ → Caller) (j : ℕ) (p : Caller)
    → callers j ≡ away
    → IsAlarmed eventfd callers
    → IsAlarmed eventfd (update callers j p)
IsAlarmed-update eventfd callers j p h (inl pos) = inl pos
IsAlarmed-update eventfd callers j p h (inr (k, at)) =
    let apart : k ≢ j = λ e. absurd (elim at [ inl n ↦ cc | inr w ↦ cc ]) in
    inr (k, subst (λ c. (c ≡ notifying) ⊎ (c ≡ writing)) (sym (update_ne callers p apart)) at)

IsAlarmed-own :
    (eventfd : ℕ) (callers : ℕ → Caller) (j : ℕ) (p : Caller)
    → (p ≡ notifying) ⊎ (p ≡ writing)
    → IsAlarmed eventfd (update callers j p)
IsAlarmed-own eventfd callers j p at =
    inr (j, subst (λ c. (c ≡ notifying) ⊎ (c ≡ writing)) (sym (update_self callers j p)) at)

IsAlarmed-notify :
    (eventfd : ℕ) (callers : ℕ → Caller) (j : ℕ) → IsAlarmed eventfd (update callers j writing)
IsAlarmed-notify eventfd callers j = IsAlarmed-own eventfd callers j writing (inr refl)

IsAlarmed-push :
    (eventfd : ℕ) (callers : ℕ → Caller) (j : ℕ) (tasks : List Task)
    → callers j ≡ away
    → (tasks ≢ [] → IsAlarmed eventfd callers)
    → IsAlarmed eventfd (update callers j (after_push tasks))
unfolding after_push
IsAlarmed-push eventfd callers j [] h old = IsAlarmed-own eventfd callers j notifying (inl refl)
IsAlarmed-push eventfd callers j (t ∷ tasks) h old =
    IsAlarmed-update eventfd callers j away h (old (λ e. absurd (cc)))

after_look-polling : (tasks : List Task) → after_look tasks ≡ polling → tasks ≡ []
unfolding after_look
after_look-polling [] h = refl
after_look-polling (t ∷ tasks) h = absurd (cc)

after_look-raised : (tasks : List Task) → has_raised (after_look tasks) ≡ true
unfolding after_look
after_look-raised [] = refl
after_look-raised (t ∷ tasks) = refl

Step-Inv : {s t : System} → Step s t → Inv s → Inv t
unfolding after_notify
Step-Inv {s} (Step.stolen t front h) v = record {
  raised = v.raised;
  alarmed = λ p ne. v.alarmed p (λ e. append_nonempty front t (sym h ∙ e));
}
Step-Inv {s} (Step.look h) v = record {
  raised = λ _. v.raised (ap has_raised h);
  alarmed = λ p ne. absurd (ne (after_look-polling s.tasks p));
}
Step-Inv {s} (Step.submit j t h) v = record {
  raised = v.raised;
  alarmed = λ p ne. IsAlarmed-push s.eventfd s.callers j s.tasks h (v.alarmed p);
}
Step-Inv {s} (Step.stop j h) v = record {
  raised = v.raised;
  alarmed = λ p ne. IsAlarmed-own s.eventfd s.callers j notifying (inl refl);
}
Step-Inv {s} (Step.notify j h) v = record {
  raised = v.raised;
  alarmed = λ p ne.
      subst (λ b. IsAlarmed s.eventfd (update s.callers j (after_notify b)))
        (sym (v.raised (ap has_raised p))) (IsAlarmed-notify s.eventfd s.callers j);
}
Step-Inv {s} (Step.write j h) v = record {
  raised = v.raised;
  alarmed = λ p ne. inl (write_event_fd-pos s.eventfd);
}
Step-Inv {s} (Step.pop t rest w h) v = record { raised = v.raised; alarmed = λ p ne. absurd (cc) }
Step-Inv {s} (Step.push_own t w) v = record {
  raised = v.raised;
  alarmed = λ p ne. absurd (elim w [ inl a ↦ cc | inr b ↦ cc ]);
}
Step-Inv {s} (Step.read_event_fd w) v = record { raised = v.raised; alarmed = λ p ne. absurd (cc) }
Step-Inv {s} (Step.raise w) v = record { raised = λ _. refl; alarmed = λ p ne. absurd (cc) }
Step-Inv {s} (Step.go_on w) v = record {
  raised = λ _. v.raised (ap has_raised w);
  alarmed = λ p ne. absurd (cc);
}
Step-Inv {s} (Step.give_up w) v = record {
  raised = λ _. v.raised (ap has_raised w);
  alarmed = λ p ne. absurd (cc);
}
Step-Inv {s} (Step.wake w pos) v = record {
  raised = λ _. v.raised (ap has_raised w);
  alarmed = λ p ne. absurd (cc);
}
Step-Inv {s} (Step.other_event w) v = record {
  raised = λ _. v.raised (ap has_raised w);
  alarmed = λ p ne. absurd (cc);
}
Step-Inv {s} mv v = record { raised = λ h. absurd (cc); alarmed = λ p ne. absurd (cc) }

pub Reach-Inv : {s : System} → Reach s → Inv s
unfolding init
Reach-Inv Reach.start = record { raised = λ h. absurd (cc); alarmed = λ p ne. absurd (cc) }
Reach-Inv (Reach.later r st) = Step-Inv st (Reach-Inv r)

-- No wake-up is lost: in every reachable state in which the worker waits in `epoll_wait` while its queue
-- holds a task, the eventfd is readable, or some thread is between its push (or its call of `stop()`)
-- and the write to the eventfd.
pub no_lost_wakeup :
    {s : System} → Reach s → s.worker ≡ polling → s.tasks ≢ [] → IsAlarmed s.eventfd s.callers
no_lost_wakeup r p ne = (Reach-Inv r).alarmed p ne

-- A step that carries an alarm on: no push, no new call, and no other event.
abbrev pub IsDelivery : {s t : System} → Step s t → Type 0
IsDelivery (Step.notify j h) = Unit
IsDelivery (Step.write j h) = Unit
IsDelivery (Step.wake p pos) = Unit
IsDelivery _ = ⊥

-- `n` such steps.
pub data Deliveries : ℕ → System → System → Type 0 where
  done : {s : System} → Deliveries 0 s s
  more :
      {n : ℕ} {s t u : System} (st : Step s t)
      → IsDelivery st
      → Deliveries n t u
      → Deliveries (suc n) s u

readable_wakes :
    (s : System)
    → s.worker ≡ polling
    → 0 < s.eventfd
    → (t : System) × Deliveries 1 s t × (t.worker ≡ woken)
readable_wakes s p pos = (record s { worker = woken }, more (Step.wake p pos) tt done, refl)

writing_wakes :
    (s : System) (j : ℕ)
    → s.worker ≡ polling
    → s.callers j ≡ writing
    → (t : System) × Deliveries 2 s t × (t.worker ≡ woken)
writing_wakes s j p h =
    let (t, steps, woke) =
      readable_wakes
        (record s { eventfd = write_event_fd s.eventfd; callers = update s.callers j away }) p
        (write_event_fd-pos s.eventfd) in
    (t, more (Step.write j h) tt steps, woke)

notifying_wakes :
    (s : System) (j : ℕ)
    → s.worker ≡ polling
    → s.idling ≡ true
    → s.callers j ≡ notifying
    → (t : System) × Deliveries 3 s t × (t.worker ≡ woken)
unfolding after_notify
notifying_wakes s j p idle h =
    let (t, steps, woke) =
      writing_wakes (record s { callers = update s.callers j (after_notify s.idling) }) j p
        (update_self s.callers j (after_notify s.idling) ∙ ap after_notify idle) in
    (t, more (Step.notify j h) tt steps, woke)

-- In every reachable state in which the worker waits in `epoll_wait` while its queue holds a task, at
-- most three steps that only carry on what is under way, by a thread that has pushed or called `stop()` and
-- by the kernel, lead to a state in which the worker has woken up.
pub sleeper_wakes :
    {s : System}
    → Reach s
    → s.worker ≡ polling
    → s.tasks ≢ []
    → (n : ℕ) × (n ≤ 3) × (t : System) × Deliveries n s t × (t.worker ≡ woken)
sleeper_wakes {s} r p ne = elim (no_lost_wakeup r p ne) [
  | inl pos ↦ let (t, steps, woke) = readable_wakes s p pos in (1, ground arith, t, steps, woke)
  | inr (j, inl h) ↦
      let (t, steps, woke) = notifying_wakes s j p ((Reach-Inv r).raised (ap has_raised p)) h in
      (3, ground arith, t, steps, woke)
  | inr (j, inr h) ↦
      let (t, steps, woke) = writing_wakes s j p h in (2, ground arith, t, steps, woke)
]
