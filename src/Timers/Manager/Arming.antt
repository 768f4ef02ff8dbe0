-- ===== src/Timers/Manager/Arming.antt =====
-- koro/timer_manager.cpp, `resetTimerFd`: the kernel timer that wakes the thread. The kernel's side of
-- a `timerfd` is a parameter.
use koro.Prelude.{
  subst, ℕ, ◌+◌, ◌-◌, ◌*◌, ◌≤◌, ◌<◌, ◌≡◌, refl, sym, ap, ◌∙◌, inl, inr, true, false, Option, none,
  some, List, [], ◌∷◌, if◌then◌else◌, ltb, arith, All, Bool-cases, ℤ, update_self,
}
use koro.Timers.{new_timer, Itimerspec, nanos, to_relative_itimerspec}
use koro.Timers.Entries.{Entry, entry_lt, insert_entry}
use koro.Timers.Manager.{
  Manager, collect_due, reinsert_active, arm_first, reset_timer, trigger_timer, reset_timer_fd,
  register_timer, add_timer, insert, set_on, insert_resets,
}
use koro.Timers.Manager.Validity.{IsValid, IsKeyed}
use koro.Timers.Manager.Invariant.{arm_first-fields, trigger_timer-IsValid}

abbrev pub in_nanos : Itimerspec → ℕ
in_nanos v = v.tv_sec * nanos + v.tv_nsec

-- A relative time converts to a normal `timespec` that stands for the nanoseconds from now to the
-- time, and for zero if that time has come.
pub to_relative_itimerspec_lem :
    (now tp : ℕ)
    → (in_nanos (to_relative_itimerspec now tp) ≡ tp - now)
      × ((to_relative_itimerspec now tp).tv_nsec < nanos)
unfolding to_relative_itimerspec
to_relative_itimerspec_lem now tp = (ground arith, ground arith)

arm_first-fd :
    (later : ℕ) (m : Manager) (e : Entry) (es : List Entry)
    → (arm_first later (e ∷ es) m).fd
      ≡ some (to_relative_itimerspec later (m.heap e.timer).expiration)
unfolding arm_first reset_timer_fd
arm_first-fd later m e es = refl

-- The descriptor is set for the first entry.
fd-trigger_timer :
    (now later : ℕ) (m : Manager) (e : Entry) (es : List Entry)
    → IsValid m
    → (trigger_timer now later m).timers ≡ e ∷ es
    → (trigger_timer now later m).fd ≡ some (to_relative_itimerspec later e.time)
unfolding trigger_timer reset_timer
fd-trigger_timer now later m e es v first =
    ap (λ l. (arm_first later l r).fd) same
    ∙ arm_first-fd later r e es
    ∙ ap (λ t. some (to_relative_itimerspec later t)) key
  where
    r : Manager
    r = reinsert_active (collect_due now m)

    same : r.timers ≡ e ∷ es
    same = sym (arm_first-fields later r.timers r).0 ∙ first

    t : Manager
    t = arm_first later r.timers r

    keyed : All (IsKeyed t.heap t.next) (e ∷ es)
    keyed =
        subst (λ l. All (IsKeyed t.heap t.next) l) first (trigger_timer-IsValid now later m v).keyed

    key : (r.heap e.timer).expiration ≡ e.time
    key = rw (arm_first-fields later r.timers r).2 at keyed.0.0

-- The descriptor was last set for the first entry, before its time.
abbrev pub IsArmedFor : List Entry → Option Itimerspec → Type 0
IsArmedFor [] fd = Unit {0}
IsArmedFor (e ∷ es) fd = (at : ℕ) × (at < e.time) × (fd ≡ some (to_relative_itimerspec at e.time))

-- A timer that is no earlier than the first one is inserted behind it: its address is new.
insert-behind :
    (timestamp : ℕ) (m : Manager) (x : Entry) (xs : List Entry)
    → x.timer < m.next
    → ltb timestamp x.time ≡ false
    → (ys : List Entry) × (insert_entry (record { time = timestamp; timer = m.next }) (x ∷ xs)
        ≡ x ∷ ys)
unfolding insert_entry entry_lt
insert-behind timestamp m x xs h q =
    (insert_entry (record { time = timestamp; timer = m.next }) xs, ground arith)

insert-ahead :
    (timestamp : ℕ) (m : Manager) (x : Entry) (xs : List Entry)
    → ltb timestamp x.time ≡ true
    → insert_entry (record { time = timestamp; timer = m.next }) (x ∷ xs)
      ≡ record { time = timestamp; timer = m.next } ∷ x ∷ xs
unfolding insert_entry entry_lt
insert-ahead timestamp m x xs q = ground arith

-- The set and the descriptor after `registerTimer`, as functions of those before.
fields-register_timer :
    (now id timestamp cb : ℕ) (interval : ℤ) (m : Manager)
    → ((register_timer now id timestamp cb interval m).0.timers
        ≡ insert_entry (record { time = timestamp; timer = m.next }) m.timers)
      × ((register_timer now id timestamp cb interval m).0.fd ≡ (
          if insert_resets timestamp m.timers
          then some (to_relative_itimerspec now timestamp)
          else m.fd))
unfolding register_timer add_timer insert set_on reset_timer_fd new_timer
fields-register_timer now id timestamp cb interval m =
    let own = update_self m.heap m.next (new_timer timestamp cb interval) in
    elim (Bool-cases (insert_resets timestamp m.timers)) [
      | inl first ↦ rw (first, own) (refl, refl)
      | inr behind ↦ rw (behind, own) (refl, refl)
    ]

insert_entry-nil : (e : Entry) → insert_entry e [] ≡ e ∷ []
unfolding insert_entry
insert_entry-nil e = refl

insert_entry-IsArmedFor :
    (now timestamp : ℕ) (m : Manager) (l : List Entry)
    → now < timestamp
    → All (IsKeyed m.heap m.next) l
    → IsArmedFor l m.fd
    → IsArmedFor
        (insert_entry (record { time = timestamp; timer = m.next }) l)
        (if insert_resets timestamp l then some (to_relative_itimerspec now timestamp) else m.fd)
unfolding insert_resets
insert_entry-IsArmedFor now timestamp m [] h k armed =
    rw (insert_entry-nil (record { time = timestamp; timer = m.next })) (now, h, refl)
insert_entry-IsArmedFor now timestamp m (x ∷ xs) h k armed =
    elim (Bool-cases (ltb timestamp x.time)) [
      | inl first ↦ rw (insert-ahead timestamp m x xs first, first) (now, h, refl)
      | inr behind ↦
          let (ys, same) = insert-behind timestamp m x xs k.0.1 behind in rw (same, behind) armed
    ]

-- Registering a timer for a time to come keeps the descriptor set for the first entry.
register_timer-IsArmedFor :
    (now id timestamp cb : ℕ) (interval : ℤ) (m : Manager)
    → now < timestamp
    → IsValid m
    → IsArmedFor m.timers m.fd
    → IsArmedFor
        (register_timer now id timestamp cb interval m).0.timers
        (register_timer now id timestamp cb interval m).0.fd
register_timer-IsArmedFor now id timestamp cb interval m h v armed =
    let (timers, fd) = fields-register_timer now id timestamp cb interval m in
    rw (timers, fd) (insert_entry-IsArmedFor now timestamp m m.timers h v.keyed armed)

-- What the manual page of `timerfd_settime` promises for `CLOCK_MONOTONIC` and flags 0: a value of zero
-- disarms the timer; any other one lets it expire once, that long after the call.
pub record Timerfd : Type 0 where
  pub expires : ℕ → Itimerspec → Option ℕ
  pub disarmed : (now : ℕ) (v : Itimerspec) → in_nanos v ≡ 0 → expires now v ≡ none
  pub armed : (now : ℕ) (v : Itimerspec) → 0 < in_nanos v → expires now v ≡ some (now + in_nanos v)

module _ (t : Timerfd) where
  trigger_timer-armed :
      (now later : ℕ) (m : Manager) (e : Entry) (es : List Entry)
      → IsValid m
      → (trigger_timer now later m).timers ≡ e ∷ es
      → later < e.time
      → (v : Itimerspec) × ((trigger_timer now later m).fd ≡ some v)
        × (t.expires later v ≡ some e.time)
  trigger_timer-armed now later m e es v first h =
      let spec = to_relative_itimerspec_lem later e.time in
      (
        to_relative_itimerspec later e.time,
        fd-trigger_timer now later m e es v first,
        t.armed later _ (omega (arith, spec.0)) ∙ ap some (omega (arith, spec.0)),
      )

  trigger_timer-disarmed :
      (now later : ℕ) (m : Manager) (e : Entry) (es : List Entry)
      → IsValid m
      → (trigger_timer now later m).timers ≡ e ∷ es
      → e.time ≤ later
      → (v : Itimerspec) × ((trigger_timer now later m).fd ≡ some v) × (t.expires later v ≡ none)
  trigger_timer-disarmed now later m e es v first h =
      let spec = to_relative_itimerspec_lem later e.time in
      (
        to_relative_itimerspec later e.time,
        fd-trigger_timer now later m e es v first,
        t.disarmed later _ (omega (arith, spec.0)),
      )

  -- After `triggerTimer`, when timers are left in the set, the kernel timer expires exactly at the time of
  -- the first one, if that time lies in the future of the moment at which the descriptor is set. If it has
  -- come by then, the kernel timer is disarmed: it does not expire, although timers are waiting.
  pub expires-trigger_timer :
      (now later : ℕ) (m : Manager) (e : Entry) (es : List Entry)
      → IsValid m
      → (trigger_timer now later m).timers ≡ e ∷ es
      → (v : Itimerspec) × ((trigger_timer now later m).fd ≡ some v)
        × (t.expires later v ≡ (if ltb later e.time then some e.time else none))
  expires-trigger_timer now later m e es v first = elim (Bool-cases (ltb later e.time)) [
    | inl future ↦ rw future (trigger_timer-armed now later m e es v first (ground arith))
    | inr past ↦ rw past (trigger_timer-disarmed now later m e es v first (ground arith))
  ]
