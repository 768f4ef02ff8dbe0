-- ===== src/Timers/Examples.antt =====
-- Runs of the timer manager, and its theorems at concrete timers.
use koro.Prelude.{
  ℕ, ◌+◌, ◌<◌, ◌≡◌, refl, true, false, Option, none, some, [], ◌∷◌, ◌++◌, map, arith, All, select,
  pos, negsuc, ℤ, if◌then◌else◌, ◌==◌,
}
use koro.Timers.{Timer, Itimerspec, new_timer, enable, to_relative_itimerspec}
use koro.Timers.Entries.{Entry, IsOrdered}
use koro.Timers.Entries.Order.{is_due, is_later, Has}
use koro.Timers.Manager.{Manager, TimerId, max_ptr, register_timer, unregister_event, trigger_timer}
use koro.Timers.Manager.Validity.{IsValid}
use koro.Timers.Manager.Invariant.{operations-IsValid}
use koro.Timers.Manager.Firing.{
  tasks-trigger_timer, trigger_timer-Settled, Settled, callback, is_on,
}
use koro.Timers.Manager.Arming.{Timerfd, in_nanos, expires-trigger_timer}

abbrev no_timer : Timer
no_timer = record {
  expiration = 0;
  interval = negsuc 0;
  repeating = false;
  on = false;
  on_time_callback = 0;
}

abbrev idle_manager : Manager
idle_manager = record {
  timers = [];
  active_timers = [];
  heap = λ _. no_timer;
  next = 1;
  tasks = [];
  fd = none;
}

idle_manager-IsValid : IsValid idle_manager
idle_manager-IsValid = record {
  ordered = tt;
  keyed = tt;
  distinct = tt;
  idle = refl;
  real = omega arith;
}

-- Two timers: callback 7 at 100, repeating every 50, and callback 8 once at 120.
abbrev two_timers : Manager
two_timers = record {
  timers = record { time = 100; timer = 1 } ∷ record { time = 120; timer = 2 } ∷ [];
  active_timers = [];
  heap = λ p.
      if p == 1
      then record {
        expiration = 100;
        interval = pos 50;
        repeating = true;
        on = true;
        on_time_callback = 7;
      }
      else record {
        expiration = 120;
        interval = negsuc 0;
        repeating = false;
        on = true;
        on_time_callback = 8;
      };
  next = 3;
  tasks = [];
  fd = none;
}

two_timers-IsValid : IsValid two_timers
unfolding koro.Timers.Entries.entry_lt
two_timers-IsValid = record {
  ordered = ((refl, tt), (tt, tt));
  keyed = ((refl, omega arith), ((refl, omega arith), tt));
  distinct = ((omega arith, tt), (tt, tt));
  idle = refl;
  real = omega arith;
}

-- What a run computes with.
run : ℕ → ℕ → Manager → Manager
unfolding trigger_timer koro.Timers.repeat koro.Timers.Entries.entry_lt
    koro.Timers.Manager.reset_timer koro.Timers.Manager.arm_first
    koro.Timers.Manager.reinsert_active koro.Timers.Manager.collect_due
    koro.Timers.Entries.before_upper_bound koro.Timers.Entries.from_upper_bound
    koro.Timers.Manager.reset_timer_fd koro.Timers.Manager.due_callbacks
run now later m = trigger_timer now later m

two_timers_run : (trigger_timer 110 111 two_timers).tasks ≡ 7 ∷ []
unfolding run
two_timers_run = refl

operations-IsValid_example :
    ((now id timestamp cb : ℕ) (interval : ℤ)
      → IsValid (register_timer now id timestamp cb interval two_timers).0)
    × ((i : TimerId) → IsValid (unregister_event i two_timers))
    × ((now later : ℕ) → IsValid (trigger_timer now later two_timers))
operations-IsValid_example = operations-IsValid two_timers two_timers-IsValid (omega arith)

tasks-trigger_timer_example :
    (trigger_timer 110 111 two_timers).tasks
    ≡ []
      ++ map
          (callback two_timers.heap)
          (select (is_on two_timers.heap) (select (is_due 110) two_timers.timers))
tasks-trigger_timer_example = tasks-trigger_timer 110 111 two_timers two_timers-IsValid

trigger_timer-Settled_example :
    All
      (λ e. Settled two_timers.heap e (trigger_timer 110 111 two_timers).timers)
      (select (is_due 110) two_timers.timers)
    × All
        (λ e. Has e (trigger_timer 110 111 two_timers).timers)
        (select (is_later 110) two_timers.timers)
trigger_timer-Settled_example = trigger_timer-Settled 110 111 two_timers two_timers-IsValid

abbrev expiry : ℕ → Itimerspec → Option ℕ
expiry now v = if in_nanos v == 0 then none else some (now + in_nanos v)

expiry-zero : (now : ℕ) (v : Itimerspec) → in_nanos v ≡ 0 → expiry now v ≡ none
expiry-zero now v h = rw h

expiry-pos : (now : ℕ) (v : Itimerspec) → 0 < in_nanos v → expiry now v ≡ some (now + in_nanos v)
expiry-pos now v h = ground arith

-- A kernel timer as the manual page describes it.
abbrev monotonic : Timerfd
monotonic = record { expires = expiry; disarmed = expiry-zero; armed = expiry-pos }

abbrev second_entry : Entry
second_entry = record { time = 120; timer = 2 }

abbrev next_round : Entry
next_round = record { time = 150; timer = 1 }

left_after : (trigger_timer 110 111 two_timers).timers ≡ second_entry ∷ next_round ∷ []
unfolding run
left_after = refl

expires-trigger_timer_example :
    (v : Itimerspec) × ((trigger_timer 110 111 two_timers).fd ≡ some v)
    × (monotonic.expires 111 v ≡ some 120)
expires-trigger_timer_example =
    expires-trigger_timer monotonic 110 111 two_timers second_entry (next_round ∷ [])
      two_timers-IsValid left_after

-- The descriptor is set at 130, when the second timer is overdue.
left_late : (trigger_timer 110 130 two_timers).timers ≡ second_entry ∷ next_round ∷ []
unfolding run
left_late = refl

expired_late :
    (v : Itimerspec) × ((trigger_timer 110 130 two_timers).fd ≡ some v)
    × (monotonic.expires 130 v ≡ none)
expired_late =
    expires-trigger_timer monotonic 110 130 two_timers second_entry (next_round ∷ [])
      two_timers-IsValid left_late
