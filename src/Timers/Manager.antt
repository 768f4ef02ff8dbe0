-- ===== src/Timers/Manager.antt =====
-- koro/timer_manager.h and koro/timer_manager.cpp. Timers are shared objects: `heap` gives the timer
-- behind an address, and `next` is the first address not in use. `tasks` lists the callbacks pushed to
-- the owner's task queue, and `fd` is the value of the last `timerfd_settime`.
pub mod Validity
pub mod Invariant
pub mod Firing
pub mod Arming
pub mod Cancelling
use koro.Prelude.{
  ◌≡◌, ◌≢◌, arith, ℕ, suc, ◌+◌, ◌-◌, ◌^◌, Bool, true, false, not, ◌&&◌, ◌||◌, Option, none, some,
  List, [], ◌∷◌, ◌++◌, if◌then◌else◌, ltb, ◌==◌, ℤ, is_empty, update,
}
use koro.Timers.{Timer, Itimerspec, to_relative_itimerspec, new_timer, enable, repeat}
use koro.Timers.Entries.{Entry, insert_entry, before_upper_bound, from_upper_bound}

pub record Manager : Type 0 where
  pub timers : List Entry
  pub active_timers : List Entry
  pub heap : ℕ → Timer
  pub next : ℕ
  pub tasks : List ℕ
  pub fd : Option Itimerspec

-- `TimerId`: a weak reference to a timer, here its address, and a number that is 0 for a default
-- constructed one.
pub record TimerId : Type 0 where
  pub timer : Option ℕ
  pub id : ℕ

-- `insert`: whether the new timer is the first one.
unfoldable pub insert_resets : ℕ → List Entry → Bool
insert_resets expiration [] = true
insert_resets expiration (x ∷ xs) = ltb expiration x.time

unfoldable pub insert : ℕ → Manager → Manager
unfolding insert_entry
insert p m = record m {
  timers = insert_entry (record { time = (m.heap p).expiration; timer = p }) m.timers;
}

unfoldable pub reset_timer_fd : ℕ → ℕ → Manager → Manager
reset_timer_fd now p m = record m { fd = some (to_relative_itimerspec now (m.heap p).expiration) }

-- `timer->enable(on)`
unfoldable pub set_on : Bool → ℕ → Manager → Manager
set_on on p m = record m { heap = update m.heap p (enable on (m.heap p)) }

-- `new Timer(…)`, and its insertion.
unfoldable pub add_timer : ℕ → ℕ → ℤ → Manager → Manager
unfolding insert
add_timer timestamp cb interval m =
    insert m.next (record m {
      heap = update m.heap m.next (new_timer timestamp cb interval);
      next = suc m.next;
    })

-- `id` is the number that `TimerId::id_creator_` hands out.
unfoldable pub register_timer : ℕ → ℕ → ℕ → ℕ → ℤ → Manager → Manager × TimerId
unfolding insert_resets
register_timer now id timestamp cb interval m =
    let added = add_timer timestamp cb interval m in
    let armed =
      if insert_resets timestamp m.timers then reset_timer_fd now m.next added else added in
    (set_on true m.next armed, record { timer = some m.next; id = id })

unfoldable pub unregister_event : TimerId → Manager → Manager
unregister_event i m =
    if i.id == 0 then m else elim i.timer [ none ↦ m | some p ↦ set_on false p m ]

-- The callbacks of the active timers that are on, in the order of the loop.
unfoldable pub due_callbacks : (ℕ → Timer) → List Entry → List ℕ
due_callbacks heap [] = []
due_callbacks heap (e ∷ es) =
    let rest = due_callbacks heap es in
    if (heap e.timer).on then (heap e.timer).on_time_callback ∷ rest else rest

-- The loop of `resetTimer`: repeating timers that are on go back, at their next time.
unfoldable pub reinsert_repeating : List Entry → Manager → Manager
unfolding insert
reinsert_repeating [] m = m
reinsert_repeating (e ∷ es) m =
    let t = m.heap e.timer in
    reinsert_repeating es (
      if t.on && t.repeating
      then insert e.timer (record m { heap = update m.heap e.timer (repeat t) })
      else m)

unfoldable pub arm_first : ℕ → List Entry → Manager → Manager
arm_first now [] m = m
arm_first now (e ∷ es) m = reset_timer_fd now e.timer m

unfoldable pub reinsert_active : Manager → Manager
unfolding reinsert_repeating
reinsert_active m = record (reinsert_repeating m.active_timers m) { active_timers = [] }

unfoldable pub reset_timer : ℕ → Manager → Manager
reset_timer now m = arm_first now (reinsert_active m).timers (reinsert_active m)

-- `UINTPTR_MAX`, the address of no timer.
abbrev pub max_ptr : ℕ
max_ptr = 2 ^ 64 - 1

-- `triggerTimer` up to its call of `resetTimer`.
unfoldable pub collect_due : ℕ → Manager → Manager
collect_due now m =
    let bound : Entry = record { time = now; timer = max_ptr } in
    let active = m.active_timers ++ before_upper_bound bound m.timers in
    record m {
      active_timers = active;
      timers = from_upper_bound bound m.timers;
      tasks = m.tasks ++ due_callbacks m.heap active;
    }

-- `now` is read at the start, `later` when the descriptor is set again.
unfoldable pub trigger_timer : ℕ → ℕ → Manager → Manager
trigger_timer now later m = reset_timer later (collect_due now m)
