-- ===== src/Timers/Manager/Invariant.antt =====
-- koro/timer_manager.cpp: every operation of the manager keeps the set of timers valid.
use koro.Prelude.{
  ℕ, suc, ◌≤◌, ◌<◌, ◌≡◌, ◌≢◌, refl, inl, inr, Bool, true, false, Option, none, some, List, [], ◌∷◌,
  ◌==◌, arith, All, All-mono, Bool-cases, ℤ, update,
}
use koro.Timers.{Timer, new_timer, enable}
use koro.Timers.Entries.{Entry}
use koro.Timers.Entries.Order.{insert_entry-IsOrdered, All-insert_entry}
use koro.Timers.Manager.{
  Manager, TimerId, insert_resets, max_ptr, set_on, add_timer, collect_due, reinsert_active,
  register_timer, unregister_event, reset_timer, reset_timer_fd, arm_first, trigger_timer,
}
use koro.Timers.Manager.Validity.{
  IsValid, IsKeyed, IsMidway, IsKeyed-update, insert_entry-IsDistinct, reinsert-IsMidway,
  reinsert-fields, cut-IsMidway,
}

-- Setting the descriptor is all that `arm_first` does.
pub arm_first-fields :
    (now : ℕ) (es : List Entry) (m : Manager)
    → ((arm_first now es m).timers ≡ m.timers)
      × ((arm_first now es m).active_timers ≡ m.active_timers)
      × ((arm_first now es m).heap ≡ m.heap)
      × ((arm_first now es m).next ≡ m.next)
      × ((arm_first now es m).tasks ≡ m.tasks)
unfolding arm_first reset_timer_fd
arm_first-fields now [] m = (refl, refl, refl, refl, refl)
arm_first-fields now (e ∷ es) m = (refl, refl, refl, refl, refl)

arm_first-IsValid :
    (now : ℕ) (es : List Entry) (m : Manager) → IsValid m → IsValid (arm_first now es m)
unfolding arm_first reset_timer_fd
arm_first-IsValid now [] m v = v
arm_first-IsValid now (e ∷ es) m v = record {
  ordered = v.ordered;
  keyed = v.keyed;
  distinct = v.distinct;
  idle = v.idle;
  real = v.real;
}

-- The due timers, and what is left of the set without them.
pub collect_due-IsMidway :
    (now : ℕ) (m : Manager)
    → IsValid m
    → IsMidway (collect_due now m).active_timers (collect_due now m)
unfolding collect_due
collect_due-IsMidway now m v =
    let c = cut-IsMidway (record { time = now; timer = max_ptr }) m v in
    rw v.idle (record {
      ordered = c.ordered;
      keyed = c.keyed;
      distinct = c.distinct;
      active_keyed = c.active_keyed;
      active_distinct = c.active_distinct;
      apart = c.apart;
    })

reinsert_active-IsValid :
    (m : Manager) → m.next ≤ max_ptr → IsMidway m.active_timers m → IsValid (reinsert_active m)
unfolding reinsert_active
reinsert_active-IsValid m h v =
    let back = reinsert-IsMidway m.active_timers m v in
    record {
      ordered = back.ordered;
      keyed = back.keyed;
      distinct = back.distinct;
      idle = refl;
      real = rw ((reinsert-fields m.active_timers m).0) h;
    }

next-collect_due : (now : ℕ) (m : Manager) → (collect_due now m).next ≡ m.next
unfolding collect_due
next-collect_due now m = refl

-- `triggerTimer` keeps the set ordered by the timers' present expirations, with one entry for a timer.
pub trigger_timer-IsValid :
    (now later : ℕ) (m : Manager) → IsValid m → IsValid (trigger_timer now later m)
unfolding trigger_timer reset_timer
trigger_timer-IsValid now later m v =
    arm_first-IsValid later _ (reinsert_active (collect_due now m)) (
      reinsert_active-IsValid (collect_due now m) (rw (next-collect_due now m) v.real)
        (collect_due-IsMidway now m v))

fresh-IsApart :
    (heap : ℕ → Timer) (next : ℕ) (l : List Entry)
    → All (IsKeyed heap next) l
    → All (λ f. f.timer ≢ next) l
fresh-IsApart heap next [] k = tt
fresh-IsApart heap next (e ∷ l) k =
    let small = k.0.1 in ((λ q. absurd (omega arith)), fresh-IsApart heap next l k.1)

IsKeyed-enable :
    (heap : ℕ → Timer) (next p : ℕ) (on : Bool) (l : List Entry)
    → All (IsKeyed heap next) l
    → All (IsKeyed (update heap p (enable on (heap p))) next) l
unfolding enable
IsKeyed-enable heap next p on [] k = tt
IsKeyed-enable heap next p on (e ∷ l) k =
    ((ground (arith, k.0.0), k.0.1), IsKeyed-enable heap next p on l k.1)

set_on-IsValid : (on : Bool) (p : ℕ) (m : Manager) → IsValid m → IsValid (set_on on p m)
unfolding set_on
set_on-IsValid on p m v = record {
  ordered = v.ordered;
  keyed = IsKeyed-enable m.heap m.next p on m.timers v.keyed;
  distinct = v.distinct;
  idle = v.idle;
  real = v.real;
}

add_timer-IsValid :
    (timestamp cb : ℕ) (interval : ℤ) (m : Manager)
    → m.next < max_ptr
    → IsValid m
    → IsValid (add_timer timestamp cb interval m)
unfolding add_timer new_timer
add_timer-IsValid timestamp cb interval m h v = record {
  ordered = insert_entry-IsOrdered _ m.timers v.ordered;
  keyed =
      All-insert_entry _ _ m.timers (refl, omega arith)
        (IsKeyed-update m.heap (suc m.next) m.next _ m.timers apart
          (All-mono m.timers (λ e k. (k.0, omega arith)) v.keyed));
  distinct = insert_entry-IsDistinct _ m.timers apart v.distinct;
  idle = v.idle;
  real = h;
}
  where
    apart : All (λ f. f.timer ≢ m.next) m.timers
    apart = fresh-IsApart m.heap m.next m.timers v.keyed

-- `registerTimer` keeps the set valid while addresses last.
pub register_timer-IsValid :
    (now id timestamp cb : ℕ) (interval : ℤ) (m : Manager)
    → m.next < max_ptr
    → IsValid m
    → IsValid (register_timer now id timestamp cb interval m).0
unfolding register_timer reset_timer_fd
register_timer-IsValid now id timestamp cb interval m h v =
    set_on-IsValid true m.next _ (elim (Bool-cases (insert_resets timestamp m.timers)) [
      | inl first ↦ rw first (record {
        ordered = added.ordered;
        keyed = added.keyed;
        distinct = added.distinct;
        idle = added.idle;
        real = added.real;
      })
      | inr behind ↦ rw behind added
    ])
  where
    added : IsValid (add_timer timestamp cb interval m)
    added = add_timer-IsValid timestamp cb interval m h v

-- So does `unregisterEvent`, whatever identifier it is given.
pub unregister_event-IsValid :
    (i : TimerId) (m : Manager) → IsValid m → IsValid (unregister_event i m)
unfolding unregister_event
unregister_event-IsValid i m v = elim (Bool-cases (i.id == 0)) [
  | inl zero_id ↦ rw zero_id v
  | inr good_id ↦ rw good_id (by_timer i.timer)
]
  where
    by_timer : (t : Option ℕ) → IsValid (elim t [ none ↦ m | some p ↦ set_on false p m ])
    by_timer none = v
    by_timer (some p) = set_on-IsValid false p m v

-- The three operations keep the set valid: ordered by the timers' present expirations, with one entry for
-- a timer and no entry between two calls in the list of active timers. For `registerTimer` an address
-- must be left.
pub operations-IsValid :
    (m : Manager)
    → IsValid m
    → m.next < max_ptr
    → ((now id timestamp cb : ℕ) (interval : ℤ)
        → IsValid (register_timer now id timestamp cb interval m).0)
      × ((i : TimerId) → IsValid (unregister_event i m))
      × ((now later : ℕ) → IsValid (trigger_timer now later m))
operations-IsValid m v room = (
  λ now id timestamp cb interval. register_timer-IsValid now id timestamp cb interval m room v,
  λ i. unregister_event-IsValid i m v,
  λ now later. trigger_timer-IsValid now later m v,
)
