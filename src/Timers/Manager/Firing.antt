-- ===== src/Timers/Manager/Firing.antt =====
-- koro/timer_manager.cpp, `triggerTimer`: which callbacks run, and which timers stay.
use koro.Prelude.{
  ℕ, ◌≤◌, ◌<◌, ◌≡◌, ◌≢◌, refl, sym, inl, inr, Bool, true, false, ◌&&◌, List, [], ◌∷◌, ◌++◌, arith,
  All, All-mono, Bool-cases, map, select, subst, update, update_ne, update_self,
}
use koro.Timers.{Timer, repeat, add_seconds}
use koro.Timers.Entries.{Entry}
use koro.Timers.Entries.Order.{
  is_due, is_later, upper_bound-select, Has, Has-insert_self, Has-insert_old, All-insert_entry,
}
use koro.Timers.Manager.{
  Manager, insert, max_ptr, collect_due, reinsert_active, reinsert_repeating, due_callbacks,
  reset_timer, trigger_timer,
}
use koro.Timers.Manager.Validity.{
  IsValid, IsKeyed, IsApart, IsMidway, put_back, put_back-IsMidway, skip-IsMidway, reinsert-fields,
}
use koro.Timers.Manager.Invariant.{arm_first-fields, collect_due-IsMidway}

abbrev pub is_on : (ℕ → Timer) → Entry → Bool
is_on heap e = (heap e.timer).on

abbrev pub callback : (ℕ → Timer) → Entry → ℕ
callback heap e = (heap e.timer).on_time_callback

abbrev pub repeats : (ℕ → Timer) → Entry → Bool
repeats heap e = (heap e.timer).on && (heap e.timer).repeating

-- Where a repeating timer goes.
abbrev pub next_entry : (ℕ → Timer) → Entry → Entry
next_entry heap e = record {
  time = add_seconds (heap e.timer).expiration (heap e.timer).interval;
  timer = e.timer;
}

due_callbacks-select :
    (heap : ℕ → Timer) (es : List Entry)
    → due_callbacks heap es ≡ map (callback heap) (select (is_on heap) es)
unfolding due_callbacks
due_callbacks-select heap [] = refl
due_callbacks-select heap (e ∷ es) = ground (arith, due_callbacks-select heap es)

real_timers :
    (heap : ℕ → Timer) (next : ℕ) (l : List Entry)
    → next ≤ max_ptr
    → All (IsKeyed heap next) l
    → All (λ e. e.timer < max_ptr) l
real_timers heap next l h k = All-mono l (λ e q. omega arith) k

-- The cut of `triggerTimer` by the times alone.
cut_by_time :
    (now : ℕ) (m : Manager)
    → IsValid m
    → ((collect_due now m).active_timers ≡ select (is_due now) m.timers)
      × ((collect_due now m).timers ≡ select (is_later now) m.timers)
unfolding collect_due
cut_by_time now m v =
    let (first, rest) =
      upper_bound-select now max_ptr m.timers v.ordered
        (real_timers m.heap m.next m.timers v.real v.keyed) in
    (rw v.idle first, rest)

tasks-collect_due :
    (now : ℕ) (m : Manager)
    → (collect_due now m).tasks ≡ m.tasks ++ due_callbacks m.heap (collect_due now m).active_timers
unfolding collect_due
tasks-collect_due now m = refl

tasks-reinsert_active : (m : Manager) → (reinsert_active m).tasks ≡ m.tasks
unfolding reinsert_active
tasks-reinsert_active m = (reinsert-fields m.active_timers m).1

-- `triggerTimer` queues, behind the tasks that are there, the callbacks of exactly those timers that
-- are on and whose time has come, earliest first.
pub tasks-trigger_timer :
    (now later : ℕ) (m : Manager)
    → IsValid m
    → (trigger_timer now later m).tasks
      ≡ m.tasks ++ map (callback m.heap) (select (is_on m.heap) (select (is_due now) m.timers))
unfolding trigger_timer reset_timer
tasks-trigger_timer now later m v = rw (
  (arm_first-fields later _ (reinsert_active (collect_due now m))).4,
  tasks-reinsert_active (collect_due now m),
  tasks-collect_due now m,
  (cut_by_time now m v).0,
  due_callbacks-select m.heap (select (is_due now) m.timers),
)

-- What the loop of `resetTimer` makes of one of the active timers, by what the timer says.
pub record Settled (heap : ℕ → Timer) (e : Entry) (l : List Entry) : Type 0 where
  pub again : repeats heap e ≡ true → Has (next_entry heap e) l
  pub gone : repeats heap e ≡ false → IsApart l e

-- The loop keeps what is in the set, and what has no entry in the set nor in the rest of the loop.
reinsert-Has :
    (es : List Entry) (m : Manager) (f : Entry)
    → Has f m.timers
    → Has f (reinsert_repeating es m).timers
unfolding reinsert_repeating insert
reinsert-Has [] m f h = h
reinsert-Has (e ∷ es) m f h = elim (Bool-cases (repeats m.heap e)) [
  | inl again ↦ rw (again, reinsert_repeating) (reinsert-Has es _ f (Has-insert_old f _ m.timers h))
  | inr once ↦ rw (once, reinsert_repeating) (reinsert-Has es m f h)
]

reinsert-IsApart :
    (es : List Entry) (m : Manager) (f : Entry)
    → All (λ e. e.timer ≢ f.timer) es
    → IsApart m.timers f
    → IsApart (reinsert_repeating es m).timers f
unfolding reinsert_repeating insert
reinsert-IsApart [] m f d a = a
reinsert-IsApart (e ∷ es) m f d a = elim (Bool-cases (repeats m.heap e)) [
  | inl again ↦
      rw (again, reinsert_repeating)
        (reinsert-IsApart es _ f d.1 (All-insert_entry (λ g. g.timer ≢ f.timer) _ m.timers d.0 a))
  | inr once ↦ rw (once, reinsert_repeating) (reinsert-IsApart es m f d.1 a)
]

put_back-Has :
    (e : Entry) (m : Manager)
    → Has
        (next_entry m.heap e)
        (insert e.timer
          (record m { heap = update m.heap e.timer (repeat (m.heap e.timer)) })).timers
unfolding insert repeat
put_back-Has e m =
    rw (update_self m.heap e.timer (repeat (m.heap e.timer))) (Has-insert_self _ m.timers)

reinsert-Settled_head :
    (e : Entry) (es : List Entry) (m : Manager)
    → IsMidway (e ∷ es) m
    → Settled m.heap e (reinsert_repeating (e ∷ es) m).timers
unfolding reinsert_repeating
reinsert-Settled_head e es m v = record {
  again = λ q. rw (q, reinsert_repeating) (reinsert-Has es _ _ (put_back-Has e m));
  gone = λ q. rw (q, reinsert_repeating) (reinsert-IsApart es m e v.active_distinct.0 v.apart.0);
}

-- A turn of the loop for one timer changes no other timer.
Settled-update :
    (heap : ℕ → Timer) (p : ℕ) (t : Timer) (l es : List Entry)
    → All (λ f. f.timer ≢ p) es
    → All (λ f. Settled (update heap p t) f l) es
    → All (λ f. Settled heap f l) es
Settled-update heap p t l [] d s = tt
Settled-update heap p t l (f ∷ es) d s = (
  record {
    again = rw (update_ne heap {q = f.timer} t d.0) at (s.0.again);
    gone = rw (update_ne heap {q = f.timer} t d.0) at (s.0.gone);
  },
  Settled-update heap p t l es d.1 s.1,
)

reinsert-Settled :
    (es : List Entry) (m : Manager)
    → IsMidway es m
    → All (λ e. Settled m.heap e (reinsert_repeating es m).timers) es
unfolding reinsert_repeating put_back
reinsert-Settled [] m v = tt
reinsert-Settled (e ∷ es) m v = (
  reinsert-Settled_head e es m v,
  elim (Bool-cases (repeats m.heap e)) [
    | inl again ↦
        let same : (reinsert_repeating (e ∷ es) m).timers
            ≡ (reinsert_repeating es (put_back e m)).timers =
          rw (again, reinsert_repeating) in
        subst (λ l. All (λ f. Settled m.heap f l) es) (sym same)
          (Settled-update m.heap e.timer _ _ es v.active_distinct.0
            (reinsert-Settled es (put_back e m) (put_back-IsMidway e es m v)))
    | inr once ↦
        let same : (reinsert_repeating (e ∷ es) m).timers ≡ (reinsert_repeating es m).timers =
          rw (once, reinsert_repeating) in
        subst (λ l. All (λ f. Settled m.heap f l) es) (sym same)
          (reinsert-Settled es m (skip-IsMidway e es m v))
  ],
)

timers-trigger_timer :
    (now later : ℕ) (m : Manager)
    → (trigger_timer now later m).timers
      ≡ (reinsert_repeating (collect_due now m).active_timers (collect_due now m)).timers
unfolding trigger_timer reset_timer reinsert_active
timers-trigger_timer now later m =
    (arm_first-fields later _ (reinsert_active (collect_due now m))).0

All-Has_self : (l k : List Entry) → ((e : Entry) → Has e l → Has e k) → All (λ e. Has e k) l
All-Has_self [] k f = tt
All-Has_self (e ∷ l) k f = (f e (inl refl), All-Has_self l k (λ g h. f g (inr h)))

-- `triggerTimer` keeps every timer whose time has not come. Of the due ones, a timer that is on and
-- repeats goes back into the set at its expiration plus its interval; any other one has no entry left.
pub trigger_timer-Settled :
    (now later : ℕ) (m : Manager)
    → IsValid m
    → All (λ e. Settled m.heap e (trigger_timer now later m).timers) (select (is_due now) m.timers)
      × All (λ e. Has e (trigger_timer now later m).timers) (select (is_later now) m.timers)
unfolding collect_due
trigger_timer-Settled now later m v =
    let (due, rest) = cut_by_time now m v in
    let d = collect_due now m in
    rw (timers-trigger_timer now later m) (
      rw (← due) (reinsert-Settled d.active_timers d (collect_due-IsMidway now m v)),
      All-Has_self _ _ (λ e h. reinsert-Has d.active_timers d e (rw rest h)),
    )
