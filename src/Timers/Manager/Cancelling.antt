-- ===== src/Timers/Manager/Cancelling.antt =====
-- koro/timer_manager.cpp: a timer that is registered and then cancelled.
use koro.Prelude.{
  ℕ, ◌<◌, ◌≡◌, ◌≢◌, refl, sym, ap, ◌∙◌, true, false, List, [], ◌∷◌, ◌++◌, map, All, Bool-cases, inl,
  inr, ◌==◌, if◌then◌else◌, arith, select, ℤ, update, update_ne, update_self,
}
use koro.Timers.{Timer, enable, new_timer}
use koro.Timers.Entries.{Entry, insert_entry, entry_lt}
use koro.Timers.Entries.Order.{is_due}
use koro.Timers.Manager.{
  Manager, register_timer, unregister_event, trigger_timer, set_on, insert_resets, reset_timer_fd,
  add_timer, insert,
}
use koro.Timers.Manager.Validity.{IsValid, IsKeyed}
use koro.Timers.Manager.Firing.{is_on, callback, tasks-trigger_timer}

-- A timer that is off is passed over.
select-off :
    (heap : ℕ → Timer) (now : ℕ) (e : Entry) (l : List Entry)
    → is_on heap e ≡ false
    → select (is_on heap) (select (is_due now) (e ∷ l))
      ≡ select (is_on heap) (select (is_due now) l)
select-off heap now e l h = elim (Bool-cases (is_due now e)) [
  | inl due ↦ rw (due, h) refl
  | inr later ↦ rw later refl
]

select-cons :
    (heap : ℕ → Timer) (now : ℕ) (x : Entry) (l k : List Entry)
    → select (is_on heap) (select (is_due now) l) ≡ select (is_on heap) (select (is_due now) k)
    → select (is_on heap) (select (is_due now) (x ∷ l))
      ≡ select (is_on heap) (select (is_due now) (x ∷ k))
select-cons heap now x l k h = elim (Bool-cases (is_due now x)) [
  | inl due ↦ rw due (ap (λ r. if is_on heap x then x ∷ r else r) h)
  | inr later ↦ rw later h
]

select-insert_off :
    (heap : ℕ → Timer) (now : ℕ) (e : Entry) (l : List Entry)
    → is_on heap e ≡ false
    → select (is_on heap) (select (is_due now) (insert_entry e l))
      ≡ select (is_on heap) (select (is_due now) l)
unfolding insert_entry
select-insert_off heap now e [] h = select-off heap now e [] h
select-insert_off heap now e (x ∷ l) h = elim (Bool-cases (entry_lt e x)) [
  | inl first ↦ rw first (select-off heap now e (x ∷ l) h)
  | inr behind ↦ elim (Bool-cases (entry_lt x e)) [
    | inl after ↦
        rw (behind, after)
          (select-cons heap now x (insert_entry e l) l (select-insert_off heap now e l h))
    | inr there ↦ rw (behind, there) refl
  ]
]

abbrev push : Timer → List ℕ → List ℕ
push t rest = if t.on then t.on_time_callback ∷ rest else rest

map-push :
    (heap : ℕ → Timer) (e : Entry) (l : List Entry)
    → map (callback heap) (select (is_on heap) (e ∷ l))
      ≡ push (heap e.timer) (map (callback heap) (select (is_on heap) l))
map-push heap e l = elim (Bool-cases (is_on heap e)) [ inl on ↦ rw on refl | inr off ↦ rw off refl ]

-- Timers at addresses from `next` on do not matter to a valid set.
agree :
    (heap new : ℕ → Timer) (next now : ℕ) (l : List Entry)
    → ((p : ℕ) → p < next → new p ≡ heap p)
    → All (IsKeyed heap next) l
    → map (callback new) (select (is_on new) (select (is_due now) l))
      ≡ map (callback heap) (select (is_on heap) (select (is_due now) l))
agree heap new next now [] same k = refl
agree heap new next now (e ∷ l) same k =
    let rest = agree heap new next now l same k.1 in
    elim (Bool-cases (is_due now e)) [
      | inl due ↦ rw due (
          map-push new e (select (is_due now) l)
          ∙ ap (λ t. push t (map (callback new) (select (is_on new) (select (is_due now) l))))
              (same e.timer k.0.1)
          ∙ ap (push (heap e.timer)) rest
          ∙ sym (map-push heap e (select (is_due now) l)))
      | inr later ↦ rw later rest
    ]

-- What `registerTimer` and then `unregisterEvent` leave of a manager: one more entry in the set, for a
-- timer at the next address, which is off.
pub record Dead (before after : Manager) : Type 0 where
  pub time : ℕ
  pub set : after.timers ≡ insert_entry (record { time = time; timer = before.next }) before.timers
  pub old : (p : ℕ) → p < before.next → after.heap p ≡ before.heap p
  pub off : (after.heap before.next).on ≡ false
  pub tasks : after.tasks ≡ before.tasks

new_timer-expiration :
    (timestamp cb : ℕ) (interval : ℤ) → (new_timer timestamp cb interval).expiration ≡ timestamp
unfolding new_timer
new_timer-expiration timestamp cb interval = refl

switched-Dead :
    (time : ℕ) (new : Timer) (m armed : Manager)
    → armed.timers ≡ insert_entry (record { time = time; timer = m.next }) m.timers
    → armed.heap ≡ update m.heap m.next new
    → armed.tasks ≡ m.tasks
    → Dead m (set_on false m.next (set_on true m.next armed))
unfolding set_on enable
switched-Dead time new m armed timers heap tasks = record {
  time = time;
  set = timers;
  old = λ p small.
      let ne : p ≢ m.next = λ e. absurd (omega arith) in
      update_ne on_timers.heap (enable false (on_timers.heap m.next)) ne
      ∙ update_ne armed.heap (enable true (armed.heap m.next)) ne
      ∙ ap (λ h. h p) heap
      ∙ update_ne m.heap new ne;
  off =
      ap (λ (t : Timer). t.on)
        (update_self on_timers.heap m.next (enable false (on_timers.heap m.next)));
  tasks = tasks;
}
  where
    on_timers : Manager
    on_timers = set_on true m.next armed

added-fields :
    (timestamp cb : ℕ) (interval : ℤ) (m : Manager)
    → ((add_timer timestamp cb interval m).timers
        ≡ insert_entry (record { time = timestamp; timer = m.next }) m.timers)
      × ((add_timer timestamp cb interval m).heap
          ≡ update m.heap m.next (new_timer timestamp cb interval))
      × ((add_timer timestamp cb interval m).tasks ≡ m.tasks)
unfolding add_timer insert
added-fields timestamp cb interval m = (
  ap (λ t. insert_entry (record { time = t; timer = m.next }) m.timers)
      (ap (λ t. t.expiration) (update_self m.heap m.next (new_timer timestamp cb interval))
        ∙ new_timer-expiration timestamp cb interval),
  refl,
  refl,
)

pub register-unregister :
    (now id timestamp cb : ℕ) (interval : ℤ) (m : Manager)
    → id ≢ 0
    → Dead m (
        unregister_event
          (register_timer now id timestamp cb interval m).1
          (register_timer now id timestamp cb interval m).0)
unfolding register_timer unregister_event reset_timer_fd
register-unregister now id timestamp cb interval m h =
    let good : (id == 0) ≡ false = ground arith in
    let new = new_timer timestamp cb interval in
    let (timers, heap, tasks) = added-fields timestamp cb interval m in
    elim (Bool-cases (insert_resets timestamp m.timers)) [
      | inl first ↦ rw (good, first) (switched-Dead timestamp new m _ timers heap tasks)
      | inr behind ↦ rw (good, behind) (switched-Dead timestamp new m _ timers heap tasks)
    ]

-- Firing is as if the timer had never been.
pub trigger-Dead :
    (now later : ℕ) (m m' : Manager)
    → IsValid m
    → IsValid m'
    → Dead m m'
    → (trigger_timer now later m').tasks ≡ (trigger_timer now later m).tasks
trigger-Dead now later m m' v v' d =
    let e : Entry = record { time = d.time; timer = m.next } in
    tasks-trigger_timer now later m' v'
    ∙ ap (λ l. l ++ fired m' m'.timers) d.tasks
    ∙ ap (λ l. m.tasks ++ fired m' l) d.set
    ∙ ap (λ l. m.tasks ++ map (callback m'.heap) l) (select-insert_off m'.heap now e m.timers d.off)
    ∙ ap (λ l. m.tasks ++ l) (agree m.heap m'.heap m.next now m.timers d.old v.keyed)
    ∙ sym (tasks-trigger_timer now later m v)
  where
    fired : Manager → List Entry → List ℕ
    fired k l = map (callback k.heap) (select (is_on k.heap) (select (is_due now) l))
