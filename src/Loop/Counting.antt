-- ===== src/Loop/Counting.antt =====
-- koro/io_manager.cpp: `runAt`, `runAfter` and `runEvery` followed by `cancellTimer`.
use koro.Prelude.{
  ℕ, ◌+◌, ◌-◌, ◌%◌, ◌^◌, ◌<◌, ◌≡◌, ◌≢◌, refl, sym, ap, subst, ◌∙◌, Option, some, arith, ℤ, update,
  update_ne, update_self,
}
use koro.Timers.{add_seconds}
use koro.Timers.Manager.{TimerId, register_timer, unregister_event, trigger_timer, max_ptr}
use koro.Timers.Manager.Validity.{IsValid}
use koro.Timers.Manager.Invariant.{register_timer-IsValid, unregister_event-IsValid}
use koro.Timers.Manager.Cancelling.{register-unregister, trigger-Dead}
use koro.Loop.{Loop, count_up, count_down, add_timer, run_at, run_after, run_every, cancell_timer}

module _ {K : Type 0} where
  -- `o` registers a timer of the worker of queue `q`; when it is cancelled, the event manager with its count
  -- of pending events is as before, the next `triggerTimer` of the worker makes the tasks that it would
  -- have made, and the other workers' timers and all queues are as before. What the kernel's timer is
  -- armed to is left open, and the entry of the cancelled timer may still be in the set.
  pub record Undone (q : ℕ) (s : Loop K) (o : Option (Loop K × TimerId)) : Type 0 where
    pub registered : Loop K
    pub timer_id : TimerId
    pub cancelled : Loop K
    pub registers : o ≡ some (registered, timer_id)
    pub cancels : cancell_timer timer_id (some q) registered ≡ some cancelled
    pub counted : registered.io.pending ≡ (s.io.pending + 1) % 2 ^ 64
    pub restored : cancelled.io ≡ s.io
    pub valid : IsValid (cancelled.managers q)
    pub fires :
        (now later : ℕ)
        → (trigger_timer now later (cancelled.managers q)).tasks
          ≡ (trigger_timer now later (s.managers q)).tasks
    pub others : (j : ℕ) → j ≢ q → cancelled.managers j ≡ s.managers j
    pub tasks : cancelled.tasks ≡ s.tasks
    pub same_wakeup : cancelled.wakeup_fd ≡ s.wakeup_fd
    pub same_timer_fd : cancelled.timer_fd ≡ s.timer_fd
    pub same_counters : cancelled.counters ≡ s.counters

  add_timer-Undone :
      (now id timestamp cb q : ℕ) (interval : ℤ) (s : Loop K)
      → id ≢ 0
      → IsValid (s.managers q)
      → (s.managers q).next < max_ptr
      → s.io.pending < 2 ^ 64
      → Undone q s (some (add_timer now id timestamp cb interval q (count_up s)))
  unfolding add_timer count_up count_down cancell_timer
  add_timer-Undone now id timestamp cb q interval s good v room small =
      let m = s.managers q in
      let (m', i) = register_timer now id timestamp cb interval m in
      let left = unregister_event i m' in
      let here : update (update s.managers q m') q (unregister_event i (update s.managers q m' q)) q
          ≡ left =
        update_self (update s.managers q m') q (unregister_event i (update s.managers q m' q))
        ∙ ap (unregister_event i) (update_self s.managers q m') in
      let valid : IsValid left =
        unregister_event-IsValid i m'
          (register_timer-IsValid now id timestamp cb interval m room v) in
      record {
        registered = (add_timer now id timestamp cb interval q (count_up s)).0;
        timer_id = i;
        cancelled = record s {
          io = record (s.io) { pending = ((s.io.pending + 1) % 2 ^ 64 + 2 ^ 64 - 1) % 2 ^ 64 };
          managers =
              update (update s.managers q m') q (unregister_event i (update s.managers q m' q));
        };
        registers = refl;
        cancels = refl;
        counted = refl;
        restored = ap (λ n. record (s.io) { pending = n }) (omega arith);
        valid = subst IsValid (sym here) valid;
        fires = λ now' later.
            ap (λ k. (trigger_timer now' later k).tasks) here
            ∙ trigger-Dead now' later m left v valid
                (register-unregister now id timestamp cb interval m good);
        others = λ j ne.
            update_ne (update s.managers q m') (unregister_event i (update s.managers q m' q)) ne
            ∙ update_ne s.managers m' ne;
        tasks = refl;
        same_wakeup = refl;
        same_timer_fd = refl;
        same_counters = refl;
      }

  -- `runAt`, `runAfter` and `runEvery` on a worker with a valid set of timers, each followed at once by
  -- `cancellTimer`: they succeed and count one pending event, which the cancellation takes back; the next
  -- call of `triggerTimer`, at whatever time it comes, makes the tasks that it would have made without
  -- them; and the other workers' timers, the queues, the channels and the numbers of the descriptors are
  -- as before. Identifiers are not 0, and addresses and the count of pending events have not run out. It is
  -- left open when the kernel's timer expires afterwards.
  pub cancelled-Undone :
      (now id cb q : ℕ) (s : Loop K)
      → id ≢ 0
      → IsValid (s.managers q)
      → (s.managers q).next < max_ptr
      → s.io.pending < 2 ^ 64
      → ((timestamp : ℕ) → Undone q s (run_at now id timestamp cb (some q) s))
        × ((delay_sec : ℤ) → Undone q s (run_after now id delay_sec cb (some q) s))
        × ((interval_sec : ℤ) → Undone q s (run_every now id interval_sec cb (some q) s))
  unfolding run_at run_after run_every
  cancelled-Undone now id cb q s good v room small = (
    λ timestamp. add_timer-Undone now id timestamp cb q _ s good v room small,
    λ delay_sec. add_timer-Undone now id (add_seconds now delay_sec) cb q _ s good v room small,
    λ interval_sec.
        add_timer-Undone now id (add_seconds now interval_sec) cb q interval_sec s good v room
          small,
  )
