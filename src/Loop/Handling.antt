-- ===== src/Loop/Handling.antt =====
-- koro/io_manager.cpp, the body of the loop of `idle`: which tasks one event makes, and what it leaves as it is.
use koro.Prelude.{
  ℕ, ◌≡◌, refl, sym, ap, subst, ◌∙◌, true, false, some, List, [], ◌++◌, map, append-nil, Bool-cases,
  Option-cases, inl, inr, ◌==◌, arith, update, update-cases, update_self,
}
use koro.Scheduling.Task.{callback}
use koro.Timers.Manager.{Manager, trigger_timer}
use koro.Timers.Manager.Validity.{IsValid}
use koro.Timers.Manager.Firing.{tasks-trigger_timer}
use koro.Events.Channel.{Channel, widen}
use koro.Events.Channel.Firing.{tasks_of, handle_event_lem}
use koro.Events.Bits.{has}
use koro.Timers.Manager.Invariant.{trigger_timer-IsValid}
use koro.Events.Table.{find}
use koro.Loop.Making.{due_tasks, channel_tasks, HasQueues, Steady-refl, Steady-counters, Handled}
use koro.Loop.{Loop, Ready, on_time, handle_channel, handle_ready}

emptied-IsValid : (m : Manager) (l : List ℕ) → IsValid m → IsValid (record m { tasks = l })
emptied-IsValid m l v = record {
  ordered = v.ordered;
  keyed = v.keyed;
  distinct = v.distinct;
  idle = v.idle;
  real = v.real;
}

widen-channel_tasks :
    (ch : Channel) (revents later j : ℕ)
    → channel_tasks (widen (record ch { revents = revents })) later j ≡ channel_tasks ch later j
unfolding widen
widen-channel_tasks ch revents later j = elim (Bool-cases (has 24 revents)) [
  | inl e ↦ rw e refl
  | inr e ↦ rw e refl
]

widen-task_queue : (ch : Channel) → (widen ch).task_queue ≡ ch.task_queue
unfolding widen
widen-task_queue ch = elim (Bool-cases (has 24 ch.revents)) [
  | inl e ↦ rw e refl
  | inr e ↦ rw e refl
]

module _ {K : Type 0} where
  on_time-Handled :
      (now later q : ℕ) (ev : Ready) (s : Loop K)
      → IsValid (s.managers q)
      → (s.wakeup_fd q == ev.fd) ≡ false
      → (s.timer_fd q == ev.fd) ≡ true
      → Handled now q ev s (on_time now later q s)
  unfolding on_time
  on_time-Handled now later q ev s v w h =
      let emptied = record (s.managers q) { tasks = [] } in
      let u = emptied-IsValid (s.managers q) [] v in
      let m = trigger_timer now later emptied in
      record {
        steady = record {
          chs = refl;
          queues = λ c. refl;
          channels = λ c revents j. refl;
          wakeup = refl;
          timer = refl;
          pending = refl;
        };
        tasks = λ j. elim (Bool-cases (q == j)) [
          | inl here ↦
              let pushed : s.tasks q ++ map callback m.tasks
                  ≡ s.tasks j ++ due_tasks now (s.managers q) =
                subst
                  (λ k.
                    s.tasks q ++ map callback m.tasks ≡ s.tasks k ++ due_tasks now (s.managers q))
                  (ground arith)
                  (ap (λ l. s.tasks q ++ map callback l)
                    (tasks-trigger_timer now later emptied u)) in
              rw (w, h, here) pushed
          | inr there ↦ rw (w, h, there) (sym (append-nil (s.tasks j)))
        ];
        managers = λ no. absurd (cc);
        valid =
            subst IsValid (sym (update_self s.managers q (record m { tasks = [] })))
              (emptied-IsValid m [] (trigger_timer-IsValid now later emptied u));
      }

  handle_channel-Handled :
      (now q c p : ℕ) (ev : Ready) (s : Loop K)
      → IsValid (s.managers q)
      → (s.wakeup_fd q == ev.fd) ≡ false
      → (s.timer_fd q == ev.fd) ≡ false
      → find s.io.chs ev.fd ≡ some c
      → (s.io.channels c).task_queue ≡ some p
      → (t : Loop K) × (handle_channel c ev.revents s ≡ some t) × Handled now q ev s t
  unfolding handle_channel
  handle_channel-Handled now q c p ev s v w h found queue =
      let ch : Channel = record (s.io.channels c) { revents = ev.revents } in
      let (after, e, here, others) = handle_event_lem ch s.tasks p queue in
      (
        record s {
          io = record (s.io) { channels = update s.io.channels c (widen ch) };
          tasks = after;
        },
        rw e refl,
        record {
          steady = record {
            chs = refl;
            queues = λ d. elim (update-cases s.io.channels c d (widen ch)) [
              | inl (same, e) ↦ ap (λ x. x.task_queue) e ∙ widen-task_queue ch ∙ rw same refl
              | inr (ne, e) ↦ ap (λ x. x.task_queue) e
            ];
            channels = λ d r j. elim (update-cases s.io.channels c d (widen ch)) [
              | inl (same, e) ↦
                  ap (λ x. channel_tasks x r j) e
                  ∙ widen-channel_tasks (s.io.channels c) ev.revents r j
                  ∙ rw same refl
              | inr (ne, e) ↦ ap (λ x. channel_tasks x r j) e
            ];
            wakeup = refl;
            timer = refl;
            pending = refl;
          };
          tasks = λ j. elim (Bool-cases (p == j)) [
            | inl same ↦
                let here' : after j ≡ s.tasks j ++ tasks_of ch =
                  subst (λ k. after k ≡ s.tasks k ++ tasks_of ch) (ground arith) here in
                rw (w, h, found, queue, same) here'
            | inr ne ↦
                rw (w, h, found, queue, ne) (others j (ground arith) ∙ sym (append-nil (s.tasks j)))
          ];
          managers = λ no. refl;
          valid = v;
        },
      )

  pub handle_ready-Handled :
      (now later q : ℕ) (ev : Ready) (s : Loop K)
      → HasQueues s
      → IsValid (s.managers q)
      → (t : Loop K) × (handle_ready now later q ev s ≡ some t) × Handled now q ev s t
  unfolding handle_ready
  handle_ready-Handled now later q ev s queues v = elim (Bool-cases (s.wakeup_fd q == ev.fd)) [
    | inl w ↦ (
      record s { counters = update s.counters q 0 },
      rw w refl,
      record {
        steady = Steady-counters s q;
        tasks = λ j. rw w (sym (append-nil (s.tasks j)));
        managers = λ no. refl;
        valid = v;
      },
    )
    | inr w ↦ elim (Bool-cases (s.timer_fd q == ev.fd)) [
      | inl h ↦ (on_time now later q s, rw (w, h) refl, on_time-Handled now later q ev s v w h)
      | inr h ↦ elim (Option-cases (find s.io.chs ev.fd)) [
        | inl none_found ↦ (
          s,
          rw (w, h, none_found) refl,
          record {
            steady = Steady-refl s;
            tasks = λ j. rw (w, h, none_found) (sym (append-nil (s.tasks j)));
            managers = λ no. refl;
            valid = v;
          },
        )
        | inr (c, found) ↦
            let (p, queue) = queues ev.fd c found in
            let (t, e, done) = handle_channel-Handled now q c p ev s v w h found queue in
            (t, rw (w, h, found) e, done)
      ]
    ]
  ]
