-- ===== src/Loop/Dispatching.antt =====
-- koro/io_manager.cpp, the loop of `idle` over the events of one `epoll_wait`.
use koro.Prelude.{
  ℕ, ◌≡◌, refl, sym, ap, ◌∙◌, Bool, true, false, Option, none, some, List, [], ◌∷◌, ◌++◌, All,
  All-mono, All-all, append_assoc, append-nil, Bool-cases, ◌⊎◌, inl, inr, ◌==◌, if◌then◌else◌,
}
use koro.Scheduling.Task.{Task}
use koro.Timers.Manager.Validity.{IsValid}
use koro.Events.Table.{find}
use koro.Loop.{Loop, Ready, dispatch}
use koro.Loop.Handling.{handle_ready-Handled}
use koro.Loop.Making.{
  entry_tasks, made, made_all, HasQueues, due_tasks, Steady, Steady-refl, Steady-trans,
  Steady-HasQueues,
}

-- No event is for the descriptor; and at most one is.
abbrev pub IsAbsent : ℕ → List Ready → Type 0
IsAbsent fd evs = All (λ ev. (fd == ev.fd) ≡ false) evs

abbrev pub IsOnce : ℕ → List Ready → Type 0
IsOnce fd [] = Unit {0}
IsOnce fd (ev ∷ evs) = ((fd == ev.fd) ≡ true → IsAbsent fd evs) × IsOnce fd evs

chosen-cong :
    {w w' h h' : Bool} {x x' y y' : List Task}
    → w ≡ w'
    → h ≡ h'
    → y ≡ y'
    → (x ≡ x') ⊎ (h' ≡ false)
    → (if w then [] else if h then x else y) ≡ (if w' then [] else if h' then x' else y')
chosen-cong p q r (inl e) = rw (p, q, r, e) refl
chosen-cong p q r (inr e) = rw (p, q, r, e) refl

module _ {K : Type 0} where
  entry_tasks-Steady :
      (o : Option ℕ) (revents j : ℕ) {s t : Loop K}
      → Steady s t
      → entry_tasks o revents j t ≡ entry_tasks o revents j s
  entry_tasks-Steady none revents j a = refl
  entry_tasks-Steady (some c) revents j a = a.channels c revents j

  made-Steady :
      (now q j : ℕ) (ev : Ready) {s t : Loop K}
      → Steady s t
      → (t.managers ≡ s.managers) ⊎ ((s.timer_fd q == ev.fd) ≡ false)
      → made now q j t ev ≡ made now q j s ev
  made-Steady now q j ev {s} {t} a other =
      let at_table =
        ap (λ l. entry_tasks (find l ev.fd) ev.revents j t) a.chs
        ∙ entry_tasks-Steady (find s.io.chs ev.fd) ev.revents j a in
      chosen-cong (ap (λ f. f q == ev.fd) a.wakeup) (ap (λ f. f q == ev.fd) a.timer) at_table
        (elim other [
          | inl same ↦ inl (ap (λ ms. if q == j then due_tasks now (ms q) else []) same)
          | inr unused ↦ inr unused
        ])

  made_all-Steady :
      (now q j : ℕ) (evs : List Ready) {s t : Loop K}
      → Steady s t
      → All (λ ev. (t.managers ≡ s.managers) ⊎ ((s.timer_fd q == ev.fd) ≡ false)) evs
      → made_all now q j t evs ≡ made_all now q j s evs
  made_all-Steady now q j [] a h = refl
  made_all-Steady now q j (ev ∷ evs) a h =
      rw (made-Steady now q j ev a h.0, made_all-Steady now q j evs a h.1) refl

  -- The timers' managers matter to no event that is left.
  unread :
      (q : ℕ) (ev : Ready) (evs : List Ready) (s t : Loop K)
      → ((s.timer_fd q == ev.fd) ≡ false → t.managers ≡ s.managers)
      → ((s.timer_fd q == ev.fd) ≡ true → IsAbsent (s.timer_fd q) evs)
      → All (λ ev. (t.managers ≡ s.managers) ⊎ ((s.timer_fd q == ev.fd) ≡ false)) evs
  unread q ev evs s t same absent = elim (Bool-cases (s.timer_fd q == ev.fd)) [
    | inl here ↦ All-mono evs (λ e h. inr h) (absent here)
    | inr away ↦ All-all evs (λ e. inl (same away))
  ]

  -- The loop of `idle` on the events of one `epoll_wait`, of which at most one is for the timers' descriptor
  -- and each channel of which has a task queue, never fails. Each task queue gets, behind the tasks that it
  -- has, those of each event in the order of the events: those of the timers that are due and on, and
  -- those of the channel that the table has for the descriptor, all as they were before the first event.
  -- The table, the channels' queues and the count of pending events are as before.
  pub dispatch-made_all :
      (now later q : ℕ) (evs : List Ready) (s : Loop K)
      → HasQueues s
      → IsValid (s.managers q)
      → IsOnce (s.timer_fd q) evs
      → (t : Loop K) × (dispatch now later q evs s ≡ some t)
        × ((j : ℕ) → t.tasks j ≡ s.tasks j ++ made_all now q j s evs)
        × Steady s t
  unfolding dispatch
  dispatch-made_all now later q [] s h v once =
      (s, refl, λ j. sym (append-nil (s.tasks j)), Steady-refl s)
  dispatch-made_all now later q (ev ∷ evs) s h v once =
      let (u, e, done) = handle_ready-Handled now later q ev s h v in
      let a = done.steady in
      let (t, e', tasks, b) =
        dispatch-made_all now later q evs u (Steady-HasQueues a h) done.valid (rw a.timer once.1) in
      (
        t,
        rw e e',
        λ j.
            tasks j
            ∙ ap (λ l. l ++ made_all now q j u evs) (done.tasks j)
            ∙ append_assoc (s.tasks j) (made now q j s ev) (made_all now q j u evs)
            ∙ ap (λ l. s.tasks j ++ (made now q j s ev ++ l))
                (made_all-Steady now q j evs a (unread q ev evs s u done.managers once.0)),
        Steady-trans a b,
      )
