-- ===== src/Hook/Blocking/Waking.antt =====
-- koro/hook.cpp: the callback of `do_io`, however often and wherever it is called, and `close`.
use koro.Prelude.{
  ℕ, ◌≡◌, refl, Bool, true, false, Option, none, some, List, [], ◌∷◌, ◌++◌, Option-cases, inl, inr,
  update, sym, ap, ◌∙◌, subst,
}
use mathlib.Core.Option.{some-injective}
use koro.Scheduling.Task.{Task, fiber}
use koro.Events.Poller.{Epoll}
use koro.Events.Table.{find}
use koro.Events.Manager.{Io, remove_channel}
use koro.Events.Manager.Closing.{Closed, remove_channel-Closed}
use koro.Hook.Blocking.{Answer, World, on_event, close}

-- The callback called in turn, each time with the fiber if it is alive and on some worker's queue.
abbrev on_events : List (Option ℕ × ℕ) → Bool × (ℕ → List Task) → Bool × (ℕ → List Task)
on_events [] st = st
on_events ((alive, q) ∷ calls) st = on_events calls (on_event alive q st)

triggered_once :
    (calls : List (Option ℕ × ℕ)) (tasks : ℕ → List Task)
    → on_events calls (true, tasks) ≡ (true, tasks)
unfolding on_event
triggered_once [] tasks = refl
triggered_once ((alive, q) ∷ calls) tasks = triggered_once calls tasks

-- The callback that `do_io` registers puts its fiber into one queue, that of the worker which calls it
-- first, and only once, however often it is called behind that and on whatever workers; a fiber
-- that no longer exists at the first call is put nowhere.
on_events-once :
    (alive : Option ℕ) (q : ℕ) (calls : List (Option ℕ × ℕ)) (tasks : ℕ → List Task)
    → ((f : ℕ)
        → alive ≡ some f
        → on_events ((alive, q) ∷ calls) (false, tasks)
          ≡ (true, update tasks q (tasks q ++ fiber f ∷ [])))
      × (alive ≡ none → on_events ((alive, q) ∷ calls) (false, tasks) ≡ (true, tasks))
unfolding on_event
on_events-once alive q calls tasks = (
  λ f h. rw h (triggered_once calls (update tasks q (tasks q ++ fiber f ∷ []))),
  λ h. rw h (triggered_once calls tasks),
)

module _ {K : Type 0} (ep : Epoll K) where
  -- What `close` leaves of the event manager: all as it was, if the table has no channel for the
  -- descriptor, or has one without a task queue; and if it has one with a task queue, that is closed.
  pub record Released (fd : ℕ) (before after : Io K) : Type 0 where
    pub unknown : find before.chs fd ≡ none → after ≡ before
    pub without_queue :
        (c : ℕ)
        → find before.chs fd ≡ some c
        → (before.channels c).task_queue ≡ none
        → after ≡ before
    pub known :
        (c q : ℕ)
        → find before.chs fd ≡ some c
        → (before.channels c).task_queue ≡ some q
        → Closed ep c before after

  Released-known :
      (fd c : ℕ) (before after : Io K)
      → find before.chs fd ≡ some c
      → ((before.channels c).task_queue ≡ none → after ≡ before)
      → ((q : ℕ) → (before.channels c).task_queue ≡ some q → Closed ep c before after)
      → Released fd before after
  Released-known fd c before after found bare bound = record {
    unknown = λ e. absurd (cc);
    without_queue = λ d e alone. bare (ap (λ x. (before.channels x).task_queue) (same d e) ∙ alone);
    known = λ d q e queue.
        subst (λ x. Closed ep x before after) (same d e)
          (bound q (ap (λ x. (before.channels x).task_queue) (same d e) ∙ queue));
  }
    where
      same : (d : ℕ) → find before.chs fd ≡ some d → c ≡ d
      same d e = some-injective _ _ (sym found ∙ e)

  remove_channel-Released :
      (fd c : ℕ) (io : Io K)
      → find io.chs fd ≡ some c
      → (after : Io K) × (remove_channel ep c io ≡ some after) × Released fd io after
  remove_channel-Released fd c io found = elim (Option-cases (io.channels c).task_queue) [
    | inl e ↦ (
      io,
      (remove_channel-Closed ep c io).0 e,
      Released-known fd c io io found (λ _. refl) (λ q h. absurd (cc)),
    )
    | inr (q, e) ↦
        let (after, removed, closed) = (remove_channel-Closed ep c io).1 q e in
        (after, removed, Released-known fd c io after found (λ h. absurd (cc)) (λ q' h. closed))
  ]

  -- `close` always returns, with the answer of the system call, which it makes in the state in which it
  -- finds the kernel. Where the table has a channel with a task queue for the descriptor, that is closed
  -- before: the table forgets the descriptor of the channel, no event that comes later makes a task of
  -- it, and the count of pending events stays. Where it has none, or one without a task queue, the event
  -- manager stays as it is.
  pub close-Released :
      {S : Type 0} (sys_close : S → S × Answer) (fd : ℕ) (w : World S K)
      → (after : Io K) × (close ep sys_close fd w
          ≡ some (record w { sys = (sys_close w.sys).0; io = after }, (sys_close w.sys).1))
        × Released fd w.io after
  unfolding close
  close-Released sys_close fd w = elim (Option-cases (find w.io.chs fd)) [
    | inl e ↦ (
      w.io,
      rw e refl,
      record {
        unknown = λ _. refl;
        without_queue = λ c h. absurd (cc);
        known = λ c q h. absurd (cc);
      },
    )
    | inr (c, e) ↦
        let (after, removed, released) = remove_channel-Released fd c w.io e in
        (after, rw (e, removed) refl, released)
  ]
