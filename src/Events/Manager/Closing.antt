-- ===== src/Events/Manager/Closing.antt =====
-- koro/io_manager.cpp, `removeChannel`, which `close` of koro/hook.cpp calls.
use mathlib.Core.Option
use koro.Prelude.{
  ℕ, suc, ◌≡◌, refl, sym, ap, ◌∙◌, Bool, true, false, Option, none, some, List, [], ◌∷◌, Bool-cases,
  inl, inr, subst, set, update, update_self,
}
use koro.Events.Channel.{Channel}
use koro.Events.Channel.Firing.{tasks_of, fired}
use koro.Events.Table.{find}
use koro.Events.Poller as Poller
use koro.Events.Poller.{Epoll}
use koro.Events.Manager.{
  Io, remove_channel, remove_on, remove_from_epoll, clear_callbacks, forget, unregister_event,
}

fired-none : (on : Bool) → fired on none ≡ []
fired-none true = refl
fired-none false = refl

find-forget : (chs : List (Option ℕ)) (fd : ℕ) → find (set chs fd none) fd ≡ none
find-forget [] fd = refl
find-forget (x ∷ chs) ℕ.zero = refl
find-forget (x ∷ chs) (suc fd) = find-forget chs fd

-- Whatever event comes for the channel, no task is made of it.
abbrev pub IsSilent : Channel → Type 0
IsSilent ch = (revents : ℕ) → tasks_of (record ch { revents = revents }) ≡ []

cleared-IsSilent :
    (ch : Channel)
    → ch.read_callback ≡ none
    → ch.write_callback ≡ none
    → ch.error_callback ≡ none
    → IsSilent ch
cleared-IsSilent ch r w e revents = rw (r, w, e) (simp fired-none)

clear_callbacks-IsSilent : (ch : Channel) → IsSilent (clear_callbacks ch)
unfolding clear_callbacks
clear_callbacks-IsSilent ch = cleared-IsSilent (clear_callbacks ch) refl refl refl

module _ {K : Type 0} (ep : Epoll K) where
  -- The channel that `remove` leaves, and that it has no task queue.
  removed_from_epoll :
      (k : K) (ch : Channel)
      → ch.in_epoll ≡ true
      → (k' : K) × (left : Channel) × (remove_from_epoll ep k (clear_callbacks ch)
          ≡ some (k', left))
        × (left.task_queue ≡ none)
        × IsSilent left
  unfolding remove_from_epoll clear_callbacks koro.Events.Poller.remove_channel
  removed_from_epoll k ch here =
      let deleted : Channel = record (clear_callbacks ch) {
        events = 0;
        in_epoll = false;
        task_queue = none;
      } in
      let kept : Channel = record (clear_callbacks ch) { events = 0; task_queue = none } in
      elim (Bool-cases (ep.delete k ch.fd).1) [
        | inl ok ↦ (
          (ep.delete k ch.fd).0,
          deleted,
          simp (here, ok),
          refl,
          cleared-IsSilent deleted refl refl refl,
        )
        | inr bad ↦ (
          (ep.delete k ch.fd).0,
          kept,
          simp (here, bad),
          refl,
          cleared-IsSilent kept refl refl refl,
        )
      ]

  -- What has happened when `removeChannel` returns.
  pub record Closed (c : ℕ) (before after : Io K) : Type 0 where
    pub counted : after.pending ≡ before.pending
    pub forgotten : find after.chs (before.channels c).fd ≡ none
    pub silent : IsSilent (after.channels c)
    pub stranded : (before.channels c).in_epoll ≡ true → (after.channels c).task_queue ≡ none

  remove_on-Closed :
      (c q : ℕ) (io : Io K)
      → (after : Io K) × (remove_on ep c (io.channels c) q io ≡ some after) × Closed c io after
  unfolding remove_on forget
  remove_on-Closed c q io = elim (Bool-cases (io.channels c).in_epoll) [
    | inl here ↦
        let (k, left, e, alone, silent) = removed_from_epoll (io.epoll q) (io.channels c) here in
        (
          record (forget (io.channels c) io) {
            epoll = update io.epoll q k;
            channels = update io.channels c left;
          },
          simp (here, e),
          record {
            counted = refl;
            forgotten = find-forget io.chs (io.channels c).fd;
            silent = subst IsSilent (sym (update_self io.channels c left)) silent;
            stranded = λ _. ap (λ ch. ch.task_queue) (update_self io.channels c left) ∙ alone;
          },
        )
    | inr away ↦ (
      record (forget (io.channels c) io) {
        channels = update io.channels c (clear_callbacks (io.channels c));
      },
      simp away,
      record {
        counted = refl;
        forgotten = find-forget io.chs (io.channels c).fd;
        silent =
            subst IsSilent (sym (update_self io.channels c (clear_callbacks (io.channels c))))
              (clear_callbacks-IsSilent (io.channels c));
        stranded = λ here. absurd (cc);
      },
    )
  ]

  -- `removeChannel` always succeeds. On a channel without a task queue it changes nothing. On any other it
  -- leaves the count of pending events as it is; the table has no channel for the descriptor any more, no
  -- event makes a task of the channel, and if epoll knew the channel it has lost its task queue.
  pub remove_channel-Closed :
      (c : ℕ) (io : Io K)
      → ((io.channels c).task_queue ≡ none → remove_channel ep c io ≡ some io)
        × ((q : ℕ)
            → (io.channels c).task_queue ≡ some q
            → (after : Io K) × (remove_channel ep c io ≡ some after) × Closed c io after)
  unfolding remove_channel
  remove_channel-Closed c io = (
    λ h. ap (λ o. elim o [ none ↦ some io | some q ↦ remove_on ep c (io.channels c) q io ]) h,
    λ q h.
        let (after, e, closed) = remove_on-Closed c q io in
        (
          after,
          ap (λ o. elim o [ none ↦ some io | some q ↦ remove_on ep c (io.channels c) q io ]) h ∙ e,
          closed,
        ),
  )

  -- `removeChannel` of a channel that has a task queue and is known to epoll, as `close` calls it, leaves
  -- the pending events counted; no event that comes later makes a task of the channel, whoever waits for
  -- it, and whoever then calls `unregisterEvent` for the channel, whatever the event, fails the assertion
  -- that it has a task queue.
  pub closed_while_waiting :
      (c q : ℕ) (io : Io K)
      → (io.channels c).task_queue ≡ some q
      → (io.channels c).in_epoll ≡ true
      → (after : Io K) × (remove_channel ep c io ≡ some after)
        × (after.pending ≡ io.pending)
        × IsSilent (after.channels c)
        × ((event : ℕ) → unregister_event ep c event after ≡ none)
  unfolding unregister_event
  closed_while_waiting c q io h here =
      let (after, e, closed) = (remove_channel-Closed c io).1 q h in
      (after, e, closed.counted, closed.silent, λ event. ap (Option.map _) (closed.stranded here))
