-- ===== src/Events/Manager/Registration.antt =====
-- koro/io_manager.cpp, `registerEvent` and `unregisterEvent`.
use koro.Prelude.{
  ℕ, ◌+◌, ◌%◌, ◌^◌, ◌≡◌, ◌≢◌, refl, sym, ap, ◌∙◌, Bool, true, false, none, some, arith, subst,
  update, update_ne, update_self,
}
use mathlib.Core.Option
use koro.Events.Bits.{epollin, epollout}
use koro.Events.Channel.{Channel}
use koro.Events.Poller.{Epoll, update_channel}
use koro.Events.Manager.{Io, register_on, set_callback, add_events, store_updated, register_event}
use koro.Events.Manager.Updates.{
  IsEvent, Asks, Outcome, update_channel-Updated, Updated-Asks, prepared,
}

module _ {K : Type 0} (ep : Epoll K) where
  -- What has happened when `registerEvent` returns true.
  pub record Registered (q c event cb : ℕ) (before after : Io K) : Type 0 where
    pub asks : Asks event cb (before.channels c) (after.channels c)
    pub counted : after.pending ≡ (before.pending + 1) % 2 ^ 64
    pub others : (d : ℕ) → d ≢ c → after.channels d ≡ before.channels d
    pub outcome : Outcome ep (before.epoll q) (before.channels c) (after.epoll q) (after.channels c)

  unsupported :
      (event cb : ℕ) (ch : Channel)
      → event ≢ epollin
      → event ≢ epollout
      → set_callback event cb ch ≡ none
  unfolding set_callback
  unsupported event cb ch not_in not_out = ground arith

  register_event_at :
      (on_error c event cb q : ℕ) (use_et : Bool) (io : Io K)
      → (io.channels c).task_queue ≡ some q
      → register_event ep on_error c event cb use_et io
        ≡ some (register_on ep on_error c event use_et q (set_callback event cb (io.channels c)) io)
  unfolding register_event
  register_event_at on_error c event cb q use_et io h =
      ap
        (Option.map (λ q.
          register_on ep on_error c event use_et q (set_callback event cb (io.channels c)) io))
        h

  register_none :
      (on_error c event q : ℕ) (use_et : Bool) (io : Io K)
      → some (register_on ep on_error c event use_et q none io) ≡ some (io, false)
  unfolding register_on
  register_none on_error c event q use_et io = refl

  register_on-Registered :
      (on_error c event cb q : ℕ) (use_et : Bool) (io : Io K) (p : Channel)
      → Asks event cb (io.channels c) (add_events on_error event use_et p)
      → (add_events on_error event use_et p).in_epoll ≡ (io.channels c).in_epoll
      → (after : Io K) × (register_on ep on_error c event use_et q (some p) io ≡ (after, true))
        × Registered q c event cb io after
  unfolding register_on store_updated
  register_on-Registered on_error c event cb q use_et io p asks same =
      let added = add_events on_error event use_et p in
      let (k, ch) = update_channel ep (io.epoll q) added in
      let (asks', outcome) =
        Updated-Asks ep asks same (update_channel-Updated ep (io.epoll q) added) in
      (
        record io {
          epoll = update io.epoll q k;
          channels = update io.channels c ch;
          pending = (io.pending + 1) % 2 ^ 64;
        },
        refl,
        record {
          asks = subst (Asks event cb (io.channels c)) (sym (update_self io.channels c ch)) asks';
          counted = refl;
          others = λ d ne. update_ne io.channels ch ne;
          outcome =
              subst (λ x. Outcome ep (io.epoll q) (io.channels c) x (update io.channels c ch c))
                (sym (update_self io.epoll q k))
                (subst (Outcome ep (io.epoll q) (io.channels c) k)
                  (sym (update_self io.channels c ch)) outcome);
        },
      )

  -- `registerEvent` of a channel that has a task queue: an event other than reading and writing is refused
  -- and changes nothing. Otherwise it returns true, has set the callback, asks for the event, has counted
  -- one more pending event, and epoll watches the channel for all its events, or has refused to and
  -- watches what it did before.
  pub register_event-Registered :
      (on_error c event cb q : ℕ) (use_et : Bool) (io : Io K)
      → (io.channels c).task_queue ≡ some q
      → (IsEvent event
          → (after : Io K) × (register_event ep on_error c event cb use_et io ≡ some (after, true))
            × Registered q c event cb io after)
        × (event ≢ epollin
            → event ≢ epollout
            → register_event ep on_error c event cb use_et io ≡ some (io, false))
  register_event-Registered on_error c event cb q use_et io h = (
    λ is.
        let (p, set, asks, same) = prepared on_error event cb use_et (io.channels c) is in
        let (after, e, registered) =
          register_on-Registered on_error c event cb q use_et io p asks same in
        (
          after,
          register_event_at on_error c event cb q use_et io h
              ∙ ap (λ o. some (register_on ep on_error c event use_et q o io)) set
              ∙ ap some e,
          registered,
        ),
    λ not_in not_out.
        register_event_at on_error c event cb q use_et io h
        ∙ ap (λ o. some (register_on ep on_error c event use_et q o io))
            (unsupported event cb (io.channels c) not_in not_out)
        ∙ register_none on_error c event q use_et io,
  )
