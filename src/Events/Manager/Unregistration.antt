-- ===== src/Events/Manager/Unregistration.antt =====
-- koro/io_manager.cpp: `registerEvent` followed by `unregisterEvent`, as `do_io` of koro/hook.cpp calls
-- them around its wait.
use mathlib.Core.Option
use koro.Prelude.{
  ℕ, ◌+◌, ◌-◌, ◌%◌, ◌^◌, ◌<◌, ◌≡◌, refl, sym, ap, ◌∙◌, Bool, true, false, none, some, arith, inl,
  inr, subst, Bool-cases, update_self,
}
use koro.Events.Bits.{epollin, epollout, has, has_in, has_out, clear_in, clear_out}
use koro.Events.Channel.{Channel, callback_for}
use koro.Events.Poller.{Epoll, update_channel}
use koro.Events.Manager.{
  Io, register_event, unregister_on, unregister_event, ban_read, ban_write, ban_event_count,
  store_updated,
}
use koro.Events.Manager.Updates.{IsEvent, Updated, update_channel-Updated}
use koro.Events.Manager.Registration.{register_event-Registered}

-- No callback, and the event is not asked for.
pub record IsQuiet (event : ℕ) (ch : Channel) : Type 0 where
  pub callback : callback_for event ch ≡ some none
  pub unwanted : has event ch.events ≡ false

IsQuiet-ban :
    (event : ℕ) (ch : Channel) → IsEvent event → IsQuiet event (ban_write event (ban_read event ch))
unfolding ban_write ban_read callback_for has
IsQuiet-ban event ch (inl e) =
    rw e (record { callback = refl; unwanted = has_in _ ∙ ground (arith, clear_in ch.events) })
IsQuiet-ban event ch (inr e) =
    rw e (record { callback = refl; unwanted = has_out _ ∙ ground (arith, clear_out ch.events) })

-- What a fiber relies on while it waits for an event of a channel: the channel is not closed, and stays
-- in blocking mode for the program.
pub record IsOpen (q : ℕ) (ch : Channel) : Type 0 where
  pub queue : ch.task_queue ≡ some q
  pub blocking : ch.user_non_block ≡ false

IsOpen-ban_read : (event q : ℕ) (ch : Channel) → IsOpen q ch → IsOpen q (ban_read event ch)
unfolding ban_read
IsOpen-ban_read event q ch v = elim (Bool-cases (has epollin event)) [
  | inl e ↦ rw e (record { queue = v.queue; blocking = v.blocking })
  | inr e ↦ rw e v
]

IsOpen-ban_write : (event q : ℕ) (ch : Channel) → IsOpen q ch → IsOpen q (ban_write event ch)
unfolding ban_write
IsOpen-ban_write event q ch v = elim (Bool-cases (has epollout event)) [
  | inl e ↦ rw e (record { queue = v.queue; blocking = v.blocking })
  | inr e ↦ rw e v
]

ban_count_one : (event : ℕ) → IsEvent event → ban_event_count event ≡ 1
unfolding ban_event_count has
ban_count_one event (inl e) = rw e refl
ban_count_one event (inr e) = rw e refl

IsQuiet-in_epoll :
    (event : ℕ) (ch : Channel) → IsQuiet event ch → IsQuiet event (record ch { in_epoll = true })
unfolding callback_for
IsQuiet-in_epoll event ch v = record { callback = v.callback; unwanted = v.unwanted }

module _ {K : Type 0} (ep : Epoll K) where
  IsQuiet-update :
      {event : ℕ} {k k' : K} {p ch : Channel}
      → IsQuiet event p
      → Updated ep k p k' ch
      → IsQuiet event ch
  IsQuiet-update {event} {p = p} v (inl (e, w)) = rw e (IsQuiet-in_epoll event p v)
  IsQuiet-update v (inr (e, w, refused)) = rw e v

  IsOpen-update :
      {q : ℕ} {k k' : K} {p ch : Channel} → IsOpen q p → Updated ep k p k' ch → IsOpen q ch
  IsOpen-update v (inl (e, w)) = rw e (record { queue = v.queue; blocking = v.blocking })
  IsOpen-update v (inr (e, w, refused)) = rw e v

  unregister_on-IsOpen :
      (c event q p : ℕ) (io : Io K)
      → IsOpen p (io.channels c)
      → IsOpen p ((unregister_on ep c event q io).channels c)
  unfolding unregister_on store_updated
  unregister_on-IsOpen c event q p io v =
      let banned = ban_write event (ban_read event (io.channels c)) in
      let (k, ch) = update_channel ep (io.epoll q) banned in
      subst (IsOpen p) (sym (update_self io.channels c ch)) (
        IsOpen-update (IsOpen-ban_write event p _ (IsOpen-ban_read event p (io.channels c) v))
          (update_channel-Updated ep (io.epoll q) banned))

  unregister_on_lem :
      (c event q : ℕ) (io : Io K)
      → IsEvent event
      → ((unregister_on ep c event q io).pending ≡ (io.pending + 2 ^ 64 - 1) % 2 ^ 64)
        × IsQuiet event ((unregister_on ep c event q io).channels c)
  unfolding unregister_on store_updated
  unregister_on_lem c event q io is =
      let banned = ban_write event (ban_read event (io.channels c)) in
      let (k, ch) = update_channel ep (io.epoll q) banned in
      (
        rw (ban_count_one event is) refl,
        subst (IsQuiet event) (sym (update_self io.channels c ch)) (
            IsQuiet-update (IsQuiet-ban event (io.channels c) is)
              (update_channel-Updated ep (io.epoll q) banned)),
      )

  -- `unregisterEvent` of an open channel.
  pub unregister_event-IsOpen :
      (c event q : ℕ) (io : Io K)
      → IsEvent event
      → IsOpen q (io.channels c)
      → (after : Io K) × (unregister_event ep c event io ≡ some after)
        × (after.pending ≡ (io.pending + 2 ^ 64 - 1) % 2 ^ 64)
        × IsOpen q (after.channels c)
  unfolding unregister_event
  unregister_event-IsOpen c event q io is v = (
    unregister_on ep c event q io,
    ap (Option.map (λ q. unregister_on ep c event q io)) v.queue,
    (unregister_on_lem c event q io is).0,
    unregister_on-IsOpen c event q q io v,
  )

  -- `registerEvent` of an open channel.
  pub register_event-IsOpen :
      (on_error c event cb q : ℕ) (use_et : Bool) (io : Io K)
      → IsEvent event
      → IsOpen q (io.channels c)
      → (after : Io K) × (register_event ep on_error c event cb use_et io ≡ some (after, true))
        × (after.pending ≡ (io.pending + 1) % 2 ^ 64)
        × IsOpen q (after.channels c)
  register_event-IsOpen on_error c event cb q use_et io is v =
      let (after, e, registered) =
        (register_event-Registered ep on_error c event cb q use_et io v.queue).0 is in
      (
        after,
        e,
        registered.counted,
        record {
          queue = registered.asks.queue ∙ v.queue;
          blocking = registered.asks.same_mode ∙ v.blocking;
        },
      )

  -- For reading and for writing, on a channel that has a task queue: `registerEvent` and then
  -- `unregisterEvent` both succeed and leave the count of pending events as it was, also where the kernel
  -- refuses a call; the callback is gone and the channel no longer asks for the event.
  pub register_then_unregister :
      (on_error c event cb q : ℕ) (use_et : Bool) (io : Io K)
      → (io.channels c).task_queue ≡ some q
      → IsEvent event
      → io.pending < 2 ^ 64
      → (between after : Io K) × (register_event ep on_error c event cb use_et io
          ≡ some (between, true))
        × (unregister_event ep c event between ≡ some after)
        × (after.pending ≡ io.pending)
        × IsQuiet event (after.channels c)
  unfolding unregister_event
  register_then_unregister on_error c event cb q use_et io h is small =
      let (between, e, registered) =
        (register_event-Registered ep on_error c event cb q use_et io h).0 is in
      let (pending, quiet) = unregister_on_lem c event q between is in
      (
        between,
        unregister_on ep c event q between,
        e,
        ap (Option.map (λ q. unregister_on ep c event q between)) (registered.asks.queue ∙ h),
        pending ∙ ap (λ n. (n + 2 ^ 64 - 1) % 2 ^ 64) registered.counted ∙ omega arith,
        quiet,
      )
