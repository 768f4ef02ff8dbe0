-- ===== src/Events/Manager/Listed.antt =====
-- koro/io_manager.cpp: `in_epoll_` of a channel and the interest list of its epoll instance agree, and
-- `registerEvent` and `unregisterEvent` keep it so.
use mathlib.Core.Option
use mathlib.Core.Option.{some-injective}
use koro.Prelude.{
  ℕ, ◌≡◌, refl, sym, ap, ◌∙◌, subst, true, false, none, some, Bool-cases, inl, inr, update,
  update_self,
}
use koro.Events.Bits.{epollin, epollout, has}
use koro.Events.Channel.{Channel}
use koro.Events.Poller.{Epoll, update_channel}
use koro.Events.Manager.{Io, ban_read, ban_write, unregister_on, unregister_event, store_updated}
use koro.Events.Manager.Updates.{Outcome, Updated, update_channel-Updated}
use koro.Events.Manager.Registration.{Registered}

-- What registration reads and neither call changes of the channel.
record SamePlace (old ch : Channel) : Type 0 where
  pub same_fd : ch.fd ≡ old.fd
  pub same_list : ch.in_epoll ≡ old.in_epoll

SamePlace-ban_read : (event : ℕ) (ch : Channel) → SamePlace ch (ban_read event ch)
unfolding ban_read
SamePlace-ban_read event ch = elim (Bool-cases (has epollin event)) [
  | inl e ↦ rw e (record { same_fd = refl; same_list = refl })
  | inr e ↦ rw e (record { same_fd = refl; same_list = refl })
]

SamePlace-ban_write : (event : ℕ) (ch : Channel) → SamePlace ch (ban_write event ch)
unfolding ban_write
SamePlace-ban_write event ch = elim (Bool-cases (has epollout event)) [
  | inl e ↦ rw e (record { same_fd = refl; same_list = refl })
  | inr e ↦ rw e (record { same_fd = refl; same_list = refl })
]

module _ {K : Type 0} (ep : Epoll K) where
  -- The channel is that of the descriptor, and says of epoll's interest list whether it is there.
  pub record Listed (fd : ℕ) (k : K) (ch : Channel) : Type 0 where
    pub own : ch.fd ≡ fd
    pub present : ch.in_epoll ≡ true → (ev : ℕ) × (ep.watched k fd ≡ some ev)
    pub missing : ch.in_epoll ≡ false → ep.watched k fd ≡ none

  Listed-same :
      {fd : ℕ} {k k' : K} {old ch : Channel}
      → Listed fd k old
      → SamePlace old ch
      → ep.watched k' ≡ ep.watched k
      → Listed fd k' ch
  Listed-same {fd} v same w = record {
    own = same.same_fd ∙ v.own;
    present = λ h. let (ev, e) = v.present (sym same.same_list ∙ h) in (ev, ap (λ f. f fd) w ∙ e);
    missing = λ h. ap (λ f. f fd) w ∙ v.missing (sym same.same_list ∙ h);
  }

  Listed-here :
      {fd ev : ℕ} {k : K} {ch : Channel}
      → ch.fd ≡ fd
      → ch.in_epoll ≡ true
      → ep.watched k fd ≡ some ev
      → Listed fd k ch
  Listed-here {ev = ev} own here w = record {
    own = own;
    present = λ h. (ev, w);
    missing = λ h. absurd (cc);
  }

  Listed-Outcome :
      {fd : ℕ} {k k' : K} {old ch : Channel}
      → Listed fd k old
      → ch.fd ≡ old.fd
      → Outcome ep k old k' ch
      → Listed fd k' ch
  Listed-Outcome {fd} {k} {k'} v same (inl (here, w)) =
      Listed-here (same ∙ v.own) here (ap (ep.watched k') (sym v.own) ∙ w)
  Listed-Outcome v same (inr (list, w, refused)) =
      Listed-same v (record { same_fd = same; same_list = list }) w

  Listed-Updated :
      {fd : ℕ} {k k' : K} {p ch : Channel} → Listed fd k p → Updated ep k p k' ch → Listed fd k' ch
  Listed-Updated {fd} {k} {k'} {p} v (inl (e, w)) =
      Listed-here (ap (λ (x : Channel). x.fd) e ∙ v.own) (ap (λ (x : Channel). x.in_epoll) e) (
        ap (λ f. f fd) w
        ∙ ap (λ g. update (ep.watched k) g (some p.events) fd) v.own
        ∙ update_self (ep.watched k) fd (some p.events))
  Listed-Updated v (inr (e, w, refused)) =
      Listed-same v
        (record {
          same_fd = ap (λ (x : Channel). x.fd) e;
          same_list = ap (λ (x : Channel). x.in_epoll) e;
        })
        w

  pub Registered-Listed :
      {q c event cb fd : ℕ} {before after : Io K}
      → Registered ep q c event cb before after
      → Listed fd (before.epoll q) (before.channels c)
      → Listed fd (after.epoll q) (after.channels c)
  Registered-Listed r v = Listed-Outcome v r.asks.same_fd r.outcome

  unregister_on-Listed :
      (c event q fd : ℕ) (io : Io K)
      → Listed fd (io.epoll q) (io.channels c)
      → Listed fd
          ((unregister_on ep c event q io).epoll q)
          ((unregister_on ep c event q io).channels c)
  unfolding unregister_on store_updated
  unregister_on-Listed c event q fd io v =
      let banned = ban_write event (ban_read event (io.channels c)) in
      let (k, ch) = update_channel ep (io.epoll q) banned in
      let read = SamePlace-ban_read event (io.channels c) in
      let written = SamePlace-ban_write event (ban_read event (io.channels c)) in
      let place : SamePlace (io.channels c) banned = record {
        same_fd = written.same_fd ∙ read.same_fd;
        same_list = written.same_list ∙ read.same_list;
      } in
      subst (λ x. Listed fd x (update io.channels c ch c)) (sym (update_self io.epoll q k))
        (subst (Listed fd k) (sym (update_self io.channels c ch)) (
          Listed-Updated (Listed-same v place refl)
            (update_channel-Updated ep (io.epoll q) banned)))

  pub unregister_event-Listed :
      (c event q fd : ℕ) (io after : Io K)
      → (io.channels c).task_queue ≡ some q
      → unregister_event ep c event io ≡ some after
      → Listed fd (io.epoll q) (io.channels c)
      → Listed fd (after.epoll q) (after.channels c)
  unfolding unregister_event
  unregister_event-Listed c event q fd io after queue e v =
      subst (λ (x : Io K). Listed fd (x.epoll q) (x.channels c))
        (some-injective _ _ (sym (ap (Option.map (λ q. unregister_on ep c event q io)) queue) ∙ e))
        (unregister_on-Listed c event q fd io v)
