-- ===== src/Events/Manager/Updates.antt =====
-- koro/io_manager.cpp: the steps of `registerEvent` on the channel, and `updateChannel` behind them.
use Prim.Native.Nat.{bit_or}
use koro.Prelude.{
  ℕ, ◌≡◌, refl, sym, ap, ◌∙◌, Bool, true, false, some, if◌then◌else◌, Bool-cases, ◌⊎◌, inl, inr,
  subst, update, update_self,
}
use koro.Events.Bits.{
  epollin, epollout, epollet, has, has_in, has_out, set_in, set_out, bit_in_et, bit_out_et,
}
use koro.Events.Channel.{Channel, callback_for}
use koro.Events.Poller.{Epoll, update_ctl, update_channel}
use koro.Events.Manager.{set_callback, add_events}

-- The two events that are supported.
abbrev pub IsEvent : ℕ → Type 0
IsEvent event = (event ≡ epollin) ⊎ (event ≡ epollout)

-- The channel has the callback and asks for the event; what else matters of it is as in `old`.
pub record Asks (event cb : ℕ) (old ch : Channel) : Type 0 where
  pub callback : callback_for event ch ≡ some (some cb)
  pub wanted : has event ch.events ≡ true
  pub queue : ch.task_queue ≡ old.task_queue
  pub same_fd : ch.fd ≡ old.fd
  pub same_mode : ch.user_non_block ≡ old.user_non_block

has_in_added :
    (use_et : Bool) (n : ℕ)
    → has epollin (if use_et then bit_or epollet (bit_or epollin n) else bit_or epollin n) ≡ true
has_in_added true n = has_in _ ∙ bit_in_et _ ∙ set_in n
has_in_added false n = has_in _ ∙ set_in n

has_out_added :
    (use_et : Bool) (n : ℕ)
    → has epollout (if use_et then bit_or epollet (bit_or epollout n) else bit_or epollout n) ≡ true
has_out_added true n = has_out _ ∙ bit_out_et _ ∙ set_out n
has_out_added false n = has_out _ ∙ set_out n

pub prepared :
    (on_error event cb : ℕ) (use_et : Bool) (old : Channel)
    → IsEvent event
    → (p : Channel) × (set_callback event cb old ≡ some p)
      × Asks event cb old (add_events on_error event use_et p)
      × ((add_events on_error event use_et p).in_epoll ≡ old.in_epoll)
unfolding set_callback add_events callback_for
prepared on_error event cb use_et old (inl e) = rw e (
  record old { read_callback = some cb },
  refl,
  record {
    callback = refl;
    wanted = has_in_added use_et old.events;
    queue = refl;
    same_fd = refl;
    same_mode = refl;
  },
  refl,
)
prepared on_error event cb use_et old (inr e) = rw e (
  record old { write_callback = some cb },
  refl,
  record {
    callback = refl;
    wanted = has_out_added use_et old.events;
    queue = refl;
    same_fd = refl;
    same_mode = refl;
  },
  refl,
)

callback_in_epoll :
    (event : ℕ) (ch : Channel)
    → callback_for event (record ch { in_epoll = true }) ≡ callback_for event ch
unfolding callback_for
callback_in_epoll event ch = refl

Asks-in_epoll :
    {event cb : ℕ} {old ch : Channel}
    → Asks event cb old ch
    → Asks event cb old (record ch { in_epoll = true })
Asks-in_epoll {event} {ch = ch} a = record {
  callback = callback_in_epoll event ch ∙ a.callback;
  wanted = a.wanted;
  queue = a.queue;
  same_fd = a.same_fd;
  same_mode = a.same_mode;
}

module _ {K : Type 0} (ep : Epoll K) where
  -- `epoll_ctl` has refused the channel: the change of its events, or the channel itself.
  pub record Refused (k : K) (here : Bool) (fd events : ℕ) : Type 0 where
    pub modify : here ≡ true → (ep.modify k fd events).1 ≡ false
    pub add : here ≡ false → (ep.add k fd events).1 ≡ false

  -- What `update` does for a channel: epoll watches it for its events, or has refused and is as before.
  abbrev pub Updated : K → Channel → K → Channel → Type 0
  Updated k ch k' ch' =
      (ch' ≡ record ch { in_epoll = true })
        × (ep.watched k' ≡ update (ep.watched k) ch.fd (some ch.events))
      ⊎ (ch' ≡ ch) × (ep.watched k' ≡ ep.watched k) × Refused k ch.in_epoll ch.fd ch.events

  pub update_channel-Updated :
      (k : K) (ch : Channel) → Updated k ch (update_channel ep k ch).0 (update_channel ep k ch).1
  unfolding update_channel update_ctl
  update_channel-Updated k ch = elim (Bool-cases ch.in_epoll) [
    | inl here ↦ elim (Bool-cases (ep.modify k ch.fd ch.events).1) [
      | inl ok ↦ inl (
        subst
            (λ b.
              (if b
                then ch
                else if (update_ctl ep k ch).1
                then record ch { in_epoll = true }
                else ch)
              ≡ record ch { in_epoll = true })
            (sym here) (ap (λ b. record ch { in_epoll = b }) here),
        rw here (ep.modify_ok k ch.fd ch.events ok),
      )
      | inr bad ↦ inr (
        rw here refl,
        rw here (ep.modify_failed k ch.fd ch.events bad),
        record { modify = λ _. bad; add = λ away. absurd (cc) },
      )
    ]
    | inr away ↦ elim (Bool-cases (ep.add k ch.fd ch.events).1) [
      | inl ok ↦ inl (rw (away, ok) refl, rw away (ep.add_ok k ch.fd ch.events ok))
      | inr bad ↦ inr (
        rw (away, bad) refl,
        rw away (ep.add_failed k ch.fd ch.events bad),
        record { modify = λ here. absurd (cc); add = λ _. bad },
      )
    ]
  ]

  -- epoll watches the channel for all its events, or has refused to and watches what it did before.
  abbrev pub Outcome : K → Channel → K → Channel → Type 0
  Outcome k old k' ch =
      (ch.in_epoll ≡ true) × (ep.watched k' old.fd ≡ some ch.events)
      ⊎ (ch.in_epoll ≡ old.in_epoll)
        × (ep.watched k' ≡ ep.watched k)
        × Refused k old.in_epoll old.fd ch.events

  pub Updated-Asks :
      {event cb : ℕ} {old p : Channel} {k k' : K} {ch : Channel}
      → Asks event cb old p
      → p.in_epoll ≡ old.in_epoll
      → Updated k p k' ch
      → Asks event cb old ch × Outcome k old k' ch
  Updated-Asks {event} {cb} {old} {p} {k} a same (inl (e, w)) = rw e (
    Asks-in_epoll a,
    inl (refl, rw (w, a.same_fd) (update_self (ep.watched k) old.fd (some p.events))),
  )
  Updated-Asks {event} {cb} {old} {p} {k} a same (inr (e, w, refused)) = rw e (
    a,
    inr (
      same,
      w,
      subst (λ b. Refused k b old.fd p.events) same
          (subst (λ fd. Refused k p.in_epoll fd p.events) a.same_fd refused),
    ),
  )
