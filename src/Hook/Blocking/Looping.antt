-- ===== src/Hook/Blocking/Looping.antt =====
-- koro/hook.cpp: the loop of `do_io` against a system call that blocks.
use koro.Prelude.{
  ℕ, zero, suc, ◌+◌, ◌-◌, ◌%◌, ◌^◌, ◌<◌, ◌≡◌, refl, sym, ap, subst, ◌∙◌, true, false, Option, none,
  some, Bool-cases, inl, inr, arith, ◌>>=◌, if◌then◌else◌,
}
use koro.Events.Bits.{has}
use koro.Events.Channel.{Channel, callback_for}
use koro.Events.Poller.{Epoll}
use koro.Events.Table.{find}
use koro.Events.Manager.{Io}
use koro.Events.Manager.Updates.{IsEvent, Refused}
use koro.Events.Manager.Registration.{Registered, register_event-Registered}
use koro.Events.Manager.Unregistration.{IsOpen, unregister_event-IsOpen}
use koro.Events.Manager.Listed.{Listed, Registered-Listed, unregister_event-Listed}
use koro.Events.Manager.Stable.{Stable, register_event-Stable, unregister_event-Stable}
use koro.Hook.Blocking.{
  Answer, World, Call, would_block, resumed, wait_for_event, answered, round, io_loop, held,
}

-- The blocking call: it is tried again, each time after a wait, until it gives an answer. `none` is the
-- end of the fuel.
unfoldable pub blocking : {S : Type 0} → (S → S × Answer) → (S → S) → ℕ → S → Option (S × Answer)
blocking call wait zero s = none
blocking call wait (suc n) s =
    let (s', r) = call s in
    elim (would_block r) [ true ↦ blocking call wait n (wait s') | false ↦ some (s', r) ]

-- The table has the channel at `c` for the descriptor, nobody has closed it, it says rightly whether epoll
-- has the descriptor in its list, and the descriptor has been put into non-blocking mode for it.
pub record IsSettled {K : Type 0} (ep : Epoll K) (fd c q : ℕ) (io : Io K) : Type 0 where
  pub entry : find io.chs fd ≡ some c
  pub is_open : IsOpen q (io.channels c)
  pub listed : Listed ep fd (io.epoll q) (io.channels c)
  pub marked : (io.channels c).sys_non_block ≡ true

IsSettled-Stable :
    {K : Type 0} (ep : Epoll K) (fd c q : ℕ) (before after : Io K)
    → IsSettled ep fd c q before
    → IsOpen q (after.channels c)
    → Listed ep fd (after.epoll q) (after.channels c)
    → Stable c before after
    → IsSettled ep fd c q after
IsSettled-Stable ep fd c q before after v u l st = record {
  entry = ap (λ chs. find chs fd) st.same_chs ∙ v.entry;
  is_open = u;
  listed = l;
  marked = st.same_mode ∙ v.marked;
}

module _ {S : Type 0} {K : Type 0} (ep : Epoll K) (op : Call S K) where
  -- What `do_io` relies on. epoll takes the descriptor when it is not in its list, and changes its events
  -- when it is. A fiber that waits, with its callback in the channel, while epoll watches the descriptor
  -- for the event is resumed. The fibers that run while it waits do not close its channel, and take
  -- back the events that they register.
  pub record Harmless (fd : ℕ) : Type 0 where
    pub event : IsEvent op.event
    pub takes_new : (k : K) (ev : ℕ) → ep.watched k fd ≡ none → (ep.add k fd ev).1 ≡ true
    pub takes_change :
        (k : K) (ev old : ℕ) → ep.watched k fd ≡ some old → (ep.modify k fd ev).1 ≡ true
    pub resumes :
        (c q ev : ℕ) (s : S) (io : Io K)
        → IsSettled ep fd c q io
        → callback_for op.event (io.channels c) ≡ some (some op.on_event)
        → has op.event ev ≡ true
        → ep.watched (io.epoll q) fd ≡ some ev
        → op.ends s io ≡ true
    pub keeps_settled :
        (c q : ℕ) (s : S) (io : Io K)
        → IsSettled ep fd c q io
        → IsSettled ep fd c q (op.others s io)
    pub keeps_count : (s : S) (io : Io K) → (op.others s io).pending ≡ io.pending

  -- The call returns what the blocking one returns, the count of pending events is `n`, and the channel at
  -- `c` is as it should be for the next call.
  abbrev pub Agrees : Option (S × Answer) → Option (World S K × Answer) → ℕ → ℕ → ℕ → ℕ → Type 0
  Agrees none o n fd c q = o ≡ none
  Agrees (some (s, r)) o n fd c q =
      (w : World S K) × (o ≡ some (w, r))
      × (w.sys ≡ s)
      × (w.io.pending ≡ n)
      × IsSettled ep fd c q w.io

  -- epoll refuses no channel that says rightly whether it is in its list.
  never_refuses :
      {fd : ℕ} {k : K} {ch : Channel} {events : ℕ}
      → Harmless fd
      → Listed ep fd k ch
      → Refused ep k ch.in_epoll ch.fd events
      → ⊥
  never_refuses {fd} {k} {ch} {events} h l refused = elim (Bool-cases ch.in_epoll) [
    | inl here ↦
        let (old, w) = l.present here in
        let bad : (ep.modify k fd events).1 ≡ false =
          ap (λ f. (ep.modify k f events).1) (sym l.own) ∙ refused.modify here in
        absurd (cc (h.takes_change k events old w))
    | inr away ↦
        let bad : (ep.add k fd events).1 ≡ false =
          ap (λ f. (ep.add k f events).1) (sym l.own) ∙ refused.add away in
        absurd (cc (h.takes_new k events (l.missing away)))
  ]

  -- A registered channel is watched, for the event too, so that the hold ends.
  hold_ends :
      (fd c q : ℕ) (s : S) (before after : Io K)
      → Harmless fd
      → Listed ep fd (before.epoll q) (before.channels c)
      → Registered ep q c op.event op.on_event before after
      → IsSettled ep fd c q after
      → op.ends s after ≡ true
  hold_ends fd c q s before after h l r v = elim r.outcome [
    | inl (here, w) ↦
        h.resumes c q (after.channels c).events s after v r.asks.callback r.asks.wanted
          (ap (ep.watched (after.epoll q)) (sym l.own) ∙ w)
    | inr (list, w, refused) ↦ absurd (never_refuses h l refused)
  ]

  wait_for_event_lem :
      (fd c q : ℕ) (r : Answer) (w : World S K)
      → Harmless fd
      → IsSettled ep fd c q w.io
      → w.io.pending < 2 ^ 64
      → (io : Io K) × (wait_for_event ep op c r w
          ≡ some (record w { sys = op.wait w.sys; io = io }, none))
        × (io.pending ≡ w.io.pending)
        × IsSettled ep fd c q io
  unfolding wait_for_event held resumed
  wait_for_event_lem fd c q r w h v small =
      let (between, e, registered) =
        (register_event-Registered ep op.on_error c op.event op.on_event q true w.io
            v.is_open.queue).0
          h.event in
      let waiting =
        IsSettled-Stable ep fd c q w.io between v
          (record {
            queue = registered.asks.queue ∙ v.is_open.queue;
            blocking = registered.asks.same_mode ∙ v.is_open.blocking;
          })
          (Registered-Listed ep registered v.listed)
          (register_event-Stable ep op.on_error c op.event op.on_event true w.io between true e) in
      let ends = hold_ends fd c q w.sys w.io between h v.listed registered waiting in
      let kept = h.keeps_settled c q w.sys between waiting in
      let (after, e', n', u') =
        unregister_event-IsOpen ep c op.event q (op.others w.sys between) h.event kept.is_open in
      (
        after,
        rw (e, ◌>>=◌, ends, e') refl,
        n'
            ∙ ap (λ k. (k + 2 ^ 64 - 1) % 2 ^ 64) (h.keeps_count w.sys between ∙ registered.counted)
            ∙ omega arith,
        IsSettled-Stable ep fd c q (op.others w.sys between) after kept u'
            (unregister_event-Listed ep c op.event q fd (op.others w.sys between) after
              kept.is_open.queue e' kept.listed)
            (unregister_event-Stable ep c op.event (op.others w.sys between) after e'),
      )

  answered_lem :
      (c q : ℕ) (r : Answer) (w : World S K)
      → IsOpen q (w.io.channels c)
      → answered ep op c r w
        ≡ (if would_block r then wait_for_event ep op c r w else some (w, some r))
  unfolding answered
  answered_lem c q r w v = elim (Bool-cases (would_block r)) [
    | inl e ↦ rw (e, v.blocking) refl
    | inr e ↦ rw e refl
  ]

  pub io_loop-Agrees :
      (fuel fd c q : ℕ) (w : World S K)
      → Harmless fd
      → IsSettled ep fd c q w.io
      → w.io.pending < 2 ^ 64
      → Agrees (blocking op.call op.wait fuel w.sys) (io_loop ep op fuel c w) w.io.pending fd c q
  unfolding blocking io_loop round
  io_loop-Agrees zero fd c q w h v small = refl
  io_loop-Agrees (suc fuel) fd c q w h v small =
      let (s, r) = op.call w.sys in
      let called : World S K = record w { sys = s } in
      elim (Bool-cases (would_block r)) [
        | inl e ↦
            let (io, waited, n, u) = wait_for_event_lem fd c q r called h v small in
            let again : World S K = record w { sys = op.wait s; io = io } in
            let reference = blocking op.call op.wait fuel (op.wait s) in
            rw (blocking, answered_lem c q r called v.is_open, e, waited, ◌>>=◌)
              (subst (λ m. Agrees reference (io_loop ep op fuel c again) m fd c q) n
                (io_loop-Agrees fuel fd c q again h u (omega (arith, n))))
        | inr e ↦
            rw (blocking, answered_lem c q r called v.is_open, e, ◌>>=◌)
              (called, refl, refl, refl, v)
      ]
