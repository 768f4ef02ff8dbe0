-- ===== src/Loop/Teardown/Dismantling.antt =====
-- koro/task.cpp and koro/timer_manager.cpp: the destructors leave nothing of a task queue behind.
use koro.Prelude.{
  ℕ, ◌≡◌, ◌≢◌, sym, ap, ◌∙◌, Bool, true, false, Option, none, some, List, [], ◌∷◌, ◌>>=◌,
  if◌then◌else◌, Bool-cases, inl, inr, update, update_self, update_ne,
}
use koro.Events.Bits.{epollin}
use koro.Events.Channel.{Channel}
use koro.Events.Poller.{Epoll, update_channel, update_ctl}
use koro.Events.Poller
use koro.Loop.Startup.{TaskQueue, Resources, Accepts, on_init, on_init-IsReady, disable_all}
use koro.Loop.Teardown.{remove, destroy_timer_manager, destroy_task_queue}

module _ {K : Type 0} (ep : Epoll K) where
  -- epoll_ctl(2): a descriptor that the instance watches can be deleted.
  abbrev pub Deletes : Type 0
  Deletes = (k : K) (fd : ℕ) → ep.watched k fd ≢ none → (ep.delete k fd).1 ≡ true

  -- `remove` of a channel that epoll knows, on what `removeChannel` has answered.
  removed : K × Bool → Channel → Bool → Option (K × Channel)
  removed (k', ok) ch known = do
    (k'', ch') ←
        if known then some (k', if ok then record ch { in_epoll = false } else ch) else none
    some (k'', record ch' { task_queue = none })

  remove-deletes :
      (k : K) (ch : Channel)
      → ch.in_epoll ≡ true
      → (gone : Channel) × (remove ep k ch ≡ some ((ep.delete k ch.fd).0, gone))
  unfolding remove removed Poller.remove_channel
  remove-deletes k ch h =
      let (k', ok) = ep.delete k ch.fd in
      let left : Channel = if ok then record ch { in_epoll = false } else ch in
      (record (left) { task_queue = none }, ap (removed (ep.delete k ch.fd) ch) h)

  disable_all-modifies :
      (k : K) (ch : Channel)
      → ch.in_epoll ≡ true
      → disable_all ep k ch ≡ ((ep.modify k ch.fd 0).0, record ch { events = 0 })
  unfolding disable_all update_channel update_ctl
  disable_all-modifies k ch h =
      let off = record ch { events = 0 } in
      ap
        (λ b.
          let (k', ok) = if b then ep.modify k ch.fd 0 else ep.add k ch.fd 0 in
          let r : K × Channel =
            (k', if b then off else if ok then record (off) { in_epoll = true } else off) in
          r)
        h

  destroy_timer_manager-deletes :
      (k : K) (ch : Channel)
      → ch.in_epoll ≡ true
      → destroy_timer_manager ep k ch ≡ some ((ep.delete (ep.modify k ch.fd 0).0 ch.fd).0, ch.fd)
  unfolding destroy_timer_manager
  destroy_timer_manager-deletes k ch h =
      let (gone, e) = remove-deletes (ep.modify k ch.fd 0).0 (record ch { events = 0 }) h in
      ap (λ r. remove ep r.0 r.1 >>= λ s. let t : Option (K × ℕ) = some (s.0, ch.fd) in t)
        (disable_all-modifies k ch h)
      ∙ ap (λ o. o >>= λ s. let t : Option (K × ℕ) = some (s.0, ch.fd) in t) e

  -- The instance behind the destructors.
  pub left_behind : TaskQueue K → K
  left_behind tq =
      let k = (ep.delete tq.epoller tq.wakeup_ch.fd).0 in
      (ep.delete (ep.modify k tq.timer_ch.fd 0).0 tq.timer_ch.fd).0

  destroy_task_queue-left_behind :
      (tq : TaskQueue K)
      → tq.wakeup_ch.in_epoll ≡ true
      → tq.timer_ch.in_epoll ≡ true
      → destroy_task_queue ep tq ≡ some (left_behind tq, tq.wakeup_ch.fd ∷ tq.timer_ch.fd ∷ [])
  unfolding destroy_task_queue left_behind
  destroy_task_queue-left_behind tq w t =
      let (gone, e) = remove-deletes tq.epoller tq.wakeup_ch w in
      let fds = λ (fd : ℕ). tq.wakeup_ch.fd ∷ fd ∷ [] in
      ap
        (λ o. o >>= λ r. destroy_timer_manager ep r.0 tq.timer_ch >>= λ s.
          let u : Option (K × List ℕ) = some (s.0, fds s.1) in u)
        e
      ∙ ap (λ o. o >>= λ s. let u : Option (K × List ℕ) = some (s.0, fds s.1) in u)
          (destroy_timer_manager-deletes (ep.delete tq.epoller tq.wakeup_ch.fd).0 tq.timer_ch t)

  -- Interest in the timers' descriptor changes to none of the events, or stays.
  modify-watched :
      (k : K) (fd other : ℕ)
      → other ≢ fd
      → ep.watched (ep.modify k fd 0).0 other ≡ ep.watched k other
  modify-watched k fd other ne = elim (Bool-cases (ep.modify k fd 0).1) [
    | inl ok ↦ ap (λ w. w other) (ep.modify_ok k fd 0 ok) ∙ update_ne (ep.watched k) (some 0) ne
    | inr failed ↦ ap (λ w. w other) (ep.modify_failed k fd 0 failed)
  ]

  modify-watches :
      (k : K) (fd : ℕ) → ep.watched k fd ≢ none → ep.watched (ep.modify k fd 0).0 fd ≢ none
  modify-watches k fd h e = elim (Bool-cases (ep.modify k fd 0).1) [
    | inl ok ↦
        let at : ep.watched (ep.modify k fd 0).0 fd ≡ some 0 =
          ap (λ w. w fd) (ep.modify_ok k fd 0 ok) ∙ update_self (ep.watched k) fd (some 0) in
        cc
    | inr failed ↦ h (sym (ap (λ w. w fd) (ep.modify_failed k fd 0 failed)) ∙ e)
  ]

  -- Nothing of the queue is left in the instance, and other descriptors are not touched.
  pub record IsDismantled (k : K) (tq : TaskQueue K) : Type 0 where
    pub wakeup_gone : ep.watched k tq.wakeup_ch.fd ≡ none
    pub timer_gone : ep.watched k tq.timer_ch.fd ≡ none
    pub others :
        (fd : ℕ)
        → fd ≢ tq.wakeup_ch.fd
        → fd ≢ tq.timer_ch.fd
        → ep.watched k fd ≡ ep.watched tq.epoller fd

  left_behind-IsDismantled :
      (tq : TaskQueue K)
      → Deletes
      → tq.wakeup_ch.fd ≢ tq.timer_ch.fd
      → ep.watched tq.epoller tq.wakeup_ch.fd ≢ none
      → ep.watched tq.epoller tq.timer_ch.fd ≢ none
      → IsDismantled (left_behind tq) tq
  unfolding left_behind
  left_behind-IsDismantled tq deletes apart w t =
      let e = tq.wakeup_ch.fd in
      let f = tq.timer_ch.fd in
      let k1 = (ep.delete tq.epoller e).0 in
      let k2 = (ep.modify k1 f 0).0 in
      let first = ep.delete_ok tq.epoller e (deletes tq.epoller e w) in
      let kept : ep.watched k1 f ≡ ep.watched tq.epoller f =
        ap (λ o. o f) first ∙ update_ne (ep.watched tq.epoller) none (λ q. apart (sym q)) in
      let still : ep.watched k1 f ≢ none = λ q. t (sym kept ∙ q) in
      let second = ep.delete_ok k2 f (deletes k2 f (modify-watches k1 f still)) in
      record {
        wakeup_gone =
            ap (λ o. o e) second
            ∙ update_ne (ep.watched k2) none apart
            ∙ modify-watched k1 f e apart
            ∙ ap (λ o. o e) first
            ∙ update_self (ep.watched tq.epoller) e none;
        timer_gone = ap (λ o. o f) second ∙ update_self (ep.watched k2) f none;
        others = λ fd not_e not_f.
            ap (λ o. o fd) second
            ∙ update_ne (ep.watched k2) none not_f
            ∙ modify-watched k1 f fd not_f
            ∙ ap (λ o. o fd) first
            ∙ update_ne (ep.watched tq.epoller) none not_e;
      }

  -- A task queue is dismantled as it was set up: behind `onInit`, if the kernel has taken its two
  -- descriptors and they differ, `~TaskQueue` and `~TimerManager` fail no assertion, close these two, and
  -- leave the epoll instance watching neither of them, and any other descriptor as before `onInit`.
  pub destroy_task_queue-on_init :
      (r : Resources K) (q : ℕ)
      → Deletes
      → Accepts ep r
      → r.event_fd q ≢ r.timer_fd q
      → (k : K) × (destroy_task_queue ep (on_init ep r q)
          ≡ some (k, r.event_fd q ∷ r.timer_fd q ∷ []))
        × (ep.watched k (r.event_fd q) ≡ none)
        × (ep.watched k (r.timer_fd q) ≡ none)
        × ((fd : ℕ)
            → fd ≢ r.event_fd q
            → fd ≢ r.timer_fd q
            → ep.watched k fd ≡ ep.watched (r.instance_of q) fd)
  destroy_task_queue-on_init r q deletes a apart =
      let tq = on_init ep r q in
      let e = r.event_fd q in
      let f = r.timer_fd q in
      let ready = on_init-IsReady ep r q a in
      let differ : tq.wakeup_ch.fd ≢ tq.timer_ch.fd =
        λ same. apart (sym ready.wakeup_fd ∙ same ∙ ready.timer_fd) in
      let first = update (ep.watched (r.instance_of q)) e (some epollin) in
      let at_e : ep.watched tq.epoller tq.wakeup_ch.fd ≡ some epollin =
        ap (λ fd. ep.watched tq.epoller fd) ready.wakeup_fd
        ∙ ap (λ w. w e) ready.watched
        ∙ update_ne first (some epollin) apart
        ∙ update_self (ep.watched (r.instance_of q)) e (some epollin) in
      let at_f : ep.watched tq.epoller tq.timer_ch.fd ≡ some epollin =
        ap (λ fd. ep.watched tq.epoller fd) ready.timer_fd
        ∙ ap (λ w. w f) ready.watched
        ∙ update_self first f (some epollin) in
      let gone = left_behind-IsDismantled tq deletes differ (λ q. cc) (λ q. cc) in
      (
        left_behind tq,
        destroy_task_queue-left_behind tq ready.wakeup_in_epoll ready.timer_in_epoll
            ∙ ap (λ fd. some (left_behind tq, fd ∷ tq.timer_ch.fd ∷ [])) ready.wakeup_fd
            ∙ ap (λ fd. some (left_behind tq, e ∷ fd ∷ [])) ready.timer_fd,
        ap (λ fd. ep.watched (left_behind tq) fd) (sym ready.wakeup_fd) ∙ gone.wakeup_gone,
        ap (λ fd. ep.watched (left_behind tq) fd) (sym ready.timer_fd) ∙ gone.timer_gone,
        λ fd not_e not_f.
            gone.others fd (λ same. not_e (same ∙ ready.wakeup_fd))
              (λ same. not_f (same ∙ ready.timer_fd))
            ∙ ap (λ w. w fd) ready.watched
            ∙ update_ne first (some epollin) not_f
            ∙ update_ne (ep.watched (r.instance_of q)) (some epollin) not_e,
      )
