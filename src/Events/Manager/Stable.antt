-- ===== src/Events/Manager/Stable.antt =====
-- koro/io_manager.cpp: what `registerEvent` and `unregisterEvent` leave alone.
use mathlib.Core.Option
use koro.Prelude.{
  arith, subst, ℕ, ◌≡◌, refl, sym, ap, ◌∙◌, Bool, Option, none, some, Bool-cases, Option-cases, inl,
  inr, update_self,
}
use mathlib.Core.Option.{some-injective}
use koro.Events.Bits.{epollin, epollout, has}
use koro.Events.Channel.{Channel}
use koro.Events.Poller.{Epoll, update_channel}
use koro.Events.Manager.{
  Io, set_callback, add_events, store_updated, register_on, register_event, ban_read, ban_write,
  unregister_on, unregister_event,
}
use koro.Events.Manager.Updates.{Updated, update_channel-Updated}

-- The table is the same, and so is the mode that the system gave the descriptor of the channel at `c`.
pub record Stable {K : Type 0} (c : ℕ) (before after : Io K) : Type 0 where
  pub same_chs : after.chs ≡ before.chs
  pub same_mode : (after.channels c).sys_non_block ≡ (before.channels c).sys_non_block

mode-set_callback :
    (event cb : ℕ) (ch p : Channel)
    → set_callback event cb ch ≡ some p
    → p.sys_non_block ≡ ch.sys_non_block
unfolding set_callback
mode-set_callback event cb ch p h = ground arith

mode-ban_read : (event : ℕ) (ch : Channel) → (ban_read event ch).sys_non_block ≡ ch.sys_non_block
unfolding ban_read
mode-ban_read event ch = elim (Bool-cases (has epollin event)) [
  | inl e ↦ rw e refl
  | inr e ↦ rw e refl
]

mode-ban_write : (event : ℕ) (ch : Channel) → (ban_write event ch).sys_non_block ≡ ch.sys_non_block
unfolding ban_write
mode-ban_write event ch = elim (Bool-cases (has epollout event)) [
  | inl e ↦ rw e refl
  | inr e ↦ rw e refl
]

module _ {K : Type 0} (ep : Epoll K) where
  mode-Updated :
      {k k' : K} {p ch : Channel} → Updated ep k p k' ch → ch.sys_non_block ≡ p.sys_non_block
  mode-Updated (inl (e, w)) = ap (λ (ch : Channel). ch.sys_non_block) e
  mode-Updated (inr (e, w, refused)) = ap (λ (ch : Channel). ch.sys_non_block) e

  store_updated-Stable :
      (q c : ℕ) (ch : Channel) (io : Io K)
      → ch.sys_non_block ≡ (io.channels c).sys_non_block
      → Stable c io (store_updated ep q c ch io)
  unfolding store_updated
  store_updated-Stable q c ch io h = record {
    same_chs = refl;
    same_mode =
        ap (λ (x : Channel). x.sys_non_block)
          (update_self io.channels c (update_channel ep (io.epoll q) ch).1)
        ∙ mode-Updated (update_channel-Updated ep (io.epoll q) ch)
        ∙ h;
  }

  register_on-Stable :
      (on_error c event q : ℕ) (use_et : Bool) (o : Option Channel) (io : Io K)
      → ((p : Channel) → o ≡ some p → p.sys_non_block ≡ (io.channels c).sys_non_block)
      → Stable c io (register_on ep on_error c event use_et q o io).0
  unfolding register_on add_events
  register_on-Stable on_error c event q use_et none io h = record {
    same_chs = refl;
    same_mode = refl;
  }
  register_on-Stable on_error c event q use_et (some p) io h =
      let st = store_updated-Stable q c (add_events on_error event use_et p) io (h p refl) in
      record { same_chs = st.same_chs; same_mode = st.same_mode }

  unregister_on-Stable : (c event q : ℕ) (io : Io K) → Stable c io (unregister_on ep c event q io)
  unfolding unregister_on
  unregister_on-Stable c event q io =
      let st = store_updated-Stable q c (ban_write event (ban_read event (io.channels c))) io (
        mode-ban_write event (ban_read event (io.channels c))
        ∙ mode-ban_read event (io.channels c)) in
      record { same_chs = st.same_chs; same_mode = st.same_mode }

  pub register_event-Stable :
      (on_error c event cb : ℕ) (use_et : Bool) (io after : Io K) (ok : Bool)
      → register_event ep on_error c event cb use_et io ≡ some (after, ok)
      → Stable c io after
  unfolding register_event
  register_event-Stable on_error c event cb use_et io after ok e =
      let on = λ (q : ℕ).
        register_on ep on_error c event use_et q (set_callback event cb (io.channels c)) io in
      elim (Option-cases (io.channels c).task_queue) [
        | inl gone ↦ absurd (cc (ap (Option.map on) gone))
        | inr (q, queue) ↦
            subst (λ (r : Io K × Bool). Stable c io r.0)
              (some-injective _ _ (sym (ap (Option.map on) queue) ∙ e))
              (register_on-Stable on_error c event q use_et _ io
                (mode-set_callback event cb (io.channels c)))
      ]

  pub unregister_event-Stable :
      (c event : ℕ) (io after : Io K)
      → unregister_event ep c event io ≡ some after
      → Stable c io after
  unfolding unregister_event
  unregister_event-Stable c event io after e =
      let on = λ (q : ℕ). unregister_on ep c event q io in
      elim (Option-cases (io.channels c).task_queue) [
        | inl gone ↦ absurd (cc (ap (Option.map on) gone))
        | inr (q, queue) ↦
            subst (Stable c io) (some-injective _ _ (sym (ap (Option.map on) queue) ∙ e))
              (unregister_on-Stable c event q io)
      ]
