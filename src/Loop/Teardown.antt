-- ===== src/Loop/Teardown.antt =====
-- koro/task.cpp, `~TaskQueue`, and koro/timer_manager.cpp, `~TimerManager`: what is taken back of what
-- `onInit` has made.
pub mod Dismantling
use koro.Prelude.{
  ℕ, ◌≡◌, ◌≢◌, refl, sym, ap, ◌∙◌, Bool, true, false, Option, none, some, List, [], ◌∷◌, ◌>>=◌,
  if◌then◌else◌, subst, Bool-cases, inl, inr, update, update_self, update_ne,
}
use koro.Events.Bits.{epollin}
use koro.Events.Channel.{Channel}
use koro.Events.Poller.{Epoll, update_channel, update_ctl}
use koro.Events.Poller
use koro.Loop.Startup.{
  TaskQueue, Resources, Accepts, IsReady, on_init, on_init-IsReady, disable_all,
}

module _ {K : Type 0} (ep : Epoll K) where
  -- `Channel::remove`; `none` is the failed assertion of `removeChannel`.
  unfoldable pub remove : K → Channel → Option (K × Channel)
  remove k ch = do
    (k', ch') ← Poller.remove_channel ep k ch
    some (k', record ch' { task_queue = none })

  -- `~TimerManager`, with the descriptor that it closes.
  unfoldable pub destroy_timer_manager : K → Channel → Option (K × ℕ)
  destroy_timer_manager k ch = do
    let (k', ch') = disable_all ep k ch
    (k'', gone) ← remove k' ch'
    some (k'', ch.fd)

  -- `~TaskQueue` and the destructors of its members, which come last first: the epoll instance is closed
  -- at the end. The list has the descriptors that are closed before.
  unfoldable pub destroy_task_queue : TaskQueue K → Option (K × List ℕ)
  destroy_task_queue tq = do
    (k, gone) ← remove tq.epoller tq.wakeup_ch
    (k', timer_fd) ← destroy_timer_manager k tq.timer_ch
    some (k', tq.wakeup_ch.fd ∷ timer_fd ∷ [])
