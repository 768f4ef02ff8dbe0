-- ===== src/Loop.antt =====
-- koro/io_manager.cpp: how a worker handles the events that `epoll_wait` has reported (`idle`), and the
-- timers of the event manager. It joins the channels of Events with the timers of Timers.
pub mod Making
pub mod Handling
pub mod Dispatching
pub mod Counting
pub mod Startup
pub mod Teardown
mod Examples
use mathlib.Core.Option
use koro.Prelude.{
  ℕ, ◌+◌, ◌-◌, ◌%◌, ◌^◌, Bool, true, false, Option, none, some, List, [], ◌∷◌, ◌++◌, map,
  if◌then◌else◌, ◌==◌, ◌>>=◌, ℤ, negsuc, update,
}
use koro.Scheduling.Task.{Task, callback}
use koro.Timers.{add_seconds, nanos}
use koro.Timers.Manager.{Manager, TimerId, register_timer, unregister_event, trigger_timer}
use koro.Events.Channel.{Channel, handle_event}
use koro.Events.Table.{find}
use koro.Events.Manager.{Io}

-- The event manager with the timer manager of each task queue, `tasks` of the queues, and the descriptors
-- that belong to a queue itself: `counters` are the values of the wake-up descriptors.
pub record Loop (K : Type 0) : Type 0 where
  pub io : Io K
  pub managers : ℕ → Manager
  pub tasks : ℕ → List Task
  pub wakeup_fd : ℕ → ℕ
  pub timer_fd : ℕ → ℕ
  pub counters : ℕ → ℕ

-- `epoll_event`
pub record Ready : Type 0 where
  pub fd : ℕ
  pub revents : ℕ

-- `timer_ch_->onTime()`, which is `triggerTimer`: the callbacks go to the queue at once, for which the
-- manager's own list of tasks is emptied before and after.
unfoldable pub on_time : {K : Type 0} → ℕ → ℕ → ℕ → Loop K → Loop K
on_time now later q s =
    let m = trigger_timer now later (record (s.managers q) { tasks = [] }) in
    record s {
      managers = update s.managers q (record m { tasks = [] });
      tasks = update s.tasks q (s.tasks q ++ map callback m.tasks);
    }

-- `ch->setReadyEvent(revents); ch->handleEvent();` of the channel at `c`.
unfoldable pub handle_channel : {K : Type 0} → ℕ → ℕ → Loop K → Option (Loop K)
handle_channel c revents s =
    Option.map
      (λ r. record s { io = record (s.io) { channels = update s.io.channels c r.0 }; tasks = r.1 })
      (handle_event (record (s.io.channels c) { revents = revents }) s.tasks)

-- One event of the loop of queue `q`. `now` and `later` are the times at which `triggerTimer` looks at
-- the clock, also below.
unfoldable pub handle_ready : {K : Type 0} → ℕ → ℕ → ℕ → Ready → Loop K → Option (Loop K)
handle_ready now later q ev s =
    if s.wakeup_fd q == ev.fd
    then some (record s { counters = update s.counters q 0 })
    else if s.timer_fd q == ev.fd
    then some (on_time now later q s)
    else elim (find s.io.chs ev.fd) [ none ↦ some s | some c ↦ handle_channel c ev.revents s ]

unfoldable pub dispatch : {K : Type 0} → ℕ → ℕ → ℕ → List Ready → Loop K → Option (Loop K)
dispatch now later q [] s = some s
dispatch now later q (ev ∷ active_evs) s =
    handle_ready now later q ev s >>= λ t. dispatch now later q active_evs t

-- `pending_event_count_.fetch_add(1)`
unfoldable pub count_up : {K : Type 0} → Loop K → Loop K
count_up s = record s { io = record (s.io) { pending = (s.io.pending + 1) % 2 ^ 64 } }

unfoldable pub count_down : {K : Type 0} → Loop K → Loop K
count_down s = record s { io = record (s.io) { pending = (s.io.pending + 2 ^ 64 - 1) % 2 ^ 64 } }

unfoldable pub add_timer : {K : Type 0} → ℕ → ℕ → ℕ → ℕ → ℤ → ℕ → Loop K → Loop K × TimerId
add_timer now id timestamp cb interval q s =
    let (m, i) = register_timer now id timestamp cb interval (s.managers q) in
    (record s { managers = update s.managers q m }, i)

-- `current` is `t_task_queue`, and `none` as a result is the failed assertion that it is set, also below.
-- An interval of -1 second is that of a timer that does not repeat.
unfoldable pub run_at : {K : Type 0} → ℕ → ℕ → ℕ → ℕ → Option ℕ → Loop K → Option (Loop K × TimerId)
run_at now id timestamp cb current s =
    Option.map (λ q. add_timer now id timestamp cb (negsuc (nanos - 1)) q (count_up s)) current

unfoldable pub run_after :
    {K : Type 0} → ℕ → ℕ → ℤ → ℕ → Option ℕ → Loop K → Option (Loop K × TimerId)
run_after now id delay_sec cb current s =
    Option.map
      (λ q. add_timer now id (add_seconds now delay_sec) cb (negsuc (nanos - 1)) q (count_up s))
      current

unfoldable pub run_every :
    {K : Type 0} → ℕ → ℕ → ℤ → ℕ → Option ℕ → Loop K → Option (Loop K × TimerId)
run_every now id interval_sec cb current s =
    Option.map (λ q. add_timer now id (add_seconds now interval_sec) cb interval_sec q (count_up s))
      current

-- `cancellTimer`, for a timer of the worker that calls it.
unfoldable pub cancell_timer : {K : Type 0} → TimerId → Option ℕ → Loop K → Option (Loop K)
cancell_timer timer_id current s =
    Option.map
      (λ q. record (count_down s) {
        managers = update s.managers q (unregister_event timer_id (s.managers q));
      })
      current
