-- ===== src/Events/Manager.antt =====
-- koro/io_manager.cpp: the table of channels, their registration with epoll, and the count of pending
-- events. `init()`, which the first call runs, is left out: the task queues and their epoll instances
-- exist.
pub mod Binding
pub mod Updates
pub mod Registration
pub mod Unregistration
pub mod Listed
pub mod Closing
pub mod Stable
use Prim.Native.Nat.{bit_and, bit_or}
use mathlib.Core.Option
use koro.Prelude.{
  ℕ, suc, ◌+◌, ◌-◌, ◌%◌, ◌^◌, Bool, true, false, Option, none, some, List, if◌then◌else◌, ◌==◌, set,
  ◌>>=◌, update,
}
use koro.Events.Bits.{epollin, epollout, epollet, has}
use koro.Events.Channel.{Channel, new_channel}
use koro.Events.Poller as Poller
use koro.Events.Poller.{Epoll, update_channel}
use koro.Events.Table.{make_room, find}

-- Channels are shared: `channels` gives the one behind an address, and `next` is the first address not
-- in use. `epoll` gives the epoll instance of each task queue, `chs` is the table, `pending` is
-- `pending_event_count_` and `post_index` is `thread_to_post_index_`, both of 64 bits.
pub record Io (K : Type 0) : Type 0 where
  pub epoll : ℕ → K
  pub channels : ℕ → Channel
  pub next : ℕ
  pub chs : List (Option ℕ)
  pub pending : ℕ
  pub post_index : ℕ

-- The queue of a new channel: the one of the calling worker, or else the next in turn.
unfoldable pub choose_queue : {K : Type 0} → ℕ → Option ℕ → Io K → Io K × ℕ
choose_queue threads (some q) io = (io, q)
choose_queue threads none io =
    (record io { post_index = (io.post_index + 1) % 2 ^ 64 }, io.post_index % threads)

unfoldable pub make_channel : {K : Type 0} → ℕ → ℕ → Io K → Io K × ℕ
make_channel fd queue io = (
  record io {
    channels = update io.channels io.next (new_channel fd queue);
    next = suc io.next;
    chs = set io.chs fd (some io.next);
  },
  io.next,
)

-- `threads` is the number of workers, `current` is `t_task_queue`.
unfoldable pub bind_task_queue : {K : Type 0} → ℕ → Option ℕ → ℕ → Io K → Option (Io K × ℕ)
bind_task_queue threads current fd io = do
  room ← make_room 2 fd io.chs
  let roomy = record io { chs = room }
  elim (find room fd) [
    | none ↦
        some (let (io', queue) = choose_queue threads current roomy in make_channel fd queue io')
    | some c ↦ some (roomy, c)
  ]

-- The callback of the event; `none` is an event that is not supported.
unfoldable pub set_callback : ℕ → ℕ → Channel → Option Channel
set_callback event cb ch =
    if event == epollin
    then some (record ch { read_callback = some cb })
    else if event == epollout
    then some (record ch { write_callback = some cb })
    else none

-- `on_error` is the callback that calls `handleError`.
unfoldable pub add_events : ℕ → ℕ → Bool → Channel → Channel
add_events on_error event use_et ch =
    let events = bit_or event ch.events in
    record ch {
      error_callback = some on_error;
      events = if use_et then bit_or epollet events else events;
    }

-- `ch->update()`, of the channel at `c` that is to become `ch`, on the epoll instance of queue `q`.
unfoldable pub store_updated : {K : Type 0} → Epoll K → ℕ → ℕ → Channel → Io K → Io K
store_updated ep q c ch io =
    let (k, ch') = update_channel ep (io.epoll q) ch in
    record io { epoll = update io.epoll q k; channels = update io.channels c ch' }

-- `registerEvent` once the callback is set; `none` is an event that is not supported.
unfoldable pub register_on :
    {K : Type 0} → Epoll K → ℕ → ℕ → ℕ → Bool → ℕ → Option Channel → Io K → Io K × Bool
register_on ep on_error c event use_et q none io = (io, false)
register_on ep on_error c event use_et q (some ch) io =
    let io' = store_updated ep q c (add_events on_error event use_et ch) io in
    (record io' { pending = (io'.pending + 1) % 2 ^ 64 }, true)

-- `none` is the failed assertion that the channel has a task queue, also below.
unfoldable pub register_event :
    {K : Type 0} → Epoll K → ℕ → ℕ → ℕ → ℕ → Bool → Io K → Option (Io K × Bool)
register_event ep on_error c event cb use_et io =
    Option.map
      (λ q. register_on ep on_error c event use_et q (set_callback event cb (io.channels c)) io)
      (io.channels c).task_queue

unfoldable pub ban_read : ℕ → Channel → Channel
ban_read event ch =
    if has epollin event
    then record ch { events = bit_and (2 ^ 32 - 1 - epollin) ch.events; read_callback = none }
    else ch

unfoldable pub ban_write : ℕ → Channel → Channel
ban_write event ch =
    if has epollout event
    then record ch { events = bit_and (2 ^ 32 - 1 - epollout) ch.events; write_callback = none }
    else ch

-- `ban_event_count`
unfoldable pub ban_event_count : ℕ → ℕ
ban_event_count event = (if has epollin event then 1 else 0) + (if has epollout event then 1 else 0)

unfoldable pub unregister_on : {K : Type 0} → Epoll K → ℕ → ℕ → ℕ → Io K → Io K
unregister_on ep c event q io =
    let io' = store_updated ep q c (ban_write event (ban_read event (io.channels c))) io in
    record io' { pending = (io'.pending + 2 ^ 64 - ban_event_count event) % 2 ^ 64 }

unfoldable pub unregister_event : {K : Type 0} → Epoll K → ℕ → ℕ → Io K → Option (Io K)
unregister_event ep c event io =
    Option.map (λ q. unregister_on ep c event q io) (io.channels c).task_queue

unfoldable pub clear_callbacks : Channel → Channel
clear_callbacks ch = record ch {
  read_callback = none;
  write_callback = none;
  error_callback = none;
}

-- `ch->setEvents(0); ch->remove();`
unfoldable pub remove_from_epoll : {K : Type 0} → Epoll K → K → Channel → Option (K × Channel)
remove_from_epoll ep k ch = do
  (k', ch') ← Poller.remove_channel ep k (record ch { events = 0 })
  some (k', record ch' { task_queue = none })

-- The table forgets the channel that it has for the descriptor; an entry beyond its end is no entry.
unfoldable pub forget : {K : Type 0} → Channel → Io K → Io K
forget ch io = record io { chs = set io.chs ch.fd none }

-- `removeChannel` of a channel `ch` with a task queue, at `c`.
unfoldable pub remove_on : {K : Type 0} → Epoll K → ℕ → Channel → ℕ → Io K → Option (Io K)
remove_on ep c ch q io =
    let removed = remove_from_epoll ep (io.epoll q) (clear_callbacks ch) in
    if ch.in_epoll
    then Option.map
        (λ r. record (forget ch io) {
          epoll = update io.epoll q r.0;
          channels = update io.channels c r.1;
        })
        removed
    else some (record (forget ch io) { channels = update io.channels c (clear_callbacks ch) })

unfoldable pub remove_channel : {K : Type 0} → Epoll K → ℕ → Io K → Option (Io K)
remove_channel ep c io = elim (io.channels c).task_queue [
  | none ↦ some io
  | some q ↦ remove_on ep c (io.channels c) q io
]
