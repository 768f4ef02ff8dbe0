-- ===== src/Events/Channel.antt =====
-- koro/channel.h and koro/channel.cpp. Callbacks are known by numbers, and so are the task queues;
-- `tasks` gives the tasks of each queue.
pub mod Firing
use Prim.Native.Nat.{bit_and, bit_or}
use mathlib.Core.Option
use koro.Prelude.{
  ℕ, Bool, true, false, Option, none, some, List, [], ◌∷◌, ◌++◌, if◌then◌else◌, ◌==◌, ◌>>=◌, update,
}
use koro.Scheduling.Task.{Task, callback}
use koro.Events.Bits.{epollin, epollout, epollerr, epollhup, epollet, has}

pub record Channel : Type 0 where
  pub fd : ℕ
  pub task_queue : Option ℕ
  pub events : ℕ
  pub revents : ℕ
  pub in_epoll : Bool
  pub read_callback : Option ℕ
  pub write_callback : Option ℕ
  pub error_callback : Option ℕ
  pub on_time_callback : Option ℕ
  pub user_non_block : Bool
  pub sys_non_block : Bool

unfoldable pub new_channel : ℕ → ℕ → Channel
new_channel fd queue = record {
  fd = fd;
  task_queue = some queue;
  events = 0;
  revents = 0;
  in_epoll = false;
  read_callback = none;
  write_callback = none;
  error_callback = none;
  on_time_callback = none;
  user_non_block = false;
  sys_non_block = false;
}

-- `switch (e)`: `none` is the default branch.
unfoldable pub callback_for : ℕ → Channel → Option (Option ℕ)
callback_for e ch =
    if e == epollin
    then some ch.read_callback
    else if e == epollout
    then some ch.write_callback
    else if e == epollerr
    then some ch.error_callback
    else none

-- A callback that is set is pushed to the channel's queue; `none` is the use of a null queue.
unfoldable pub push_callback : Option ℕ → Channel → (ℕ → List Task) → Option (ℕ → List Task)
push_callback none ch tasks = some tasks
push_callback (some c) ch tasks =
    Option.map (λ q. update tasks q (tasks q ++ callback c ∷ [])) ch.task_queue

unfoldable pub trigger_event : ℕ → Channel → (ℕ → List Task) → Option (ℕ → List Task)
trigger_event e ch tasks = elim (callback_for e ch) [
  | none ↦ some tasks
  | some cb ↦ push_callback cb ch tasks
]

-- `if (revents_ & e) triggerEvent(e);`
unfoldable pub trigger_if : ℕ → Channel → (ℕ → List Task) → Option (ℕ → List Task)
trigger_if e ch tasks = if has e ch.revents then trigger_event e ch tasks else some tasks

-- An error or a hang-up counts as readable and writable.
unfoldable pub widen : Channel → Channel
widen ch =
    if has (bit_or epollerr epollhup) ch.revents
    then record ch { revents = bit_or (bit_or epollin epollout) ch.revents }
    else ch

unfoldable pub handle_event : Channel → (ℕ → List Task) → Option (Channel × (ℕ → List Task))
handle_event ch tasks = do
  let wide = widen ch
  after_err ← trigger_if epollerr wide tasks
  after_in ← trigger_if epollin wide after_err
  after_out ← trigger_if epollout wide after_in
  some (wide, after_out)
