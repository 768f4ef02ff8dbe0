-- ===== src/Loop/Startup.antt =====
-- koro/io_manager.cpp, `onInit`, which Scheduler::init of koro/scheduler.cpp calls once, with the
-- constructor of TimerManager and the switches of koro/channel.h.
pub mod Creating
use Prim.Native.Nat.{bit_and, bit_or}
use koro.Prelude.{ℕ, ◌-◌, ◌^◌, ◌≤◌, ◌≡◌, refl, ap, ◌∙◌, Bool, true, none, some, [], update}
use koro.Timers.{Timer}
use koro.Timers.Manager.{Manager, max_ptr}
use koro.Timers.Manager.Validity.{IsValid}
use koro.Events.Bits.{epollin, epollout, has}
use koro.Events.Channel.{Channel, new_channel}
use koro.Events.Poller.{Epoll, update_channel, update_ctl}
use koro.Loop.{Loop}
use koro.Loop.Making.{HasQueues}

module _ {K : Type 0} (ep : Epoll K) where
  unfoldable pub enable_reading : K → Channel → K × Channel
  enable_reading k ch = update_channel ep k (record ch { events = bit_or epollin ch.events })

  unfoldable pub enable_writing : K → Channel → K × Channel
  enable_writing k ch = update_channel ep k (record ch { events = bit_or epollout ch.events })

  unfoldable pub disable_reading : K → Channel → K × Channel
  disable_reading k ch =
      update_channel ep k (record ch { events = bit_and (2 ^ 32 - 1 - epollin) ch.events })

  unfoldable pub disable_writing : K → Channel → K × Channel
  disable_writing k ch =
      update_channel ep k (record ch { events = bit_and (2 ^ 32 - 1 - epollout) ch.events })

  unfoldable pub disable_all : K → Channel → K × Channel
  disable_all k ch = update_channel ep k (record ch { events = 0 })

unfoldable pub writing : Channel → Bool
writing ch = has epollout ch.events

-- The members of a timer manager that has just been made. `heap` gives what stands behind the addresses, of
-- which none before `next` is free.
unfoldable pub new_manager : (ℕ → Timer) → ℕ → Manager
new_manager heap next = record {
  timers = [];
  active_timers = [];
  heap = heap;
  next = next;
  tasks = [];
  fd = none;
}

-- A task queue behind `onInit`.
pub record TaskQueue (K : Type 0) : Type 0 where
  pub epoller : K
  pub wakeup_ch : Channel
  pub timer_ch : Channel
  pub tm : Manager

-- What is new: an epoll instance for each queue, and the numbers that `eventfd` and `timerfd_create` give;
-- `trigger` is the callback that runs `triggerTimer`.
pub record Resources (K : Type 0) : Type 0 where
  pub instance_of : ℕ → K
  pub event_fd : ℕ → ℕ
  pub timer_fd : ℕ → ℕ
  pub trigger : ℕ → ℕ
  pub heap : ℕ → Timer
  pub next : ℕ

-- The constructor of TimerManager, as far as its channel goes.
unfoldable pub timer_channel : {K : Type 0} → Epoll K → Resources K → ℕ → K → K × Channel
timer_channel ep r q k =
    enable_reading ep k
      (record (new_channel (r.timer_fd q) q) { on_time_callback = some (r.trigger q) })

unfoldable pub on_init : {K : Type 0} → Epoll K → Resources K → ℕ → TaskQueue K
on_init ep r q =
    let (k, wakeup_ch) = enable_reading ep (r.instance_of q) (new_channel (r.event_fd q) q) in
    let (k', timer_ch) = timer_channel ep r q k in
    record {
      epoller = k';
      wakeup_ch = wakeup_ch;
      timer_ch = timer_ch;
      tm = new_manager r.heap r.next;
    }

-- The event manager behind `init`: the queues are empty, and so is the table of channels. `spare` is the
-- memory in which channels will be made.
unfoldable pub start : {K : Type 0} → Epoll K → Resources K → (ℕ → Channel) → ℕ → Loop K
start ep r spare next = record {
  io = record {
    epoll = λ q. (on_init ep r q).epoller;
    channels = spare;
    next = next;
    chs = [];
    pending = 0;
    post_index = 0;
  };
  managers = λ q. (on_init ep r q).tm;
  tasks = λ q. [];
  wakeup_fd = λ q. (on_init ep r q).wakeup_ch.fd;
  timer_fd = λ q. (on_init ep r q).timer_ch.fd;
  counters = λ q. 0;
}

module _ {K : Type 0} (ep : Epoll K) where
  -- The kernel takes both descriptors of each queue.
  pub record Accepts (r : Resources K) : Type 0 where
    pub wakeup : (q : ℕ) → (ep.add (r.instance_of q) (r.event_fd q) epollin).1 ≡ true
    pub timer :
        (q : ℕ)
        → (ep.add (ep.add (r.instance_of q) (r.event_fd q) epollin).0 (r.timer_fd q) epollin).1
          ≡ true

  -- A queue that its worker can wait at: epoll watches the two descriptors for reading.
  pub record IsReady (r : Resources K) (q : ℕ) (tq : TaskQueue K) : Type 0 where
    pub watched :
        ep.watched tq.epoller
        ≡ update
            (update (ep.watched (r.instance_of q)) (r.event_fd q) (some epollin))
            (r.timer_fd q)
            (some epollin)
    pub wakeup_fd : tq.wakeup_ch.fd ≡ r.event_fd q
    pub timer_fd : tq.timer_ch.fd ≡ r.timer_fd q
    pub wakeup_in_epoll : tq.wakeup_ch.in_epoll ≡ true
    pub timer_in_epoll : tq.timer_ch.in_epoll ≡ true
    pub wakeup_queue : tq.wakeup_ch.task_queue ≡ some q
    pub timer_queue : tq.timer_ch.task_queue ≡ some q
    pub on_time : tq.timer_ch.on_time_callback ≡ some (r.trigger q)

  pub on_init-IsReady : (r : Resources K) (q : ℕ) → Accepts r → IsReady r q (on_init ep r q)
  unfolding on_init timer_channel enable_reading update_channel update_ctl new_channel
  on_init-IsReady r q a =
      let first = ep.add_ok (r.instance_of q) (r.event_fd q) epollin (a.wakeup q) in
      let second =
        ep.add_ok (ep.add (r.instance_of q) (r.event_fd q) epollin).0 (r.timer_fd q) epollin
          (a.timer q) in
      record {
        watched = second ∙ ap (λ w. update w (r.timer_fd q) (some epollin)) first;
        wakeup_fd = rw (a.wakeup q) refl;
        timer_fd = rw (a.timer q) refl;
        wakeup_in_epoll = rw (a.wakeup q) refl;
        timer_in_epoll = rw (a.timer q) refl;
        wakeup_queue = rw (a.wakeup q) refl;
        timer_queue = rw (a.timer q) refl;
        on_time = rw (a.timer q) refl;
      }

  -- When `init` returns, and the kernel has taken the descriptors, each task queue's epoll instance watches
  -- its wake-up and its timers' descriptor for reading, its set of timers is valid, its queue is empty, and
  -- every channel of the table has a queue: what the handling of events assumes. No event is pending.
  start-IsReady :
      (r : Resources K) (spare : ℕ → Channel) (next : ℕ)
      → Accepts r
      → r.next ≤ max_ptr
      → ((q : ℕ)
          → IsReady r q (on_init ep r q)
            × ((start ep r spare next).wakeup_fd q ≡ r.event_fd q)
            × ((start ep r spare next).timer_fd q ≡ r.timer_fd q)
            × IsValid ((start ep r spare next).managers q)
            × ((start ep r spare next).tasks q ≡ []))
        × HasQueues (start ep r spare next)
        × ((start ep r spare next).io.pending ≡ 0)
  unfolding start on_init new_manager
  start-IsReady r spare next a room = (
    λ q.
        let ready = on_init-IsReady r q a in
        (
          ready,
          ready.wakeup_fd,
          ready.timer_fd,
          record { ordered = tt; keyed = tt; distinct = tt; idle = refl; real = room },
          refl,
        ),
    λ fd c h. absurd (cc),
    refl,
  )
