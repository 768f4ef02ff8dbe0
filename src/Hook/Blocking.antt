-- ===== src/Hook/Blocking.antt =====
-- koro/hook.cpp: `do_io` and `close`. What the rest of the program does while a fiber waits is a
-- parameter, as is the system call.
pub mod Looping
pub mod Transparent
pub mod Waking
mod Examples
use mathlib.Core.Option
use koro.Prelude.{
  ℕ, zero, suc, Bool, true, false, not, ◌||◌, ◌&&◌, Option, none, some, List, [], ◌∷◌, ◌++◌,
  if◌then◌else◌, ◌==◌, ◌>>=◌, update,
}
use koro.Scheduling.Task.{Task, fiber}
use koro.Events.Channel.{Channel}
use koro.Events.Poller.{Epoll}
use koro.Events.Table.{find}
use koro.Events.Manager.{Io, bind_task_queue, register_event, unregister_event, remove_channel}
use koro.Fibers.{Thread, running_fiber, is_thread_fiber}
use koro.Hook.Descriptor.{Fcntl, set_non_blocking}

-- What a system call returns: a number, or -1 with `errno`.
pub data Answer : Type 0 where
  done : ℕ → Answer
  error : ℕ → Answer

abbrev pub eagain : ℕ
eagain = 11

abbrev pub ewouldblock : ℕ
ewouldblock = 11

-- The negation of `n >= 0 || errno != EAGAIN && errno != EWOULDBLOCK`.
unfoldable pub would_block : Answer → Bool
would_block (done n) = false
would_block (error errno) = errno == eagain || errno == ewouldblock

-- The kernel's state and the event manager's.
pub record World (S : Type 0) (K : Type 0) : Type 0 where
  pub sys : S
  pub io : Io K

-- A hooked call: the system call with its arguments, its event, and the numbers of the callbacks that
-- `registerEvent` is given. `ends` says of the states in which the fiber calls `hold` whether it is ever
-- resumed. Until then, `wait` is what happens to the kernel's state, and `others` what is done to
-- the event manager.
pub record Call (S : Type 0) (K : Type 0) : Type 0 where
  pub call : S → S × Answer
  pub event : ℕ
  pub on_event : ℕ
  pub on_error : ℕ
  pub ends : S → Io K → Bool
  pub wait : S → S
  pub others : S → Io K → Io K

module _ {S : Type 0} {K : Type 0} (ep : Epoll K) (op : Call S K) where
  -- Behind `hold`.
  unfoldable pub resumed : ℕ → World S K → Option (World S K × Option Answer)
  resumed c w = do
    io ← unregister_event ep c op.event (op.others w.sys w.io)
    some (record w { sys = op.wait w.sys; io = io }, none)

  -- From `hold` on. `none` is a fiber that is never resumed, or a failed assertion.
  unfoldable pub held : ℕ → World S K → Option (World S K × Option Answer)
  held c w = if op.ends w.sys w.io then resumed c w else none

  -- Behind a call that would block, with its `errno`, when the program wants it to block: an answer, or
  -- none when the loop goes on. An outer `none` is a failed assertion, or a fiber that waits for ever.
  unfoldable pub wait_for_event : ℕ → Answer → World S K → Option (World S K × Option Answer)
  wait_for_event c r w = do
    (io, ok) ← register_event ep op.on_error c op.event op.on_event true w.io
    let registered : World S K = record w { io = io }
    elim ok [ true ↦ held c registered | false ↦ some (registered, some r) ]

  -- One round of the loop, behind the system call.
  unfoldable pub answered : ℕ → Answer → World S K → Option (World S K × Option Answer)
  answered c r w =
      if would_block r && not (w.io.channels c).user_non_block
      then wait_for_event c r w
      else some (w, some r)

  unfoldable pub round : ℕ → World S K → Option (World S K × Option Answer)
  round c w = let (s, r) = op.call w.sys in answered c r (record w { sys = s })

  -- The loop, on fuel; `none` is also the end of the fuel.
  unfoldable pub io_loop : ℕ → ℕ → World S K → Option (World S K × Answer)
  io_loop zero c w = none
  io_loop (suc fuel) c w =
      round c w >>= λ (w', o). elim o [ some r ↦ some (w', r) | none ↦ io_loop fuel c w' ]

-- `sys_non_block_.exchange(true)`
unfoldable pub mark_non_block : {K : Type 0} → ℕ → Io K → Io K
mark_non_block c io = record io {
  channels = update io.channels c (record (io.channels c) { sys_non_block = true });
}

-- The descriptor is put into non-blocking mode the first time its channel is used.
unfoldable pub make_non_blocking : {S K : Type 0} → Fcntl S → ℕ → ℕ → World S K → World S K
make_non_blocking fc c fd w = record w {
  sys = if (w.io.channels c).sys_non_block then w.sys else (set_non_blocking fc w.sys fd true).0;
  io = mark_non_block c w.io;
}

-- Outside the fibers that are made with a function.
unfoldable pub is_plain : Thread → Bool
is_plain t = let (u, f) = running_fiber t in is_thread_fiber f u

unfoldable pub do_io :
    {S K : Type 0}
    → Fcntl S
    → Epoll K
    → Call S K
    → ℕ
    → Option ℕ
    → Thread
    → ℕ
    → ℕ
    → World S K
    → Option (World S K × Answer)
do_io {S} {K} fc ep op threads current t fuel fd w =
    let direct : World S K × Answer = (let (s, r) = op.call w.sys in (record w { sys = s }, r)) in
    let looped : Option (World S K × Answer) = (do
      (io, c) ← bind_task_queue threads current fd w.io
      io_loop ep op fuel c (make_non_blocking fc c fd (record w { io = io }))) in
    if is_plain t then some direct else looped

-- The callback that `do_io` registers, called on the worker of queue `q` with `triggered` as it is, where
-- `alive` is the fiber if it still exists.
unfoldable pub on_event : Option ℕ → ℕ → Bool × (ℕ → List Task) → Bool × (ℕ → List Task)
on_event alive q (triggered, tasks) =
    if triggered
    then (true, tasks)
    else (true, elim alive [ none ↦ tasks | some f ↦ update tasks q (tasks q ++ fiber f ∷ []) ])

unfoldable pub close :
    {S K : Type 0} → Epoll K → (S → S × Answer) → ℕ → World S K → Option (World S K × Answer)
close {S} {K} ep sys_close fd w =
    let removed : Option (Io K) = (elim (find w.io.chs fd) [
      | none ↦ some w.io
      | some c ↦ remove_channel ep c w.io
    ]) in
    let (s, r) = sys_close w.sys in Option.map (λ io. (record w { sys = s; io = io }, r)) removed
