-- ===== src/Fibers.antt =====
-- koro/fiber.cpp and koro/fiber.h on one thread: who runs, what `swapcontext` saves, and what a fiber
-- leaves behind. The lock of a fiber is part of Scheduling.
pub mod Coroutine
pub mod Switching
pub mod Life
mod Examples
use koro.Prelude.{
  ℕ, zero, suc, Bool, true, false, not, ◌||◌, ◌&&◌, Option, none, some, List, [], ◌∷◌, ◌++◌,
  if◌then◌else◌, ◌==◌, ◌>>=◌, update,
}
use koro.Scheduling.Task.{State, ready, running, hold, term}

-- What a fiber's function does, one action after the other: something that can be seen from outside, or a
-- call of `yield` or `hold` of the running fiber.
pub data Action : Type 0 where
  work : ℕ → Action
  yields : Action
  holds : Action

-- A saved context: `mainFunc` from its start, as `makecontext` sets it up; behind a call of `yield` or
-- `hold`, with the rest of the function to do; behind a call of `resume`; behind the last `yield` of
-- `mainFunc`; or what `getcontext` has stored for a fiber that owns no stack.
pub data Context : Type 0 where
  entry : Context
  behind : List Action → Context
  caller : Context
  finished : Context
  captured : Context

pub record Fiber : Type 0 where
  pub state : State
  pub cb : Option (List Action)
  pub run_in_scheduler : Bool
  pub ctx : Context
  pub has_stack : Bool

-- Where the thread stands: in the code that calls `resume`, at the start of `mainFunc`, or in a fiber's
-- function with the rest to do.
pub data Control : Type 0 where
  outside : Control
  starting : Control
  inside : List Action → Control

-- A thread, with the fibers behind their addresses, and what was done in it, `log`.
pub record Thread : Type 0 where
  pub fibers : ℕ → Fiber
  pub next : ℕ
  pub t_fiber : Option ℕ
  pub t_scheduler_fiber : Option ℕ
  pub t_thread_fiber : Option ℕ
  pub control : Control
  pub log : List ℕ

-- The constructor without arguments, for the thread itself.
unfoldable pub thread_fiber : Fiber
thread_fiber = record {
  state = running;
  cb = none;
  run_in_scheduler = false;
  ctx = captured;
  has_stack = false;
}

unfoldable pub new_fiber : List Action → Bool → Fiber
new_fiber cb run_in_scheduler = record {
  state = ready;
  cb = some cb;
  run_in_scheduler = run_in_scheduler;
  ctx = entry;
  has_stack = true;
}

-- `none` is a failed assertion or a null pointer, also below.
unfoldable pub reset_func : ℕ → List Action → Thread → Option Thread
reset_func f cb t =
    if (t.fibers f).has_stack
    then some (record t {
      fibers = update t.fibers f (record (t.fibers f) { state = ready; cb = some cb; ctx = entry });
    })
    else none

-- `runningFiber`: on a thread that has none, the thread's own fiber is made.
unfoldable pub running_fiber : Thread → Thread × ℕ
running_fiber t = elim t.t_fiber [
  | some f ↦ (t, f)
  | none ↦ (
    record t {
      fibers = update t.fibers t.next thread_fiber;
      next = suc t.next;
      t_fiber = some t.next;
      t_scheduler_fiber = some t.next;
      t_thread_fiber = some t.next;
    },
    t.next,
  )
]

unfoldable pub set_state : ℕ → State → Thread → Thread
set_state f s t = record t { fibers = update t.fibers f (record (t.fibers f) { state = s }) }

-- What the processor does with a context that it loads; the code behind the last `yield` of `mainFunc`
-- returns without a context to go on with, and one that `getcontext` stored is never loaded.
unfoldable pub load : Context → Option Control
load entry = some starting
load (behind rest) = some (inside rest)
load caller = some outside
load finished = none
load captured = none

-- `swapcontext(&from->ctx_, &to->ctx_)`, where `here` is the point behind the call.
unfoldable pub swapcontext : ℕ → Context → ℕ → Thread → Option Thread
swapcontext from here to t =
    let saved = update t.fibers from (record (t.fibers from) { ctx = here }) in
    load (saved to).ctx >>= λ c. some (record t { fibers = saved; control = c })

-- The fiber that a fiber is resumed from and goes back to.
unfoldable pub partner : ℕ → Thread → Option ℕ
partner f t = if (t.fibers f).run_in_scheduler then t.t_scheduler_fiber else t.t_thread_fiber

unfoldable pub can_resume : State → Bool
can_resume ready = true
can_resume running = false
can_resume hold = true
can_resume term = false

unfoldable pub resume : ℕ → Thread → Option Thread
resume f t =
    let switched : Option Thread = (do
      main ← partner f t
      swapcontext main caller f (record (set_state f running t) { t_fiber = some f })) in
    if can_resume (t.fibers f).state then switched else none

-- The end of `yield` and of `hold` of fiber `f`: back to its partner.
unfoldable pub leave : ℕ → Context → Thread → Option Thread
leave f here t = partner f t >>= λ main. swapcontext f here main (record t { t_fiber = some main })

-- The state behind the assertion of `yield`.
unfoldable pub yielded : State → Option State
yielded ready = none
yielded running = some ready
yielded hold = none
yielded term = some term

unfoldable pub yield_fiber : ℕ → Context → Thread → Option Thread
yield_fiber f here t = yielded (t.fibers f).state >>= λ s. leave f here (set_state f s t)

unfoldable pub held : State → Option State
held ready = none
held running = some hold
held hold = none
held term = none

unfoldable pub hold_fiber : ℕ → Context → Thread → Option Thread
hold_fiber f here t = held (t.fibers f).state >>= λ s. leave f here (set_state f s t)

unfoldable pub is_thread_fiber : ℕ → Thread → Bool
is_thread_fiber f t = elim t.t_thread_fiber [ none ↦ false | some main ↦ f == main ]

-- `mainFunc` up to its call of the function; a fiber without one goes on to the end.
unfoldable pub start_main : Thread → Option Thread
start_main t = t.t_fiber >>= λ f.
    (if is_thread_fiber f t
      then none
      else some (record t {
        control = elim (t.fibers f).cb [ none ↦ inside [] | some actions ↦ inside actions ];
      }))

-- `mainFunc` behind the function.
unfoldable pub end_main : Thread → Option Thread
end_main t = t.t_fiber >>= λ f.
    yield_fiber f finished
      (record t { fibers = update t.fibers f (record (t.fibers f) { cb = none; state = term }) })

-- One action of the code that runs.
unfoldable pub step : Control → Thread → Option Thread
step outside t = some t
step starting t = start_main t
step (inside []) t = end_main t
step (inside (work n ∷ rest)) t = some (record t { log = t.log ++ n ∷ []; control = inside rest })
step (inside (yields ∷ rest)) t = t.t_fiber >>= λ f. yield_fiber f (behind rest) t
step (inside (holds ∷ rest)) t = t.t_fiber >>= λ f. hold_fiber f (behind rest) t

-- Any number of actions, until the control is back outside.
unfoldable pub run : ℕ → Thread → Option Thread
run zero t = some t
run (suc n) t = step t.control t >>= λ u. run n u
