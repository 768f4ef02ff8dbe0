-- ===== src/Hook/Wrapping/Examples.antt =====
-- A pipe that takes two bytes and is then full until its reader has been waited for, and a write of three
-- bytes to it from a fiber.
use koro.Prelude.{
  ℕ, ◌≤◌, ◌≡◌, refl, sym, ap, subst, true, false, Option, none, some, List, [], ◌∷◌, ◌++◌, length,
  take, arith, append-nil, inr,
}
use koro.Events.Bits.{epollout}
use koro.Events.Channel.{new_channel}
use koro.Events.Strict.{Interest, strict_epoll, is_watched, is_watched_lem}
use koro.Fibers.{thread_fiber, outside, running_fiber, is_thread_fiber}
use koro.Hook.{Ret, failed, count, Writer}
use koro.Hook.Descriptor.{Fcntl, new_flags}
use koro.Hook.Writing.{Wrote}
use koro.Hook.Blocking.{Answer, done, error, World, is_plain, would_block}
use koro.Hook.Blocking.Looping.{blocking}
use koro.Hook.Blocking.Transparent.{OpenFor, Begun}
use koro.Hook.Wrapping.{Caller, hooked, to_ret, write}
use koro.Hook.Wrapping.Streaming.{AreHarmless}
use koro.Hook.Wrapping.Delivery.{Implements, write-Delivers}

-- With the flags, and all that was written.
data Pipe : Type 0 where
  free : ℕ → List ℕ → Pipe
  full : ℕ → List ℕ → Pipe

abbrev content : Pipe → List ℕ
content (free flags all) = all
content (full flags all) = all

abbrev with_flags : Pipe → ℕ → Pipe
with_flags (free flags all) new = free new all
with_flags (full flags all) new = full new all

abbrev flags_of : Pipe → Option ℕ
flags_of (free flags all) = some flags
flags_of (full flags all) = some flags

flags_of-with_flags : (s : Pipe) (flags : ℕ) → flags_of (with_flags s flags) ≡ some flags
flags_of-with_flags (free old all) flags = refl
flags_of-with_flags (full old all) flags = refl

never : {s : Pipe} (after : Pipe) → true ≡ false → after ≡ s
never after h = absurd (cc)

abbrev pipe_flags : Fcntl Pipe
pipe_flags = record {
  get_flags = λ s fd. flags_of s;
  set_flags = λ s fd flags. (with_flags s flags, true);
  set_ok = λ s fd flags on same h. flags_of-with_flags s (new_flags on flags);
  set_failed = λ s fd flags h. never (with_flags s flags) h;
}

abbrev put : ℕ → List ℕ → List ℕ → Pipe × ℕ
put flags all [] = (free flags all, 0)
put flags all (x ∷ []) = (full flags (all ++ x ∷ []), 1)
put flags all (x ∷ y ∷ rest) = (full flags (all ++ x ∷ y ∷ []), 2)

abbrev write_pipe : Pipe → ℕ → List ℕ → Pipe × Answer
write_pipe (free flags all) fd rest = let (s, n) = put flags all rest in (s, done n)
write_pipe (full flags all) fd rest = (full flags all, error 11)

abbrev wait_pipe : Pipe → Pipe
wait_pipe (free flags all) = free flags all
wait_pipe (full flags all) = free flags all

abbrev blocking_call : Pipe → List ℕ → Pipe × Ret
blocking_call (free flags all) rest = let (s, n) = put flags all rest in (s, count n)
blocking_call (full flags all) rest = let (s, n) = put flags all rest in (s, count n)

abbrev number : Ret → ℕ
number failed = 0
number (count n) = n

put-partial :
    (flags : ℕ) (all rest : List ℕ)
    → ((put flags all rest).1 ≤ length rest)
      × (content (put flags all rest).0 ≡ all ++ take (put flags all rest).1 rest)
put-partial flags all [] = (omega arith, sym (append-nil all))
put-partial flags all (x ∷ []) = (omega arith, refl)
put-partial flags all (x ∷ y ∷ rest) = (omega arith, refl)

blocking_call-partial :
    (s : Pipe) (rest : List ℕ) (n : ℕ)
    → (blocking_call s rest).1 ≡ count n
    → (n ≤ length rest) × (content (blocking_call s rest).0 ≡ content s ++ take n rest)
blocking_call-partial (free flags all) rest n h =
    subst (λ m. (m ≤ length rest) × (content (put flags all rest).0 ≡ all ++ take m rest))
      (ap number h) (put-partial flags all rest)
blocking_call-partial (full flags all) rest n h =
    subst (λ m. (m ≤ length rest) × (content (put flags all rest).0 ≡ all ++ take m rest))
      (ap number h) (put-partial flags all rest)

blocking_call-nothing :
    (s : Pipe) (rest : List ℕ)
    → (blocking_call s rest).1 ≡ failed
    → content (blocking_call s rest).0 ≡ content s
blocking_call-nothing (free flags all) rest h = absurd (cc)
blocking_call-nothing (full flags all) rest h = absurd (cc)

abbrev pipe : Writer Pipe
pipe = record {
  call = blocking_call;
  content = content;
  partial = blocking_call-partial;
  nothing = blocking_call-nothing;
}

-- A fiber on a thread, with one worker.
abbrev caller : Caller Pipe Interest
caller = record {
  threads = 1;
  current = some 0;
  thread = record {
    fibers = λ f. thread_fiber;
    next = 2;
    t_fiber = some 1;
    t_scheduler_fiber = some 0;
    t_thread_fiber = some 0;
    control = outside;
    log = [];
  };
  on_event = 8;
  on_error = 9;
  ends = λ s io. is_watched 1 io;
  wait = wait_pipe;
  others = λ s io. io;
}

abbrev world : World Pipe Interest
world = record {
  sys = full 2 (7 ∷ []);
  io = record {
    epoll = λ q. λ fd. none;
    channels = λ c. new_channel 1 0;
    next = 1;
    chs = none ∷ some 0 ∷ [];
    pending = 4;
    post_index = 0;
  };
}

pipe-Implements : Implements pipe_flags strict_epoll caller 2 write_pipe 1 pipe
unfolding blocking would_block to_ret
pipe-Implements (free flags all) rest = (done (put flags all rest).1, refl, refl)
pipe-Implements (full flags all) rest = (done (put flags all rest).1, refl, refl)

caller-Harmless : AreHarmless pipe_flags strict_epoll caller 2 write_pipe 1
unfolding hooked
caller-Harmless call = record {
  event = inr refl;
  takes_new = λ k ev h. rw h refl;
  takes_change = λ k ev old h. rw h refl;
  resumes = λ c q ev s io v cb e w. is_watched_lem 1 c q ev io v.entry v.is_open.queue w;
  keeps_settled = λ c q s io v. v;
  keeps_count = λ s io. refl;
}

world-OpenFor :
    (call : Pipe → Pipe × Answer)
    → OpenFor pipe_flags strict_epoll (hooked caller epollout call) 1 world.io
unfolding new_channel
world-OpenFor call = record {
  known = λ d h. (
    0,
    record { queue = refl; blocking = refl },
    record { own = refl; present = λ here. absurd (cc); missing = λ away. refl },
  );
  unknown = λ h q. refl;
}

on_fiber : is_plain caller.thread ≡ false
unfolding is_plain running_fiber is_thread_fiber
on_fiber = refl

write-Delivers_example :
    (after : World Pipe Interest) × (ret : Ret) × (write pipe_flags strict_epoll caller 2 write_pipe
        1
        (1 ∷ 2 ∷ 3 ∷ [])
        world
      ≡ some (after, ret))
    × (s : Pipe) × Begun pipe_flags strict_epoll
        (hooked caller epollout (λ x. write_pipe x 1 (1 ∷ 2 ∷ 3 ∷ [])))
        1
        world
        s
    × Wrote pipe 0 s (1 ∷ 2 ∷ 3 ∷ []) (some (after.sys, ret))
    × (after.io.pending ≡ 4)
write-Delivers_example =
    write-Delivers pipe_flags strict_epoll caller 2 write_pipe 1 pipe 1 (2 ∷ 3 ∷ []) world
      pipe-Implements caller-Harmless world-OpenFor (ground arith) on_fiber
