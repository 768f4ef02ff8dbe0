-- ===== src/Hook/Blocking/Examples.antt =====
-- A read that is answered at the third try, the callback called twice, and a descriptor that is closed.
use koro.Prelude.{ℕ, zero, suc, ◌≡◌, refl, true, false, none, some, [], ◌∷◌, inl, arith}
use koro.Events.Channel.{new_channel}
use koro.Events.Strict.{Interest, strict_epoll, is_watched, is_watched_lem}
use koro.Events.Manager.{Io}
use koro.Fibers.{Thread, thread_fiber, outside}
use koro.Hook.Descriptor.{Fcntl}
use koro.Hook.Blocking.{Answer, done, error, World, Call, is_plain, do_io, on_event, close}
use koro.Hook.Blocking.Looping.{blocking, Harmless, Agrees}
use koro.Hook.Blocking.Transparent.{OpenFor, Begun, do_io-blocking}
use koro.Hook.Blocking.Waking.{Released, close-Released}

-- The flags of the only file, and how many more waits it needs.
abbrev File : Type 0
File = ℕ × ℕ

set_failed_never : (s after : File) → true ≡ false → after ≡ s
set_failed_never s after h = absurd (cc)

abbrev flags_of_file : Fcntl File
flags_of_file = record {
  get_flags = λ s fd. some s.0;
  set_flags = λ s fd flags. ((flags, s.1), true);
  set_ok = λ s fd flags on same h. refl;
  set_failed = λ s fd flags h. set_failed_never s (flags, s.1) h;
}

abbrev read_file : File → File × Answer
read_file (flags, zero) = ((flags, 0), done 7)
read_file (flags, suc n) = ((flags, suc n), error 11)

abbrev wait_file : File → File
wait_file (flags, zero) = (flags, 0)
wait_file (flags, suc n) = (flags, n)

abbrev slow_read : Call File Interest
slow_read = record {
  call = read_file;
  event = 1;
  on_event = 8;
  on_error = 9;
  ends = λ s io. is_watched 1 io;
  wait = wait_file;
  others = λ s io. io;
}

abbrev opened : World File Interest
opened = record {
  sys = (2, 2);
  io = record {
    epoll = λ q. λ fd. none;
    channels = λ c. new_channel 1 0;
    next = 1;
    chs = none ∷ some 0 ∷ [];
    pending = 4;
    post_index = 0;
  };
}

-- A thread in fiber 1, whose own is 0.
abbrev in_fiber : Thread
in_fiber = record {
  fibers = λ f. thread_fiber;
  next = 2;
  t_fiber = some 1;
  t_scheduler_fiber = some 0;
  t_thread_fiber = some 0;
  control = outside;
  log = [];
}

in_fiber_not_plain : is_plain in_fiber ≡ false
unfolding is_plain koro.Fibers.running_fiber koro.Fibers.is_thread_fiber
in_fiber_not_plain = refl

slow_read-Harmless : Harmless strict_epoll slow_read 1
slow_read-Harmless = record {
  event = inl refl;
  takes_new = λ k ev h. rw h refl;
  takes_change = λ k ev old h. rw h refl;
  resumes = λ c q ev s io v cb e w. is_watched_lem 1 c q ev io v.entry v.is_open.queue w;
  keeps_settled = λ c q s io v. v;
  keeps_count = λ s io. refl;
}

opened-OpenFor : OpenFor flags_of_file strict_epoll slow_read 1 opened.io
unfolding new_channel
opened-OpenFor = record {
  known = λ d h. (
    0,
    record { queue = refl; blocking = refl },
    record { own = refl; present = λ here. absurd (cc); missing = λ away. refl },
  );
  unknown = λ h q. refl;
}

blocking_run : blocking read_file wait_file 3 (2, 2) ≡ some ((2, 0), done 7)
unfolding blocking koro.Hook.Blocking.would_block
blocking_run = refl

do_io-blocking_example :
    (s : File) × (c : ℕ) × (q : ℕ) × Begun flags_of_file strict_epoll slow_read 1 opened s
    × Agrees strict_epoll slow_read
        (blocking read_file wait_file 3 s)
        (do_io flags_of_file strict_epoll slow_read 2 (some 0) in_fiber 3 1 opened)
        4
        1
        c
        q
do_io-blocking_example =
    do_io-blocking flags_of_file strict_epoll slow_read 2 3 1 (some 0) in_fiber opened
      slow_read-Harmless opened-OpenFor (ground arith) in_fiber_not_plain

close-Released_example :
    (after : Io Interest) × (close strict_epoll (λ s. (s, done 0)) 1 opened
      ≡ some (record opened { io = after }, done 0))
    × Released strict_epoll 1 opened.io after
close-Released_example = close-Released strict_epoll (λ s. (s, done 0)) 1 opened
