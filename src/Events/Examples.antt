-- ===== src/Events/Examples.antt =====
-- The theorems of the event loop at concrete channels.
use koro.Prelude.{
  ℕ, ◌≡◌, ◌≢◌, refl, true, false, none, some, List, [], ◌∷◌, if◌then◌else◌, ◌==◌, inr, arith,
}
use koro.Scheduling.Task.{Task}
use koro.Events.Bits.{epollin, epollout}
use koro.Events.Channel.{Channel, new_channel, handle_event, widen}
use koro.Events.Channel.Firing.{handle_event_lem, tasks_of}
use koro.Events.Strict.{Interest, strict_epoll}
use koro.Events.Manager.{Io, register_event, unregister_event, remove_channel}
use koro.Events.Manager.Updates.{IsEvent}
use koro.Events.Manager.Registration.{Registered, register_event-Registered}
use koro.Events.Manager.Unregistration.{IsQuiet, register_then_unregister}
use koro.Events.Manager.Closing.{closed_while_waiting, IsSilent}

-- A reader of descriptor 5 waits, in queue 0.
abbrev waiting : Channel
waiting = record (new_channel 5 0) {
  fd = 5;
  task_queue = some 0;
  events = 1;
  revents = 0x10;
  in_epoll = true;
  read_callback = some 7;
}

abbrev one_waits : Io Interest
one_waits = record {
  epoll = λ q. λ fd. if fd == 5 then some 1 else none;
  channels = λ c. waiting;
  next = 1;
  chs = none ∷ none ∷ none ∷ none ∷ none ∷ some 0 ∷ [];
  pending = 1;
  post_index = 0;
}

handle_event_lem_example :
    (after : ℕ → List Task) × (handle_event waiting (λ _. []) ≡ some (widen waiting, after))
    × (after 0 ≡ tasks_of waiting)
    × ((j : ℕ) → j ≢ 0 → after j ≡ [])
handle_event_lem_example = handle_event_lem waiting (λ _. []) 0 refl

register_event-Registered_example :
    (IsEvent 4
      → (after : Io Interest) × (register_event strict_epoll 3 0 4 8 true one_waits
          ≡ some (after, true))
        × Registered strict_epoll 0 0 4 8 one_waits after)
    × (4 ≢ epollin
        → 4 ≢ epollout
        → register_event strict_epoll 3 0 4 8 true one_waits ≡ some (one_waits, false))
register_event-Registered_example =
    register_event-Registered strict_epoll 3 0 4 8 0 true one_waits refl

register_then_unregister_example :
    (between after : Io Interest) × (register_event strict_epoll 3 0 4 8 true one_waits
      ≡ some (between, true))
    × (unregister_event strict_epoll 0 4 between ≡ some after)
    × (after.pending ≡ 1)
    × IsQuiet 4 (after.channels 0)
register_then_unregister_example =
    register_then_unregister strict_epoll 3 0 4 8 0 true one_waits refl (inr refl) (ground arith)

closed_while_waiting_example :
    (after : Io Interest) × (remove_channel strict_epoll 0 one_waits ≡ some after)
    × (after.pending ≡ 1)
    × IsSilent (after.channels 0)
    × ((event : ℕ) → unregister_event strict_epoll 0 event after ≡ none)
closed_while_waiting_example = closed_while_waiting strict_epoll 0 0 one_waits refl refl
