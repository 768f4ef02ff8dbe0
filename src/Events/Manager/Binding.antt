-- ===== src/Events/Manager/Binding.antt =====
-- koro/io_manager.cpp, `IOManager::bindTaskQueue`.
use koro.Prelude.{
  ℕ, ◌<◌, ◌≡◌, ◌≢◌, refl, sym, ap, ◌∙◌, Option, none, some, List, Option-cases, inl, inr, length,
  ◌>>=◌, update,
}
use mathlib.Core.Option.{some-injective}
use koro.Events.Channel.{new_channel}
use koro.Events.Table.{find, make_room_ends, find-set, find-set_ne}
use koro.Events.Manager.{Io, bind_task_queue, choose_queue, make_channel}

module _ {K : Type 0} (threads : ℕ) (current : Option ℕ) where
  -- What `bindTaskQueue(fd)` has done when it returns the channel at `c`.
  pub record Bound (fd : ℕ) (before after : Io K) (c : ℕ) : Type 0 where
    pub found : find after.chs fd ≡ some c
    pub others : (g : ℕ) → g ≢ fd → find after.chs g ≡ find before.chs g
    pub counted : after.pending ≡ before.pending
    pub same_epoll : after.epoll ≡ before.epoll
    pub old : (d : ℕ) → find before.chs fd ≡ some d → (c ≡ d) × (after.channels ≡ before.channels)
    pub fresh :
        find before.chs fd ≡ none
        → (c ≡ before.next)
          × (queue : ℕ) × (after.channels ≡ update before.channels c (new_channel fd queue))
          × ((q : ℕ) → current ≡ some q → queue ≡ q)

  choose_keeps :
      (cur : Option ℕ) (io : Io K)
      → ((choose_queue threads cur io).0.channels ≡ io.channels)
        × ((choose_queue threads cur io).0.next ≡ io.next)
        × ((choose_queue threads cur io).0.chs ≡ io.chs)
        × ((choose_queue threads cur io).0.pending ≡ io.pending)
        × ((choose_queue threads cur io).0.epoll ≡ io.epoll)
        × ((q : ℕ) → cur ≡ some q → (choose_queue threads cur io).1 ≡ q)
  unfolding choose_queue
  choose_keeps none io = (refl, refl, refl, refl, refl, λ q h. absurd (cc))
  choose_keeps (some p) io = (refl, refl, refl, refl, refl, λ q h. some-injective _ _ h)

  new_Bound :
      (fd : ℕ) (io chosen : Io K) (room : List (Option ℕ)) (queue : ℕ)
      → fd < length room
      → ((g : ℕ) → find room g ≡ find io.chs g)
      → find io.chs fd ≡ none
      → (chosen.channels ≡ io.channels)
        × (chosen.next ≡ io.next)
        × (chosen.chs ≡ room)
        × (chosen.pending ≡ io.pending)
        × (chosen.epoll ≡ io.epoll)
        × ((q : ℕ) → current ≡ some q → queue ≡ q)
      → Bound fd io (make_channel fd queue chosen).0 (make_channel fd queue chosen).1
  unfolding make_channel
  new_Bound fd io chosen room queue large same new (channels, next, chs, counted, epoll, own) =
      record {
        counted = counted;
        same_epoll = epoll;
        found = rw chs (find-set room fd (some chosen.next) large);
        others = λ g h. rw chs (find-set_ne room fd g (some chosen.next) h ∙ same g);
        old = λ d h. absurd (cc);
        fresh =
            λ h. (next, queue, ap (λ f. update f chosen.next (new_channel fd queue)) channels, own);
      }

  -- `bindTaskQueue` always returns: the channel that the table has for the descriptor, or else a new one,
  -- of the calling worker's queue if a worker calls; the table has it afterwards, no other entry has
  -- changed, and the count of pending events is as it was.
  pub bind_task_queue-Bound :
      (fd : ℕ) (io : Io K)
      → (after : Io K) × (c : ℕ) × (bind_task_queue threads current fd io ≡ some (after, c))
        × Bound fd io after c
  unfolding bind_task_queue
  bind_task_queue-Bound fd io =
      let (room, e, large, same) = make_room_ends 0 fd io.chs in
      elim (Option-cases (find room fd)) [
        | inl new ↦
            let roomy : Io K = record io { chs = room } in
            let (io', queue) = choose_queue threads current roomy in
            (
              (make_channel fd queue io').0,
              (make_channel fd queue io').1,
              rw (e, ◌>>=◌, new) refl,
              new_Bound fd io io' room queue large same (sym (same fd) ∙ new)
                  (choose_keeps current roomy),
            )
        | inr (c, old) ↦ (
          record io { chs = room },
          c,
          rw (e, ◌>>=◌, old) refl,
          record {
            found = old;
            counted = refl;
            same_epoll = refl;
            others = λ g h. same g;
            old = λ d h. (some-injective _ _ (sym old ∙ same fd ∙ h), refl);
            fresh = λ h. absurd (cc (same fd));
          },
        )
      ]
