-- ===== src/Hook/Blocking/Transparent.antt =====
-- koro/hook.cpp: `do_io` on a fiber against a system call that blocks.
use koro.Prelude.{
  ℕ, ◌^◌, ◌<◌, ◌≡◌, refl, sym, ap, subst, ◌∙◌, true, false, Option, none, some, Bool-cases,
  Option-cases, inl, inr, arith, ◌⊎◌, ◌>>=◌, update_self,
}
use koro.Events.Channel.{Channel, new_channel}
use koro.Events.Poller.{Epoll}
use koro.Events.Table.{find}
use koro.Events.Manager.{Io, bind_task_queue}
use koro.Events.Manager.Binding.{Bound, bind_task_queue-Bound}
use koro.Events.Manager.Unregistration.{IsOpen}
use koro.Events.Manager.Listed.{Listed}
use koro.Fibers.{Thread}
use koro.Hook.Descriptor.{Fcntl, set_non_blocking}
use koro.Hook.Blocking.{World, Call, io_loop, mark_non_block, make_non_blocking, is_plain, do_io}
use koro.Hook.Blocking.Looping.{blocking, IsSettled, Harmless, Agrees, io_loop-Agrees}

IsOpen-mark :
    {K : Type 0} (c q : ℕ) (io : Io K)
    → IsOpen q (io.channels c)
    → IsOpen q ((mark_non_block c io).channels c)
unfolding mark_non_block
IsOpen-mark c q io v =
    subst (IsOpen q)
      (sym (update_self io.channels c (record (io.channels c) { sys_non_block = true })))
      (record { queue = v.queue; blocking = v.blocking })

pending-mark : {K : Type 0} (c : ℕ) (io : Io K) → (mark_non_block c io).pending ≡ io.pending
unfolding mark_non_block
pending-mark c io = refl

-- The descriptor of a fresh channel becomes non-blocking.
new_channel-sys : (fd queue : ℕ) → (new_channel fd queue).sys_non_block ≡ false
unfolding new_channel
new_channel-sys fd queue = refl

new_channel-IsOpen : (fd queue : ℕ) → IsOpen queue (new_channel fd queue)
unfolding new_channel
new_channel-IsOpen fd queue = record { queue = refl; blocking = refl }

Listed-mark :
    {K : Type 0} (ep : Epoll K) (fd c q : ℕ) (io : Io K)
    → Listed ep fd (io.epoll q) (io.channels c)
    → Listed ep fd ((mark_non_block c io).epoll q) ((mark_non_block c io).channels c)
unfolding mark_non_block
Listed-mark ep fd c q io v =
    subst (Listed ep fd (io.epoll q))
      (sym (update_self io.channels c (record (io.channels c) { sys_non_block = true })))
      (record { own = v.own; present = v.present; missing = v.missing })

new_channel-Listed :
    {K : Type 0} (ep : Epoll K) (fd queue : ℕ) (k : K)
    → ep.watched k fd ≡ none
    → Listed ep fd k (new_channel fd queue)
unfolding new_channel
new_channel-Listed ep fd queue k w = record {
  own = refl;
  present = λ h. absurd (cc);
  missing = λ _. w;
}

module _ {S : Type 0} {K : Type 0} (fc : Fcntl S) (ep : Epoll K) (op : Call S K) where
  -- The channel of the descriptor in the table has a queue, says rightly whether epoll has the descriptor
  -- in its list, and the program has not made it non-blocking; epoll watches no descriptor without a
  -- channel in the table.
  pub record OpenFor (fd : ℕ) (io : Io K) : Type 0 where
    pub known :
        (d : ℕ)
        → find io.chs fd ≡ some d
        → (q : ℕ) × IsOpen q (io.channels d) × Listed ep fd (io.epoll q) (io.channels d)
    pub unknown : find io.chs fd ≡ none → (q : ℕ) → ep.watched (io.epoll q) fd ≡ none

  -- The state in which the loop starts.
  abbrev pub Begun : ℕ → World S K → S → Type 0
  Begun fd w s =
      ((s ≡ w.sys) ⊎ (s ≡ (set_non_blocking fc w.sys fd true).0))
      × (find w.io.chs fd ≡ none → s ≡ (set_non_blocking fc w.sys fd true).0)

  Bound-IsOpen :
      (threads : ℕ) (current : Option ℕ) (fd c : ℕ) (io after : Io K)
      → OpenFor fd io
      → Bound threads current fd io after c
      → (q : ℕ) × IsOpen q (after.channels c) × Listed ep fd (after.epoll q) (after.channels c)
  Bound-IsOpen threads current fd c io after tbl b = elim (Option-cases (find io.chs fd)) [
    | inl new ↦
        let (e, queue, channels, own) = b.fresh new in
        let same = sym (update_self io.channels c (new_channel fd queue)) in
        (
          queue,
          rw channels (subst (IsOpen queue) same (new_channel-IsOpen fd queue)),
          rw (channels, b.same_epoll)
              (subst (Listed ep fd (io.epoll queue)) same
                (new_channel-Listed ep fd queue (io.epoll queue) (tbl.unknown new queue))),
        )
    | inr (d, old) ↦
        let (same, channels) = b.old d old in
        let (q, v, l) = tbl.known d old in
        (q, rw (channels, same) v, rw (channels, same, b.same_epoll) l)
  ]

  Begun-make :
      (threads : ℕ) (current : Option ℕ) (fd c : ℕ) (w : World S K) (after : Io K)
      → Bound threads current fd w.io after c
      → Begun fd w (make_non_blocking fc c fd (record w { io = after })).sys
  unfolding make_non_blocking
  Begun-make threads current fd c w after b = (
    elim (Bool-cases (after.channels c).sys_non_block) [
      | inl e ↦ inl (rw e refl)
      | inr e ↦ inr (rw e refl)
    ],
    λ new.
        let (e, queue, channels, own) = b.fresh new in
        let unused : (after.channels c).sys_non_block ≡ false = rw channels (
          ap (λ ch. ch.sys_non_block) (update_self w.io.channels c (new_channel fd queue))
          ∙ new_channel-sys fd queue) in
        rw unused refl,
  )

  pub looped_lem :
      (threads fuel fd c : ℕ) (current : Option ℕ) (t : Thread) (w : World S K) (after : Io K)
      → is_plain t ≡ false
      → bind_task_queue threads current fd w.io ≡ some (after, c)
      → do_io fc ep op threads current t fuel fd w
        ≡ io_loop ep op fuel c (make_non_blocking fc c fd (record w { io = after }))
  unfolding do_io
  looped_lem threads fuel fd c current t w after fib e = rw (fib, e, ◌>>=◌) refl

  pub make_non_blocking-IsSettled :
      (c fd q : ℕ) (w : World S K)
      → find w.io.chs fd ≡ some c
      → IsOpen q (w.io.channels c)
      → Listed ep fd (w.io.epoll q) (w.io.channels c)
      → IsSettled ep fd c q (make_non_blocking fc c fd w).io
        × ((make_non_blocking fc c fd w).io.pending ≡ w.io.pending)
  unfolding make_non_blocking mark_non_block
  make_non_blocking-IsSettled c fd q w entry v l = (
    record {
      entry = entry;
      is_open = IsOpen-mark c q w.io v;
      listed = Listed-mark ep fd c q w.io l;
      marked =
          ap (λ (ch : Channel). ch.sys_non_block)
            (update_self w.io.channels c (record (w.io.channels c) { sys_non_block = true }));
    },
    pending-mark c w.io,
  )

  -- `do_io` on a fiber, for a descriptor that nobody closes and that the program has not made
  -- non-blocking, is the blocking call on a descriptor that has been made non-blocking: for any number of
  -- rounds it returns when the blocking call does, with the same answer and in the same state of
  -- the kernel, it leaves the count of pending events as it was, and the descriptor has its channel in
  -- the table. It is assumed that epoll refuses no change for the descriptor, that a fiber is resumed
  -- some time if its callback is registered and epoll watches the descriptor for the event, and that
  -- the fibers that run meanwhile are harmless.
  pub do_io-blocking :
      (threads fuel fd : ℕ) (current : Option ℕ) (t : Thread) (w : World S K)
      → Harmless ep op fd
      → OpenFor fd w.io
      → w.io.pending < 2 ^ 64
      → is_plain t ≡ false
      → (s : S) × (c : ℕ) × (q : ℕ) × Begun fd w s
        × Agrees ep op
            (blocking op.call op.wait fuel s)
            (do_io fc ep op threads current t fuel fd w)
            w.io.pending
            fd
            c
            q
  do_io-blocking threads fuel fd current t w h tbl small fib =
      let (after, c, e, b) = bind_task_queue-Bound threads current fd w.io in
      let (q, v, l) = Bound-IsOpen threads current fd c w.io after tbl b in
      let begun = make_non_blocking fc c fd (record w { io = after }) in
      let reference = blocking op.call op.wait fuel begun.sys in
      let (v', same) = make_non_blocking-IsSettled c fd q (record w { io = after }) b.found v l in
      (
        begun.sys,
        c,
        q,
        Begun-make threads current fd c w after b,
        rw (looped_lem threads fuel fd c current t w after fib e) (
            subst (λ n. Agrees ep op reference (io_loop ep op fuel c begun) n fd c q)
              (same ∙ b.counted)
              (io_loop-Agrees ep op fuel fd c q begun h v' (omega (arith, same, b.counted)))),
      )
