-- ===== src/Hook/Wrapping/Streaming.antt =====
-- koro/hook.cpp: `write` on a fiber against a `write` that blocks.
use koro.Prelude.{
  ℕ, zero, suc, ◌+◌, ◌^◌, ◌<◌, ◌≡◌, refl, sym, ap, subst, ◌∙◌, true, false, Option, none, some,
  List, [], ◌∷◌, if◌then◌else◌, arith, ◌>>=◌, length, drop,
}
use koro.Events.Channel.{Channel}
use koro.Events.Bits.{epollout}
use koro.Events.Poller.{Epoll}
use koro.Events.Manager.Binding.{bind_task_queue-Bound}
use koro.Events.Manager.Unregistration.{IsOpen}
use koro.Fibers.{Thread}
use koro.Hook.{Ret, failed, count}
use koro.Hook.Descriptor.{Fcntl, set_non_blocking}
use koro.Hook.Blocking.{Answer, World, Call, io_loop, make_non_blocking, is_plain, do_io}
use koro.Hook.Blocking.Looping.{blocking, IsSettled, Harmless, Agrees, io_loop-Agrees}
use koro.Hook.Blocking.Transparent.{
  OpenFor, Begun, do_io-blocking, looped_lem, make_non_blocking-IsSettled,
}
use koro.Hook.Wrapping.{Caller, hooked, to_ret, continue, write_rounds, do_call, write}

module _ {S : Type 0} {K : Type 0} (fc : Fcntl S) (ep : Epoll K) (op : Call S K) where
  -- From the second call on, the state of the kernel is not touched but by the system call.
  do_io-settled :
      (threads rounds fd c q : ℕ) (current : Option ℕ) (t : Thread) (w : World S K)
      → Harmless ep op fd
      → IsSettled ep fd c q w.io
      → w.io.pending < 2 ^ 64
      → is_plain t ≡ false
      → Agrees ep op
          (blocking op.call op.wait rounds w.sys)
          (do_io fc ep op threads current t rounds fd w)
          w.io.pending
          fd
          c
          q
  unfolding make_non_blocking
  do_io-settled threads rounds fd c q current t w h v small fib =
      let (after, d, e, b) = bind_task_queue-Bound threads current fd w.io in
      let (same, channels) = b.old c v.entry in
      let bound : World S K = record w { io = after } in
      let begun = make_non_blocking fc c fd bound in
      let (v', counted) =
        make_non_blocking-IsSettled fc ep op c fd q bound (b.found ∙ ap some same)
          (subst (λ (f : ℕ → Channel). IsOpen q (f c)) (sym channels) v.is_open)
          (rw (channels, b.same_epoll) v.listed) in
      let mode : (after.channels c).sys_non_block ≡ true =
        ap (λ (f : ℕ → Channel). (f c).sys_non_block) channels ∙ v.marked in
      let sys : begun.sys ≡ w.sys =
        ap (λ on. if on then w.sys else (set_non_blocking fc w.sys fd true).0) mode in
      let loop = io_loop ep op rounds c begun in
      let counts : begun.io.pending ≡ w.io.pending = counted ∙ b.counted in
      rw
        (looped_lem fc ep op threads rounds fd c current t w after fib
          (e ∙ ap (λ x. some (after, x)) same))
        (subst (λ s. Agrees ep op (blocking op.call op.wait rounds s) loop w.io.pending fd c q) sys
          (subst (λ n. Agrees ep op (blocking op.call op.wait rounds begun.sys) loop n fd c q)
            counts (io_loop-Agrees ep op rounds fd c q begun h v' (omega (arith, counts)))))

module _ {S : Type 0} {K : Type 0} (ep : Epoll K) where
  -- As `Agrees`, for a write.
  abbrev pub Streams : Option (S × Ret) → Option (World S K × Ret) → ℕ → ℕ → ℕ → ℕ → Type 0
  Streams none o n fd c q = o ≡ none
  Streams (some (s, r)) o n fd c q =
      (w : World S K) × (o ≡ some (w, r))
      × (w.sys ≡ s)
      × (w.io.pending ≡ n)
      × IsSettled ep fd c q w.io

  -- Two loops that agree wherever they are in the same state.
  abbrev Follows :
      (ℕ → S → List ℕ → Option (S × Ret))
      → (ℕ → World S K → List ℕ → Option (World S K × Ret))
      → ℕ
      → ℕ
      → ℕ
      → ℕ
      → Type 0
  Follows next next' n fd c q =
      (total : ℕ) (w : World S K) (bytes : List ℕ)
      → w.io.pending ≡ n
      → IsSettled ep fd c q w.io
      → Streams (next total w.sys bytes) (next' total w bytes) n fd c q

  continue-Streams :
      (next : ℕ → S → List ℕ → Option (S × Ret))
      (next' : ℕ → World S K → List ℕ → Option (World S K × Ret)) (n fd c q total : ℕ)
      (bytes : List ℕ) (w : World S K) (r : Ret)
      → Follows next next' n fd c q
      → w.io.pending ≡ n
      → IsSettled ep fd c q w.io
      → Streams (continue next total bytes w.sys r) (continue next' total bytes w r) n fd c q
  unfolding continue
  continue-Streams next next' n fd c q total bytes w failed f p v = (w, refl, refl, p, v)
  continue-Streams next next' n fd c q total bytes w (count zero) f p v = (w, refl, refl, p, v)
  continue-Streams next next' n fd c q total bytes w (count (suc k)) f p v =
      f (total + suc k) w (drop (suc k) bytes) p v

  -- Behind a call that agrees with the blocking one.
  called-Streams :
      (op : Call S K) (next : ℕ → S → List ℕ → Option (S × Ret))
      (next' : ℕ → World S K → List ℕ → Option (World S K × Ret)) (n fd c q total : ℕ)
      (bytes : List ℕ) (o : Option (S × Answer)) (o' : Option (World S K × Answer))
      → Follows next next' n fd c q
      → Agrees ep op o o' n fd c q
      → Streams
          (o >>= λ r. continue next total bytes r.0 (to_ret r.1))
          (o' >>= λ r. continue next' total bytes r.0 (to_ret r.1))
          n
          fd
          c
          q
  called-Streams op next next' n fd c q total bytes none o' f a =
      ap (λ x. x >>= λ r. continue next' total bytes r.0 (to_ret r.1)) a
  called-Streams op next next' n fd c q total bytes (some (s, r)) o' f (w, e, sys, p, v) =
      let go = λ (x : S). continue next total bytes x (to_ret r) in
      let go' = λ (r : World S K × Answer). continue next' total bytes r.0 (to_ret r.1) in
      subst (λ x. Streams (go s) (x >>= go') n fd c q) (sym e)
        (subst (λ x. Streams (go x) (go' (w, r)) n fd c q) sys
          (continue-Streams next next' n fd c q total bytes w (to_ret r) f p v))

module _ {S : Type 0} {K : Type 0} (fc : Fcntl S) (ep : Epoll K) (u : Caller S K) (rounds : ℕ)
    (sys_write : S → ℕ → List ℕ → S × Answer) (fd : ℕ) where
  -- One `write` of the system that blocks.
  abbrev pub blocking_write : S → List ℕ → Option (S × Answer)
  blocking_write s rest = blocking (λ x. sys_write x fd rest) u.wait rounds s

  abbrev hooked_write : World S K → List ℕ → Option (World S K × Answer)
  hooked_write w rest = do_call fc ep u rounds epollout (λ s f. sys_write s f rest) fd w

  -- What the fiber's calls rely on, whatever they write.
  abbrev pub AreHarmless : Type 0
  AreHarmless = (call : S → S × Answer) → Harmless ep (hooked u epollout call) fd

  write_rounds-Streams :
      (fuel n c q : ℕ)
      → AreHarmless
      → is_plain u.thread ≡ false
      → n < 2 ^ 64
      → Follows ep (write_rounds blocking_write fuel) (write_rounds hooked_write fuel) n fd c q
  unfolding write_rounds do_call hooked
  write_rounds-Streams fuel n c q h fib small total w [] p v = (w, refl, refl, p, v)
  write_rounds-Streams zero n c q h fib small total w (b ∷ bytes) p v = refl
  write_rounds-Streams (suc fuel) n c q h fib small total w (b ∷ bytes) p v =
      let op = hooked u epollout (λ s. sys_write s fd (b ∷ bytes)) in
      let first = do_io fc ep op u.threads u.current u.thread rounds fd w in
      called-Streams ep op (write_rounds blocking_write fuel) (write_rounds hooked_write fuel) n fd
        c q total (b ∷ bytes) (blocking_write w.sys (b ∷ bytes)) first
        (write_rounds-Streams fuel n c q h fib small)
        (subst (λ m. Agrees ep op (blocking_write w.sys (b ∷ bytes)) first m fd c q) p
          (do_io-settled fc ep op u.threads rounds fd c q u.current u.thread w (h op.call) v
            (omega arith) fib))

  -- `write` of at least one byte on a fiber, for a descriptor that nobody closes and that the program has
  -- not made non-blocking, is the same loop over a `write` that blocks, on a descriptor that has been made
  -- non-blocking: it returns when that does, with the same count and in the same state of the kernel, and
  -- it leaves the count of pending events as it was, under the assumptions of `do_io-blocking`.
  pub write-Streams :
      (b : ℕ) (bytes : List ℕ) (w : World S K)
      → AreHarmless
      → ((call : S → S × Answer) → OpenFor fc ep (hooked u epollout call) fd w.io)
      → w.io.pending < 2 ^ 64
      → is_plain u.thread ≡ false
      → (s : S) × (c : ℕ) × (q : ℕ) × Begun fc ep
          (hooked u epollout (λ x. sys_write x fd (b ∷ bytes)))
          fd
          w
          s
        × Streams ep
            (write_rounds blocking_write (length (b ∷ bytes)) 0 s (b ∷ bytes))
            (write fc ep u rounds sys_write fd (b ∷ bytes) w)
            w.io.pending
            fd
            c
            q
  unfolding write write_rounds do_call hooked
  write-Streams b bytes w h tbl small fib =
      let op = hooked u epollout (λ s. sys_write s fd (b ∷ bytes)) in
      let (s, c, q, begun, first) =
        do_io-blocking fc ep op u.threads rounds fd u.current u.thread w (h op.call) (tbl op.call)
          small fib in
      (
        s,
        c,
        q,
        begun,
        called-Streams ep op (write_rounds blocking_write (length bytes))
            (write_rounds hooked_write (length bytes)) w.io.pending fd c q 0 (b ∷ bytes)
            (blocking_write s (b ∷ bytes)) (do_io fc ep op u.threads u.current u.thread rounds fd w)
            (write_rounds-Streams (length bytes) w.io.pending c q h fib small) first,
      )
