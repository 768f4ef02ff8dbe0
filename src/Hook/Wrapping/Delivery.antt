-- ===== src/Hook/Wrapping/Delivery.antt =====
-- koro/hook.cpp: what `write` on a fiber has written when it returns.
use koro.Prelude.{
  ℕ, zero, suc, ◌+◌, ◌^◌, ◌<◌, ◌≡◌, refl, sym, ap, subst, ◌∙◌, false, some, List, [], ◌∷◌, ◌>>=◌,
  length, drop, arith, inl, inr,
}
use koro.Events.Bits.{epollout}
use koro.Events.Poller.{Epoll}
use koro.Hook.{Ret, Writer, write_loop}
use koro.Hook.Descriptor.{Fcntl}
use koro.Hook.Writing.{Wrote, write_loop-Wrote, Ret-cases}
use koro.Hook.Blocking.{Answer, World, is_plain}
use koro.Hook.Blocking.Transparent.{OpenFor, Begun}
use koro.Hook.Wrapping.{Caller, hooked, to_ret, continue, write_rounds, write}
use koro.Hook.Wrapping.Streaming.{blocking_write, AreHarmless, Streams, write-Streams}

module _ {S : Type 0} {K : Type 0} (fc : Fcntl S) (ep : Epoll K) (u : Caller S K) (rounds : ℕ)
    (sys_write : S → ℕ → List ℕ → S × Answer) (fd : ℕ) (wr : Writer S) where
  -- The system's `write` that blocks returns within the rounds, and is the call of `wr`.
  abbrev pub Implements : Type 0
  Implements =
      (s : S) (rest : List ℕ)
      → (r : Answer) × (blocking_write fc ep u rounds sys_write fd s rest
          ≡ some ((wr.call s rest).0, r))
        × (to_ret r ≡ (wr.call s rest).1)

  -- Both loops behind the same call.
  continue-write_loop :
      (fuel total b : ℕ) (bytes : List ℕ) (s : S)
      → ((total : ℕ) (s : S) (rest : List ℕ)
          → write_rounds (blocking_write fc ep u rounds sys_write fd) fuel total s rest
            ≡ write_loop wr fuel total s rest)
      → continue
          (write_rounds (blocking_write fc ep u rounds sys_write fd) fuel)
          total
          (b ∷ bytes)
          (wr.call s (b ∷ bytes)).0
          (wr.call s (b ∷ bytes)).1
        ≡ write_loop wr (suc fuel) total s (b ∷ bytes)
  unfolding continue write_loop
  continue-write_loop fuel total b bytes s same = elim (Ret-cases (wr.call s (b ∷ bytes)).1) [
    | inl e ↦ rw (write_loop, continue, e) refl
    | inr (inl e) ↦ rw (write_loop, continue, e) refl
    | inr (inr (n, e)) ↦
        rw (write_loop, continue, e)
          (same (total + suc n) (wr.call s (b ∷ bytes)).0 (drop (suc n) (b ∷ bytes)))
  ]

  write_rounds-write_loop :
      (fuel : ℕ)
      → Implements
      → (total : ℕ) (s : S) (bytes : List ℕ)
      → write_rounds (blocking_write fc ep u rounds sys_write fd) fuel total s bytes
        ≡ write_loop wr fuel total s bytes
  unfolding write_rounds write_loop
  write_rounds-write_loop fuel i total s [] = refl
  write_rounds-write_loop zero i total s (b ∷ bytes) = refl
  write_rounds-write_loop (suc fuel) i total s (b ∷ bytes) =
      let (r, e, same) = i s (b ∷ bytes) in
      let next = write_rounds (blocking_write fc ep u rounds sys_write fd) fuel in
      ap (λ o. o >>= λ x. continue next total (b ∷ bytes) x.0 (to_ret x.1)) e
      ∙ ap (continue next total (b ∷ bytes) (wr.call s (b ∷ bytes)).0) same
      ∙ continue-write_loop fuel total b bytes s (write_rounds-write_loop fuel i)

  -- `write` of at least one byte on a fiber, for a descriptor that nobody closes and that the program has
  -- not made non-blocking, returns, if the system's `write` that blocks does within the rounds that each
  -- call is given. It has written the first `k` of the bytes and returns `k`, or it has written nothing and
  -- returns -1. It has called on for what remained, each call writing some of it, until nothing remained or
  -- a last call for all that remained has failed or has written nothing. It leaves the count of pending
  -- events as it was. It is assumed that epoll refuses no change for the descriptor, that the fiber is
  -- resumed some time if its callback is registered and epoll watches the descriptor for the event, and
  -- that the fibers that run meanwhile are harmless.
  pub write-Delivers :
      (b : ℕ) (bytes : List ℕ) (w : World S K)
      → Implements
      → AreHarmless fc ep u rounds sys_write fd
      → ((call : S → S × Answer) → OpenFor fc ep (hooked u epollout call) fd w.io)
      → w.io.pending < 2 ^ 64
      → is_plain u.thread ≡ false
      → (after : World S K) × (ret : Ret) × (write fc ep u rounds sys_write fd (b ∷ bytes) w
          ≡ some (after, ret))
        × (s : S) × Begun fc ep (hooked u epollout (λ x. sys_write x fd (b ∷ bytes))) fd w s
        × Wrote wr 0 s (b ∷ bytes) (some (after.sys, ret))
        × (after.io.pending ≡ w.io.pending)
  write-Delivers b bytes w i h tbl small fib =
      let n = length (b ∷ bytes) in
      let (s, c, q, begun, streams) =
        write-Streams fc ep u rounds sys_write fd b bytes w h tbl small fib in
      let wrote = write_loop-Wrote wr n 0 s (b ∷ bytes) (omega arith) in
      let same = write_rounds-write_loop n i 0 s (b ∷ bytes) ∙ wrote.returns in
      let (after, e, sys, counted, settled) =
        subst
          (λ o. Streams ep o (write fc ep u rounds sys_write fd (b ∷ bytes) w) w.io.pending fd c q)
          same streams in
      (
        after,
        wrote.ret,
        e,
        s,
        begun,
        subst (λ x. Wrote wr 0 s (b ∷ bytes) (some (x, wrote.ret))) (sym sys)
            (subst (Wrote wr 0 s (b ∷ bytes)) wrote.returns wrote),
        counted,
      )
