-- ===== src/Hook/Wrapping.antt =====
-- koro/hook.cpp: the functions `read`, `write` and `accept` that stand before the system's, over `do_io`.
-- `init_hooks`, which looks up the system's functions at the first call, is left out: they are arguments.
pub mod Streaming
pub mod Delivery
mod Examples
use koro.Prelude.{ℕ, zero, suc, ◌+◌, Bool, Option, none, some, List, [], ◌∷◌, ◌>>=◌, length, drop}
use koro.Events.Bits.{epollin, epollout}
use koro.Events.Poller.{Epoll}
use koro.Events.Manager.{Io}
use koro.Fibers.{Thread}
use koro.Hook.{Ret, failed, count, after_failure}
use koro.Hook.Descriptor.{Fcntl}
use koro.Hook.Blocking.{Answer, done, error, World, Call, do_io}

-- The calling fiber's surroundings: the workers, the queue and the thread that it runs on, the callbacks
-- that it registers, whether a wait ends, and what happens meanwhile.
pub record Caller (S : Type 0) (K : Type 0) : Type 0 where
  pub threads : ℕ
  pub current : Option ℕ
  pub thread : Thread
  pub on_event : ℕ
  pub on_error : ℕ
  pub ends : S → Io K → Bool
  pub wait : S → S
  pub others : S → Io K → Io K

unfoldable pub hooked : {S K : Type 0} → Caller S K → ℕ → (S → S × Answer) → Call S K
hooked u event call = record {
  call = call;
  event = event;
  on_event = u.on_event;
  on_error = u.on_error;
  ends = u.ends;
  wait = u.wait;
  others = u.others;
}

unfoldable pub to_ret : Answer → Ret
to_ret (done n) = count n
to_ret (error errno) = failed

-- What the loop of `write` does with what a call has returned; `next` is the loop.
unfoldable pub continue :
    {W : Type 0} → (ℕ → W → List ℕ → Option (W × Ret)) → ℕ → List ℕ → W → Ret → Option (W × Ret)
continue next total bytes w failed = some (w, after_failure total)
continue next total bytes w (count zero) = some (w, count total)
continue next total bytes w (count (suc n)) = next (total + suc n) w (drop (suc n) bytes)

-- The loop of `write` over a call that may not return.
unfoldable pub write_rounds :
    {W : Type 0} → (W → List ℕ → Option (W × Answer)) → ℕ → ℕ → W → List ℕ → Option (W × Ret)
write_rounds call fuel total w [] = some (w, count total)
write_rounds call zero total w (b ∷ bytes) = none
write_rounds call (suc fuel) total w (b ∷ bytes) =
    call w (b ∷ bytes) >>= λ r. continue (write_rounds call fuel) total (b ∷ bytes) r.0 (to_ret r.1)

module _ {S : Type 0} {K : Type 0} (fc : Fcntl S) (ep : Epoll K) (u : Caller S K) (rounds : ℕ) where
  unfoldable pub do_call : ℕ → (S → ℕ → S × Answer) → ℕ → World S K → Option (World S K × Answer)
  do_call event call fd w =
      do_io fc ep (hooked u event (λ s. call s fd)) u.threads u.current u.thread rounds fd w

  -- `sys_read` takes the descriptor and the number of bytes.
  unfoldable pub read : (S → ℕ → ℕ → S × Answer) → ℕ → ℕ → World S K → Option (World S K × Answer)
  read sys_read fd nbytes w = do_call epollin (λ s f. sys_read s f nbytes) fd w

  unfoldable pub accept : (S → ℕ → S × Answer) → ℕ → World S K → Option (World S K × Answer)
  accept sys_accept fd w = do_call epollin sys_accept fd w

  unfoldable pub write :
      (S → ℕ → List ℕ → S × Answer) → ℕ → List ℕ → World S K → Option (World S K × Ret)
  write sys_write fd bytes w =
      write_rounds (λ v rest. do_call epollout (λ s f. sys_write s f rest) fd v) (length bytes) 0 w
        bytes
