-- ===== src/Events/Poller.antt =====
-- koro/epoll_poller.cpp, and what it relies on of the kernel.
use koro.Prelude.{
  ℕ, ◌≡◌, ◌*◌, Bool, true, false, Option, none, some, List, ◌++◌, if◌then◌else◌, ◌==◌, length,
  update,
}
use koro.Events.Channel.{Channel}

-- `epoll_ctl` on an instance whose state is `K`: the state behind the call, and whether it returned 0.
-- `watched` is the interest list, which a call that succeeds changes as epoll_ctl(2) says and a call
-- that fails leaves as it is.
pub record Epoll (K : Type 0) : Type 0 where
  pub add : K → ℕ → ℕ → K × Bool
  pub modify : K → ℕ → ℕ → K × Bool
  pub delete : K → ℕ → K × Bool
  pub watched : K → ℕ → Option ℕ
  pub add_ok :
      (k : K) (fd ev : ℕ)
      → (add k fd ev).1 ≡ true
      → watched (add k fd ev).0 ≡ update (watched k) fd (some ev)
  pub add_failed :
      (k : K) (fd ev : ℕ) → (add k fd ev).1 ≡ false → watched (add k fd ev).0 ≡ watched k
  pub modify_ok :
      (k : K) (fd ev : ℕ)
      → (modify k fd ev).1 ≡ true
      → watched (modify k fd ev).0 ≡ update (watched k) fd (some ev)
  pub modify_failed :
      (k : K) (fd ev : ℕ) → (modify k fd ev).1 ≡ false → watched (modify k fd ev).0 ≡ watched k
  pub delete_ok :
      (k : K) (fd : ℕ)
      → (delete k fd).1 ≡ true
      → watched (delete k fd).0 ≡ update (watched k) fd none
  pub delete_failed :
      (k : K) (fd : ℕ) → (delete k fd).1 ≡ false → watched (delete k fd).0 ≡ watched k

-- The call that `updateChannel` makes.
unfoldable pub update_ctl : {K : Type 0} → Epoll K → K → Channel → K × Bool
update_ctl ep k ch = if ch.in_epoll then ep.modify k ch.fd ch.events else ep.add k ch.fd ch.events

unfoldable pub update_channel : {K : Type 0} → Epoll K → K → Channel → K × Channel
update_channel ep k ch =
    let (k', ok) = update_ctl ep k ch in
    (k', if ch.in_epoll then ch else if ok then record ch { in_epoll = true } else ch)

-- `none` is the failed assertion.
unfoldable pub remove_channel : {K : Type 0} → Epoll K → K → Channel → Option (K × Channel)
remove_channel ep k ch =
    let (k', ok) = ep.delete k ch.fd in
    if ch.in_epoll then some (k', if ok then record ch { in_epoll = false } else ch) else none

-- What `epoll_wait` returned: -1, or events, no more than the buffer holds.
pub data Wait : Type 0 where
  failed : Wait
  ready : List (ℕ × ℕ) → Wait

-- `poll`, on the size of the buffer `evs_`: the new active events, and the buffer's size behind it.
unfoldable pub poll : ℕ → Wait → List (ℕ × ℕ) → List (ℕ × ℕ) × ℕ
poll size failed active = (active, size)
poll size (ready evs) active = (active ++ evs, if length evs == size then size * 2 else size)
