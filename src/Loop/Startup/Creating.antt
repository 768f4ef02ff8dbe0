-- ===== src/Loop/Startup/Creating.antt =====
-- koro/file_descriptor.h: the new descriptors of `onInit`, and the end of the process where one cannot be had.
use koro.Prelude.{
  ℕ, zero, suc, ◌+◌, ◌<◌, ◌≡◌, refl, ap, subst, Option, none, some, List, [], ◌∷◌, arith, inl, inr,
  get_elem?, length, ◌⊎◌, ◌⊎◌,
}
use mathlib.Core.Option.{some-injective}
use koro.Timers.{Timer}
use koro.Events.Poller.{Epoll}
use koro.Loop.Startup.{TaskQueue, Resources, on_init}

-- What a function leaves that may call `exit`.
pub data Process {ℓ} (A : Type ℓ) : Type ℓ where
  goes_on : A → Process A
  exited : Process A

infixl 5 ◌>>=◌
abbrev pub ◌>>=◌ {ℓ κ} : {A : Type ℓ} {B : Type κ} → Process A → (A → Process B) → Process B
goes_on a >>= f = f a
exited >>= f = exited

-- `createEventFd`, `createEpollFd` and `createTimerFd`, over what the system call has returned.
unfoldable pub create_event_fd : {A : Type 0} → Option A → Process A
create_event_fd none = exited
create_event_fd (some fd) = goes_on fd

unfoldable pub create_epoll_fd : {A : Type 0} → Option A → Process A
create_epoll_fd none = exited
create_epoll_fd (some fd) = goes_on fd

unfoldable pub create_timer_fd : {A : Type 0} → Option A → Process A
create_timer_fd none = exited
create_timer_fd (some fd) = goes_on fd

-- What the three calls return for each queue: an instance, which is new, and two descriptors.
pub record Answers (K : Type 0) : Type 0 where
  pub epoll_create1 : ℕ → Option K
  pub eventfd : ℕ → Option ℕ
  pub timerfd_create : ℕ → Option ℕ

-- The memory of the timers, and the callback of each queue's channel.
pub record Memory : Type 0 where
  pub trigger : ℕ → ℕ
  pub heap : ℕ → Timer
  pub next : ℕ

unfoldable pub resources_of : {K : Type 0} → Memory → K → ℕ → ℕ → Resources K
resources_of m k event_fd timer_fd = record {
  instance_of = λ _. k;
  event_fd = λ _. event_fd;
  timer_fd = λ _. timer_fd;
  trigger = m.trigger;
  heap = m.heap;
  next = m.next;
}

-- One round of the loop of `onInit`, in the order of its calls.
unfoldable pub create_queue :
    {K : Type 0} → Epoll K → Answers K → Memory → ℕ → Process (TaskQueue K)
create_queue ep a m q = do
  k ← create_epoll_fd (a.epoll_create1 q)
  event_fd ← create_event_fd (a.eventfd q)
  timer_fd ← create_timer_fd (a.timerfd_create q)
  goes_on (on_init ep (resources_of m k event_fd timer_fd) q)

-- `left` queues from `q` on.
unfoldable pub create_queues :
    {K : Type 0} → Epoll K → Answers K → Memory → ℕ → ℕ → Process (List (TaskQueue K))
create_queues ep a m zero q = goes_on []
create_queues ep a m (suc left) q = do
  tq ← create_queue ep a m q
  rest ← create_queues ep a m left (suc q)
  goes_on (tq ∷ rest)

module _ {K : Type 0} (ep : Epoll K) (a : Answers K) (m : Memory) where
  -- All three descriptors of a queue, and the queue that is made of them.
  pub record Has (q : ℕ) (tq : TaskQueue K) : Type 0 where
    pub k : K
    pub event_fd : ℕ
    pub timer_fd : ℕ
    pub epoll_created : a.epoll_create1 q ≡ some k
    pub event_created : a.eventfd q ≡ some event_fd
    pub timer_created : a.timerfd_create q ≡ some timer_fd
    pub made : tq ≡ on_init ep (resources_of m k event_fd timer_fd) q

  -- A call of the queue has failed.
  abbrev pub Fails : ℕ → Type 0
  Fails q = (a.epoll_create1 q ≡ none) ⊎ (a.eventfd q ≡ none) ⊎ (a.timerfd_create q ≡ none)

  abbrev One : ℕ → Process (TaskQueue K) → Type 0
  One q exited = Fails q
  One q (goes_on tq) = Has q tq

  -- Each queue from `q` on has what it needs, or the process has ended at one that has not.
  abbrev pub Outcome : ℕ → ℕ → Process (List (TaskQueue K)) → Type 0
  Outcome left q exited = (j : ℕ) × (j < left) × Fails (q + j)
  Outcome left q (goes_on tqs) =
      (length tqs ≡ left)
      × ((j : ℕ) (tq : TaskQueue K) → get_elem? tqs j ≡ some tq → Has (q + j) tq)

  queue_from : ℕ → Option K → Option ℕ → Option ℕ → Process (TaskQueue K)
  queue_from q created event timer = do
    k ← create_epoll_fd created
    event_fd ← create_event_fd event
    timer_fd ← create_timer_fd timer
    goes_on (on_init ep (resources_of m k event_fd timer_fd) q)

  queue_from-One :
      (q : ℕ) (created : Option K) (event timer : Option ℕ)
      → a.epoll_create1 q ≡ created
      → a.eventfd q ≡ event
      → a.timerfd_create q ≡ timer
      → One q (queue_from q created event timer)
  unfolding queue_from create_epoll_fd create_event_fd create_timer_fd
  queue_from-One q none event timer e f g = inl e
  queue_from-One q (some k) none timer e f g = inr (inl f)
  queue_from-One q (some k) (some event_fd) none e f g = inr (inr g)
  queue_from-One q (some k) (some event_fd) (some timer_fd) e f g = record {
    k = k;
    event_fd = event_fd;
    timer_fd = timer_fd;
    epoll_created = e;
    event_created = f;
    timer_created = g;
    made = refl;
  }

  create_queue-One : (q : ℕ) → One q (create_queue ep a m q)
  unfolding create_queue queue_from
  create_queue-One q =
      queue_from-One q (a.epoll_create1 q) (a.eventfd q) (a.timerfd_create q) refl refl refl

  both-Outcome :
      (left q : ℕ) (r : Process (TaskQueue K)) (rest : Process (List (TaskQueue K)))
      → One q r
      → Outcome left (suc q) rest
      → Outcome (suc left) q (r >>= λ tq. rest >>= λ tqs. goes_on (tq ∷ tqs))
  both-Outcome left q exited rest one others = (0, omega arith, subst Fails (omega arith) one)
  both-Outcome left q (goes_on tq) exited one (j, h, fails) =
      (suc j, omega arith, subst Fails (omega arith) fails)
  both-Outcome left q (goes_on tq) (goes_on tqs) one (n, all) = (ap suc n, each)
    where
      each : (j : ℕ) (u : TaskQueue K) → get_elem? (tq ∷ tqs) j ≡ some u → Has (q + j) u
      each zero u e = subst (λ i. Has i u) (omega arith) (subst (Has q) (some-injective _ _ e) one)
      each (suc j) u e = subst (λ i. Has i u) (omega arith) (all j u e)

  -- `onInit` makes each of its queues, in order, of three new descriptors of its own, as the start of
  -- the event manager assumes; or the process has ended, because a call for some queue has failed.
  pub create_queues-Outcome : (left q : ℕ) → Outcome left q (create_queues ep a m left q)
  unfolding create_queues
  create_queues-Outcome zero q = (refl, λ j tq h. absurd (cc))
  create_queues-Outcome (suc left) q =
      both-Outcome left q (create_queue ep a m q) (create_queues ep a m left (suc q))
        (create_queue-One q) (create_queues-Outcome left (suc q))
