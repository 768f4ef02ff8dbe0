-- ===== src/Pool/Workers.antt =====
-- koro/thread_pool.h and koro/thread_pool.cpp: the workers of the pool, those who submit tasks, and the
-- destructor, one lock section at a time. Tasks are known by numbers.
pub mod Sums
pub mod Conservation
pub mod Draining
mod Examples
use koro.Prelude.{
  ℕ, suc, ◌+◌, ◌%◌, ◌^◌, ◌<◌, ◌≡◌, ◌≢◌, ◌⊎◌, Bool, true, false, not, ◌||◌, List, [], ◌∷◌, ◌++◌,
  ◌==◌, update,
}

-- Where a worker stands.
pub data Pc : Type 0 where
  choosing : Pc  -- at the head of its loop
  stealing : Pc
  locking : Pc  -- it has stolen nothing and is about to lock its queue again
  waiting : Pc  -- on the condition variable
  running : ℕ → Pc
  returned : Pc

-- `queues` and `stop` are those of `data_`. `closing` counts the queues that the destructor has told to
-- stop. No fields of the program: `submitted` and `ran` list the tasks that were ever submitted and that
-- have been run, and `late` is set by a submission after the destructor has started.
pub record System : Type 0 where
  pub queues : ℕ → List ℕ
  pub stop : ℕ → Bool
  pub cur_id : ℕ
  pub closing : ℕ
  pub pc : ℕ → Pc
  pub submitted : List ℕ
  pub ran : List ℕ
  pub late : Bool

-- `submit`: the task goes to the queues in turn.
abbrev pub submitted_to : ℕ → ℕ → System → System
submitted_to n t s = record s {
  queues = update s.queues (s.cur_id % n) (s.queues (s.cur_id % n) ++ t ∷ []);
  cur_id = (s.cur_id + 1) % 2 ^ 64;
  submitted = t ∷ s.submitted;
  late = s.late || not (s.closing == 0);
}

-- A step of worker `i` of `n`, or of those who use the pool.
pub data Step (n : ℕ) (s : System) : System → Type 0 where
  take_own :
      (i t : ℕ) (rest : List ℕ)
      → i < n
      → s.pc i ≡ choosing
      → s.queues i ≡ t ∷ rest
      → Step n s (record s { queues = update s.queues i rest; pc = update s.pc i (running t) })
  own_empty :
      (i : ℕ)
      → i < n
      → s.pc i ≡ choosing
      → s.queues i ≡ []
      → s.stop i ≡ false
      → Step n s (record s { pc = update s.pc i stealing })
  leave :
      (i : ℕ)
      → i < n
      → s.pc i ≡ choosing
      → s.queues i ≡ []
      → s.stop i ≡ true
      → Step n s (record s { pc = update s.pc i returned })
  -- `stealTask` takes the last task of another queue, or finds each of the others empty or locked.
  steal :
      (i victim t : ℕ) (front : List ℕ)
      → i < n
      → victim < n
      → victim ≢ i
      → s.pc i ≡ stealing
      → s.queues victim ≡ front ++ t ∷ []
      → Step n s
          (record s { queues = update s.queues victim front; pc = update s.pc i (running t) })
  steal_none :
      (i : ℕ) → i < n → s.pc i ≡ stealing → Step n s (record s { pc = update s.pc i locking })
  sleep :
      (i : ℕ)
      → i < n
      → s.pc i ≡ locking
      → s.queues i ≡ []
      → s.stop i ≡ false
      → Step n s (record s { pc = update s.pc i waiting })
  stay_awake :
      (i : ℕ)
      → i < n
      → s.pc i ≡ locking
      → (s.queues i ≢ []) ⊎ (s.stop i ≡ true)
      → Step n s (record s { pc = update s.pc i choosing })
  wake :
      (i : ℕ)
      → i < n
      → s.pc i ≡ waiting
      → (s.queues i ≢ []) ⊎ (s.stop i ≡ true)
      → Step n s (record s { pc = update s.pc i choosing })
  run :
      (i t : ℕ)
      → i < n
      → s.pc i ≡ running t
      → Step n s (record s { pc = update s.pc i choosing; ran = t ∷ s.ran })
  submit : (t : ℕ) → s.cur_id % n < n → Step n s (submitted_to n t s)
  close_next :
      s.closing < n
      → Step n s (record s { stop = update s.stop s.closing true; closing = suc s.closing })

unfoldable pub init : System
init = record {
  queues = λ _. [];
  stop = λ _. false;
  cur_id = 0;
  closing = 0;
  pc = λ _. choosing;
  submitted = [];
  ran = [];
  late = false;
}

pub data Reach (n : ℕ) : System → Type 0 where
  start : Reach n init
  later : {s t : System} → Reach n s → Step n s t → Reach n t
