-- ===== src/Elog/AsyncLogging/System.antt =====
-- elog/async_logging.cpp: any number of callers and the worker, interleaved. A step is what runs
-- without another thread in between: a section under the mutex, or code on a thread's own variables.
use koro.Prelude.{ℕ, suc, ◌+◌, ◌≡◌, true, false, some, List, [], ◌∷◌, ◌++◌}
use koro.Elog.Context.{Context}
use koro.Elog.AsyncLogging.{
  Shared, Worker, init_shared, init_worker, push_locked, collect, write_round,
}

-- Where `threadWorker` stands.
pub data Pc : Type 0 where
  top : Pc  -- at the test of the `while`
  collecting : Pc  -- in the loop, before the section under the lock
  writing : Pc  -- behind the section under the lock
  finished : Pc

-- `checked` counts the callers that have passed the test of `done_` and not yet locked the mutex;
-- `sent` lists the records whose `pushMessage` has returned from its section, oldest first.
pub record System : Type 0 where
  pub shared : Shared
  pub worker : Worker
  pub pc : Pc
  pub checked : ℕ
  pub sent : List Context

unfoldable pub init : ℕ → ℕ → System
init n now = record {
  shared = init_shared n now;
  worker = init_worker n now;
  pc = top;
  checked = 0;
  sent = [];
}

pub data Step (n : ℕ) (s : System) : System → Type 0 where
  check_done : s.shared.done ≡ false → Step n s (record s { checked = s.checked + 1 })
  push :
      (now k : ℕ) (ctx : Context) (r : Shared)
      → s.checked ≡ suc k
      → push_locked n now s.shared ctx ≡ some r
      → Step n s (record s { shared = r; checked = k; sent = s.sent ++ ctx ∷ [] })
  enter : s.pc ≡ top → s.shared.done ≡ false → Step n s (record s { pc = collecting })
  take :
      s.pc ≡ collecting
      → Step n s (record s {
        shared = (collect s.shared s.worker).0;
        worker = (collect s.shared s.worker).1;
        pc = writing;
      })
  write :
      (now : ℕ)
      → s.pc ≡ writing
      → Step n s (record s { worker = write_round n now s.worker; pc = top })
  leave : s.pc ≡ top → s.shared.done ≡ true → Step n s (record s { pc = finished })
  do_done : Step n s (record s { shared = record (s.shared) { done = true } })

pub data Reach (n now : ℕ) : System → Type 0 where
  start : Reach n now (init n now)
  later : {s t : System} → Reach n now s → Step n s t → Reach n now t
