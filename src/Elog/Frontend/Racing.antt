-- ===== src/Elog/Frontend/Racing.antt =====
-- elog/logger.h and logger.cpp on any number of threads: the end of a logging statement against
-- `shutdownAsyncLogging`, one access to shared memory at a time, from when asynchronous logging is on.
pub mod Accounting
mod Examples
use koro.Prelude.{ℕ, suc, ◌<◌, ◌≡◌, Bool, true, false, update}

-- Where a thread stands in `~LogStream()` of a statement that has printed something.
pub data Pc : Type 0 where
  away : Pc  -- not in it
  testing : Pc  -- before `isAsyncEnabled()`
  chosen : Pc  -- in `appendAsyncLog`, before it tests again
  pushing : Pc  -- before `async_logging_->pushMessage`
  crashed : Pc  -- it has used a null pointer

-- Where the thread stands that shuts asynchronous logging down.
pub data Shutter : Type 0 where
  waiting : Shutter
  called : Shutter  -- it has seen that logging is on
  cleared : Shutter  -- behind `async_logging_.reset()`
  over : Shutter

-- No fields of the program: how many statements have come to their end, and have given their record to
-- asynchronous logging, have printed their line, or have done neither.
pub record System : Type 0 where
  pub alive : Bool
  pub async_enabled : Bool
  pub shutter : Shutter
  pub pc : ℕ → Pc
  pub begun : ℕ
  pub pushed : ℕ
  pub printed : ℕ
  pub dropped : ℕ

-- Of `n` threads that log, and the one that shuts down.
pub data Step (n : ℕ) (s : System) : System → Type 0 where
  begin :
      (j : ℕ)
      → j < n
      → s.pc j ≡ away
      → Step n s (record s { pc = update s.pc j testing; begun = suc s.begun })
  choose :
      (j : ℕ)
      → j < n
      → s.pc j ≡ testing
      → s.async_enabled ≡ true
      → Step n s (record s { pc = update s.pc j chosen })
  print :
      (j : ℕ)
      → j < n
      → s.pc j ≡ testing
      → s.async_enabled ≡ false
      → Step n s (record s { pc = update s.pc j away; printed = suc s.printed })
  test_again :
      (j : ℕ)
      → j < n
      → s.pc j ≡ chosen
      → s.async_enabled ≡ true
      → Step n s (record s { pc = update s.pc j pushing })
  drop :
      (j : ℕ)
      → j < n
      → s.pc j ≡ chosen
      → s.async_enabled ≡ false
      → Step n s (record s { pc = update s.pc j away; dropped = suc s.dropped })
  push :
      (j : ℕ)
      → j < n
      → s.pc j ≡ pushing
      → s.alive ≡ true
      → Step n s (record s { pc = update s.pc j away; pushed = suc s.pushed })
  fault :
      (j : ℕ)
      → j < n
      → s.pc j ≡ pushing
      → s.alive ≡ false
      → Step n s (record s { pc = update s.pc j crashed })
  call : s.shutter ≡ waiting → s.async_enabled ≡ true → Step n s (record s { shutter = called })
  reset : s.shutter ≡ called → Step n s (record s { alive = false; shutter = cleared })
  store : s.shutter ≡ cleared → Step n s (record s { async_enabled = false; shutter = over })

unfoldable pub init : System
init = record {
  alive = true;
  async_enabled = true;
  shutter = waiting;
  pc = λ _. away;
  begun = 0;
  pushed = 0;
  printed = 0;
  dropped = 0;
}

pub data Reach (n : ℕ) : System → Type 0 where
  start : Reach n init
  later : {s t : System} → Reach n s → Step n s t → Reach n t
