-- ===== src/Elog/AsyncLogging.antt =====
-- elog/async_logging.h and elog/async_logging.cpp: callers fill buffers under a mutex, and one
-- worker thread takes the filled buffers over and writes their records to the log file.
-- `n` is the buffers' size, `kLargeBuffer` in the source; `now` is the time at which a new buffer's
-- records are made.
pub mod Rounds
pub mod Pushing
pub mod System
pub mod Invariant
pub mod Delivery
pub mod Shutdown
use koro.Prelude.{
  ℕ, ◌-◌, Bool, true, false, not, Option, none, some, List, [], ◌∷◌, ◌++◌, if◌then◌else◌, ltb,
  length, is_empty, take, map,
}
use mathlib.Core.Option
use koro.Elog.Context.{Context}
use koro.Elog.FixedBuffer.{Buffer, new_buffer, moved_from, check, empty, full, push, reset, items}

-- What the mutex protects, and `done_`.
pub record Shared : Type 0 where
  pub done : Bool
  pub cur_buf : Buffer
  pub next_buf : Buffer
  pub bufs : List Buffer

-- A line of the log file: a record, or the notice that `k` buffers were dropped.
pub data Line : Type 0 where
  entry : Context → Line
  notice : ℕ → Line

-- The local variables of `threadWorker`; `out` is what it has appended to the log file.
pub record Worker : Type 0 where
  pub new_buf1 : Buffer
  pub new_buf2 : Buffer
  pub buf2write : List Buffer
  pub out : List Line

unfoldable pub init_shared : ℕ → ℕ → Shared
init_shared n now = record {
  done = false;
  cur_buf = new_buffer n now;
  next_buf = new_buffer n now;
  bufs = [];
}

unfoldable pub init_worker : ℕ → ℕ → Worker
init_worker n now = record {
  new_buf1 = new_buffer n now;
  new_buf2 = new_buffer n now;
  buf2write = [];
  out = [];
}

-- The buffer that replaces a full one.
unfoldable pub replacement : ℕ → ℕ → Shared → Buffer
replacement n now s = if check s.next_buf then s.next_buf else new_buffer n now

-- The part of `pushMessage` under the lock; `none` is a failed assertion of `push`.
unfoldable pub push_locked : ℕ → ℕ → Shared → Context → Option Shared
push_locked n now s ctx =
    if not (full n s.cur_buf)
    then Option.map (λ b. record s { cur_buf = b }) (push n s.cur_buf ctx)
    else Option.map
        (λ b. record s {
          cur_buf = b;
          next_buf = if check s.next_buf then moved_from else s.next_buf;
          bufs = s.bufs ++ s.cur_buf ∷ [];
        })
        (push n (replacement n now s) ctx)

unfoldable pub push_message : ℕ → ℕ → Shared → Context → Option Shared
push_message n now s ctx = if s.done then some s else push_locked n now s ctx

-- The part of a round of `threadWorker` under the lock, once the wait is over.
unfoldable pub take_cur : Shared → Worker → Shared × Worker
take_cur s w =
    if not (empty s.cur_buf)
    then (
      record s { bufs = s.bufs ++ s.cur_buf ∷ []; cur_buf = w.new_buf1 },
      record w { new_buf1 = moved_from },
    )
    else (s, w)

unfoldable pub swap_bufs : Shared → Worker → Shared × Worker
swap_bufs s w = (record s { bufs = w.buf2write }, record w { buf2write = s.bufs })

unfoldable pub refill_next : Shared → Worker → Shared × Worker
refill_next s w =
    if not (check s.next_buf)
    then (record s { next_buf = w.new_buf2 }, record w { new_buf2 = moved_from })
    else (s, w)

unfoldable pub collect : Shared → Worker → Shared × Worker
unfolding take_cur swap_bufs refill_next
collect s w = let (s1, w1) = take_cur s w in let (s2, w2) = swap_bufs s1 w1 in refill_next s2 w2

-- The records of a sequence of buffers, in the order in which the two loops write them.
unfoldable pub flat : List Buffer → List Context
flat [] = []
flat (b ∷ bs) = items b ++ flat bs

-- With more than 100 buffers, all but two are dropped behind a notice.
unfoldable pub drop_excess : Worker → Worker
drop_excess w =
    if ltb 100 (length w.buf2write)
    then record w {
      out = w.out ++ notice (length w.buf2write - 2) ∷ [];
      buf2write = take 2 w.buf2write;
    }
    else w

unfoldable pub write_entries : Worker → Worker
write_entries w = record w { out = w.out ++ map entry (flat w.buf2write) }

-- `buf2write.resize(2)` where it is shorter, and its first two elements.
unfoldable pub first_or_new : ℕ → ℕ → List Buffer → Buffer
first_or_new n now [] = new_buffer n now
first_or_new n now (b ∷ bs) = b

unfoldable pub second_or_new : ℕ → ℕ → List Buffer → Buffer
second_or_new n now [] = new_buffer n now
second_or_new n now (b ∷ bs) = first_or_new n now bs

-- Written buffers are emptied and become the worker's spare ones again; `buf2write` is cleared.
unfoldable pub recycle : ℕ → ℕ → Worker → Worker
recycle n now w = record w {
  new_buf1 = if check w.new_buf1 then w.new_buf1 else reset (first_or_new n now w.buf2write);
  new_buf2 = if check w.new_buf2 then w.new_buf2 else reset (second_or_new n now w.buf2write);
  buf2write = [];
}

-- The rest of a round, outside of the lock.
unfoldable pub write_round : ℕ → ℕ → Worker → Worker
write_round n now w =
    if is_empty w.buf2write then w else recycle n now (write_entries (drop_excess w))

-- `while (!done_) { … }` without callers in between, `rounds` times at most; then the last flush.
unfoldable pub run_rounds : ℕ → ℕ → ℕ → Shared → Worker → Shared × Worker
run_rounds ℕ.zero n now s w = (s, w)
run_rounds (ℕ.suc k) n now s w =
    let rest = (let (s', w') = collect s w in run_rounds k n now s' (write_round n now w')) in
    if s.done then (s, w) else rest
