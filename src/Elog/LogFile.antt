-- ===== src/Elog/LogFile.antt =====
-- elog/log_file.cpp and elog/file_appender.cpp: appending to a log file, and starting a new one. Times are
-- seconds. Here the calls of the C library succeed; Appender and Throwing have those that fail.
pub mod Rolling
pub mod Naming
pub mod Appender
pub mod Throwing
pub mod Failures
mod Examples
use koro.Prelude.{
  ℕ, suc, ◌+◌, ◌-◌, ◌*◌, ◌/◌, Bool, true, false, Option, none, some, List, [], ◌∷◌, ◌++◌,
  if◌then◌else◌, ltb, leb, ◌==◌, length,
}

-- A `FileAppender`: the second in the file's name, the bytes appended to it, and `written_bytes_`.
pub record File : Type 0 where
  pub opened : ℕ
  pub bytes : List ℕ
  pub written_bytes : ℕ

unfoldable pub open_file : ℕ → File
open_file now = record { opened = now; bytes = []; written_bytes = 0 }

unfoldable pub append_file : List ℕ → File → File
append_file bytes f = record f {
  bytes = f.bytes ++ bytes;
  written_bytes = f.written_bytes + length bytes;
}

unfoldable pub reset_written_bytes : File → File
reset_written_bytes f = record f { written_bytes = 0 }

-- `closed` lists the files that were closed, in order; `flushed` counts the calls of `flush`.
pub record LogFile : Type 0 where
  pub roll_size : ℕ
  pub flush_interval : ℕ
  pub check_per_count : ℕ
  pub count : ℕ
  pub file : Option File
  pub last_day : ℕ
  pub last_roll_second : ℕ
  pub last_flush_second : ℕ
  pub closed : List File
  pub flushed : ℕ

abbrev pub roll_per_seconds : ℕ
roll_per_seconds = 24 * 60 * 60

unfoldable pub day_of : ℕ → ℕ
day_of now = now / roll_per_seconds * roll_per_seconds

unfoldable pub close_file : LogFile → List File
close_file l = elim l.file [ none ↦ l.closed | some f ↦ l.closed ++ f ∷ [] ]

-- A new file, at most once in a second.
unfoldable pub roll_file : ℕ → LogFile → LogFile
roll_file now l =
    if ltb l.last_roll_second now
    then record l {
      last_roll_second = now;
      last_flush_second = now;
      last_day = day_of now;
      closed = close_file l;
      file = some (open_file now);
    }
    else l

-- The constructor; the three times are not initialised, and hold `day`, `roll` and `flush`.
unfoldable pub new_log_file : ℕ → ℕ → ℕ → ℕ → ℕ → ℕ → ℕ → LogFile
new_log_file now roll_size flush_interval check_per_count day roll flush = roll_file now (record {
  roll_size = roll_size;
  flush_interval = flush_interval;
  check_per_count = check_per_count;
  count = 0;
  file = none;
  last_day = day;
  last_roll_second = roll;
  last_flush_second = flush;
  closed = [];
  flushed = 0;
})

unfoldable pub reset_current : LogFile → LogFile
reset_current l = elim l.file [
  | none ↦ l
  | some f ↦ record l { file = some (reset_written_bytes f) }
]

-- What follows a write that has not filled the file.
unfoldable pub check_time : ℕ → LogFile → LogFile
check_time now l =
    if not_yet
    then record l { count = suc l.count }
    else if day_of now == l.last_day
    then if leb (l.last_flush_second + l.flush_interval) now
      then record l { count = 0; last_flush_second = now; flushed = suc l.flushed }
      else record l { count = 0 }
    else roll_file now (record l { count = 0 })
  where
    not_yet : Bool
    not_yet = ltb (suc l.count) l.check_per_count

-- `appendWOLock` on the open file `f`, already written to.
unfoldable pub after_write : ℕ → File → LogFile → LogFile
after_write now f l =
    if ltb l.roll_size f.written_bytes
    then reset_current (roll_file now (record l { file = some f }))
    else check_time now (record l { file = some f })

-- `append`; `none` is the use of a file that was never opened.
unfoldable pub append : ℕ → List ℕ → LogFile → Option LogFile
append now bytes l = elim l.file [
  | none ↦ none
  | some f ↦ some (after_write now (append_file bytes f) l)
]
