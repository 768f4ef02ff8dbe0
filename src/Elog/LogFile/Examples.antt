-- ===== src/Elog/LogFile/Examples.antt =====
-- A log file with a limit of four bytes, and the theorems of Rolling at it.
use koro.Prelude.{◌≡◌, refl, some, [], ◌∷◌, ◌++◌, ◌/◌, ℕ, take, true, false}
use koro.Elog.Formatting.{bytes, padded, digits, Tm}
use koro.Elog.LogFile.Naming.{get_filename, time_of_name}
use koro.Elog.LogFile.{File, LogFile, append, append_file, day_of}
use koro.Elog.LogFile.Appender.{
  Answers, FileType, threw, runtime_error, append_bytes, new_file_appender, ensure_directory_exists,
  exists,
}
use koro.Elog.LogFile.Throwing.{
  Where, append_wo_lock, write, is_full, roll_file, replace_file, stamp,
}
use koro.Elog.LogFile.Failures.Kept.{Kept}
use koro.Elog.LogFile.Rolling.{Holds, content, append-Holds}

abbrev three_bytes : File
three_bytes = record { opened = 9; bytes = 1 ∷ 2 ∷ 3 ∷ []; written_bytes = 3 }

abbrev log : LogFile
log = record {
  roll_size = 4;
  flush_interval = 3;
  check_per_count = 1;
  count = 0;
  file = some three_bytes;
  last_day = 0;
  last_roll_second = 9;
  last_flush_second = 9;
  closed = [];
  flushed = 0;
}

append-Holds_example :
    (after : LogFile) × (append 10 (4 ∷ 5 ∷ []) log ≡ some after)
    × Holds 4 (content log ++ 4 ∷ 5 ∷ []) after
append-Holds_example = append-Holds 10 (4 ∷ 5 ∷ []) log three_bytes refl

-- A clock that stands still for two seconds.
abbrev slow_clock : ℕ → Tm
slow_clock secs = record { year = 2025; mon = 3; mday = 9; hour = 8; min = 30; sec = secs / 2 }

get_filename_run :
    get_filename slow_clock (bytes "logs") (bytes "server") 10
    ≡ bytes "logs/server.20250309-083005.log"
unfolding get_filename time_of_name padded digits
get_filename_run = refl

-- The directory of the new file has gone, and the file is full.
abbrev answers : Answers
answers = record {
  time = 10;
  written = 2;
  ferror = false;
  flushes = true;
  opens = true;
  status_fails = false;
  file_type = FileType.not_found;
}

abbrev place : Where
place = record {
  basename = bytes "logs";
  prefix = bytes "server";
  localtime_r = slow_clock;
  parent_path = λ path. take 4 path;
}

append_wo_lock_run : append_wo_lock place answers (4 ∷ 5 ∷ []) log ≡ (
  threw (runtime_error (bytes "Directory does not exist: logs")),
  record log {
    file = some (record { opened = 9; bytes = 1 ∷ 2 ∷ 3 ∷ 4 ∷ 5 ∷ []; written_bytes = 5 });
    last_day = 0;
    last_roll_second = 10;
    last_flush_second = 10;
  },
)
unfolding append_wo_lock write append_bytes append_file is_full roll_file replace_file
    new_file_appender ensure_directory_exists exists stamp get_filename time_of_name padded digits
    day_of
append_wo_lock_run = refl
