-- ===== src/Elog/LogFile/Throwing.antt =====
-- elog/log_file.cpp, over a `FileAppender` that may throw: what is changed before a throw stays changed.
pub mod Cases
use koro.Prelude.{ℕ, suc, ◌+◌, Bool, false, Option, none, some, if◌then◌else◌, ltb, leb, ◌==◌}
use koro.Elog.Context.{Text}
use koro.Elog.Formatting.{Tm}
use koro.Elog.LogFile.{File, LogFile, day_of, close_file, reset_current}
use koro.Elog.LogFile.Naming.{get_filename}
use koro.Elog.LogFile.Appender.{
  Error, null_pointer, Outcome, returned, threw, Answers, new_file_appender, append_bytes,
  flush_file, then_run,
}

-- Where the files are: `basename_`, `prefix_`, the time zone, and `parent_path` of the library.
pub record Where : Type 0 where
  pub basename : Text
  pub prefix : Text
  pub localtime_r : ℕ → Tm
  pub parent_path : Text → Text

abbrev pub Action : Type 0
Action = LogFile → Outcome × LogFile

-- The times that `rollFile` sets before it opens the new file.
unfoldable pub stamp : ℕ → LogFile → LogFile
stamp now l = record l { last_roll_second = now; last_flush_second = now; last_day = day_of now }

-- `file_ = std::make_unique<FileAppender>(filename)`, which leaves `file_` as it is if it throws.
unfoldable pub replace_file : Option File × Outcome → Action
replace_file (made, threw e) l = (threw e, l)
replace_file (none, returned) l = (returned, l)
replace_file (some f, returned) l = (returned, record l { closed = close_file l; file = some f })

unfoldable pub roll_file : Where → Answers → Action
roll_file w c l =
    if ltb l.last_roll_second c.time
    then replace_file (new_file_appender c parent) (stamp c.time l)
    else (returned, l)
  where
    parent : Text
    parent = w.parent_path (get_filename w.localtime_r w.basename w.prefix c.time)

unfoldable pub flush : Answers → Action
flush c l = elim l.file [
  | none ↦ (threw null_pointer, l)
  | some f ↦ (flush_file c, record l { flushed = suc l.flushed })
]

-- The call of `append` on the file.
unfoldable pub write : Answers → Text → Action
write c text l = elim l.file [
  | none ↦ (threw null_pointer, l)
  | some f ↦
      let (outcome, g) = append_bytes c (some text) f in (outcome, record l { file = some g })
]

-- What follows a write that has not filled the file.
unfoldable pub check_time : Where → Answers → Action
check_time w c l =
    if ltb (suc l.count) l.check_per_count
    then (returned, record l { count = suc l.count })
    else if day_of c.time == l.last_day
    then if leb (l.last_flush_second + l.flush_interval) c.time
      then flush c (record l { count = 0; last_flush_second = c.time })
      else (returned, record l { count = 0 })
    else roll_file w c (record l { count = 0 })

unfoldable pub is_full : LogFile → Bool
is_full l = elim l.file [ none ↦ false | some f ↦ ltb l.roll_size f.written_bytes ]

unfoldable pub append_wo_lock : Where → Answers → Text → Action
append_wo_lock w c text l = then_run (write c text l) λ l'.
    if is_full l'
    then then_run (roll_file w c l') (λ l''. (returned, reset_current l''))
    else check_time w c l'
