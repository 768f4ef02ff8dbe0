-- ===== src/Elog/LogFile/Appender.antt =====
-- elog/file_appender.cpp and file_appender.h: a file that is written through the C library, and what is
-- thrown where a call fails. What the calls answer is an argument. `errno` is left out of the exceptions.
use koro.Prelude.{
  ℕ, Bool, true, false, not, Option, none, some, ◌++◌, if◌then◌else◌, ◌==◌, is_empty, length, take,
}
use koro.Elog.Context.{Text}
use koro.Elog.Formatting.{bytes}
use koro.Elog.LogFile.{File, open_file, append_file}

-- `null_pointer` is no exception, but the use of a null pointer.
pub data Error : Type 0 where
  system_error : Text → Error
  runtime_error : Text → Error
  null_pointer : Error

-- How a call ends that returns no value.
pub data Outcome : Type 0 where
  returned : Outcome
  threw : Error → Outcome

pub data FileType : Type 0 where
  not_found directory other : FileType

-- What the calls of the libraries answer while one operation runs: `time`; the number of bytes that
-- `fwrite_unlocked` has taken, and `ferror` after it; whether `fflush` and `fopen` succeed; whether
-- `status` sets its error code, and the type that it finds.
pub record Answers : Type 0 where
  pub time : ℕ
  pub written : ℕ
  pub ferror : Bool
  pub flushes : Bool
  pub opens : Bool
  pub status_fails : Bool
  pub file_type : FileType

unfoldable pub exists : FileType → Bool
exists FileType.not_found = false
exists t = true

unfoldable pub is_directory : FileType → Bool
is_directory FileType.directory = true
is_directory t = false

-- `parent` is the parent path.
unfoldable pub ensure_directory_exists : Answers → Text → Outcome
unfolding exists is_directory
ensure_directory_exists c parent =
    if is_empty parent
    then returned
    else if c.status_fails
    then threw (system_error (bytes "Failed to check directory: " ++ parent))
    else if not (exists c.file_type)
    then threw (runtime_error (bytes "Directory does not exist: " ++ parent))
    else if not (is_directory c.file_type)
    then threw (runtime_error (bytes "Path exists but is not a directory: " ++ parent))
    else returned

-- What follows a call that has ended, unless it has thrown.
abbrev pub then_run {ℓ} : {S : Type ℓ} → Outcome × S → (S → Outcome × S) → Outcome × S
then_run (returned, s) next = next s
then_run (threw e, s) next = (threw e, s)

-- The constructor makes an object, or throws.
unfoldable pub new_file_appender : Answers → Text → Option File × Outcome
new_file_appender c parent = elim (ensure_directory_exists c parent) [
  | threw e ↦ (none, threw e)
  | returned ↦
      if c.opens
      then (some (open_file c.time), returned)
      else (none, threw (system_error (bytes "Failed to open log file")))
]

-- The error of a write of which only a part was taken.
unfoldable pub write_error : Answers → Error
write_error c =
    if c.ferror
    then system_error (bytes "Failed to write log file")
    else runtime_error (bytes "Partial write to log file")

-- `append`; no text is a null pointer. What was taken of a write stays written when it throws.
unfoldable pub append_bytes : Answers → Option Text → File → Outcome × File
append_bytes c none f = (returned, f)
append_bytes c (some text) f =
    if length text == 0
    then (returned, f)
    else if c.written == length text
    then (returned, append_file text f)
    else (threw (write_error c), record f { bytes = f.bytes ++ take c.written text })

unfoldable pub flush_file : Answers → Outcome
flush_file c =
    if c.flushes then returned else threw (system_error (bytes "Failed to flush log file"))
