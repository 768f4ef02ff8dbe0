-- ===== src/Elog/LogFile/Failures/Kept.antt =====
-- elog/log_file.cpp: what the files hold after an `append` that may have thrown.
use koro.Prelude.{◌≡◌, ◌++◌, take, ◌⊎◌}
use koro.Elog.Context.{Text}
use koro.Elog.LogFile.{LogFile}
use koro.Elog.LogFile.Rolling.{content}
use koro.Elog.LogFile.Appender.{Outcome, threw, Answers, write_error}

-- The files hold what they held, and the text behind it, or the part of it that was taken.
abbrev pub Kept : Answers → Text → LogFile → Outcome × LogFile → Type 0
Kept c text l r =
    (content r.1 ≡ content l ++ text)
    ⊎ (r.0 ≡ threw (write_error c)) × (content r.1 ≡ content l ++ take c.written text)
