-- ===== src/Elog/LogFile/Failures.antt =====
-- elog/log_file.cpp: what an `append` has done when it returns or throws.
pub mod Kept
use koro.Prelude.{
  ℕ, suc, ◌+◌, ◌≡◌, ◌≢◌, refl, sym, ap, ◌∙◌, subst, Bool, true, false, Option, none, some, List, [],
  ◌∷◌, ◌++◌, ltb, leb, ◌==◌, length, take, arith, is_empty, append_assoc, if◌then◌else◌, Bool-cases,
  ==_iff, append-nil, ◌⊎◌, inl, inr,
}
use koro.Elog.Context.{Text}
use koro.Elog.Formatting.{bytes}
use koro.Elog.LogFile.{
  File, LogFile, open_file, append_file, close_file, reset_current, day_of, after_write, append,
}
use koro.Elog.LogFile as Ideal
use koro.Elog.LogFile.Rolling.{content, content-at, content-open, append-Holds, Holds}
use koro.Elog.LogFile.Naming.{get_filename}
use koro.Elog.LogFile.Appender.{
  Error, null_pointer, system_error, runtime_error, Outcome, returned, threw, Answers, FileType,
  exists, is_directory, ensure_directory_exists, new_file_appender, write_error, append_bytes,
  flush_file, then_run,
}
use koro.Elog.LogFile.Throwing.Cases.{Succeeds, append_bytes-cases, check_time-cases, filled-cases}
use koro.Elog.LogFile.Throwing.{
  Where, stamp, replace_file, roll_file, flush, write, check_time, is_full, append_wo_lock,
}

-- How `append` of `text` with file `f` open has ended.
pub data Ended (c : Answers) (text : Text) (l : LogFile) (f : File)
    : Outcome × LogFile → Type 0 where
  done : {after : LogFile} → append c.time text l ≡ some after → Ended c text l f (returned, after)
  write_failed :
      ¬ Succeeds c text
      → Ended c text l f (
        threw (write_error c),
        record l { file = some (record f { bytes = f.bytes ++ take c.written text }) },
      )
  roll_failed :
      (e : Error) (count : ℕ)
      → ¬ Succeeds c text
      → Ended c text l f
          (threw e, stamp c.time (record l { count = count; file = some (append_file text f) }))
  flush_failed :
      (e : Error)
      → ¬ Succeeds c text
      → Ended c text l f (
        threw e,
        record l {
          count = 0;
          last_flush_second = c.time;
          flushed = suc l.flushed;
          file = some (append_file text f);
        },
      )

append-open :
    (now : ℕ) (text : Text) (l : LogFile) (f : File)
    → l.file ≡ some f
    → append now text l ≡ some (after_write now (append_file text f) l)
unfolding append after_write
append-open now text l f h = ap (λ o. append now text (record l { file = o })) h

-- With `f` open and written to, in a state whose file is named.
after_write-Ended :
    (w : Where) (c : Answers) (text : Text) (l : LogFile) (f : File)
    → l.file ≡ some f
    → Ended c text l f (
        let l' = record l { file = some (append_file text f) } in
        if is_full l'
        then then_run (roll_file w c l') (λ s. (returned, reset_current s))
        else check_time w c l')
unfolding is_full after_write reset_current
after_write-Ended w c text l f h =
    let g = append_file text f in
    let l' = record l { file = some g } in
    let ended : append c.time text l ≡ some (after_write c.time g l) =
      append-open c.time text l f h in
    elim (Bool-cases (ltb l.roll_size g.written_bytes)) [
      | inl full ↦ elim (filled-cases w c text l') [
        | inl e ↦ rw (full, e) (Ended.done (ended ∙ rw (after_write, full) refl))
        | inr (x, e, bad) ↦ rw (full, e) (Ended.roll_failed x l.count bad)
      ]
      | inr room ↦ elim (check_time-cases w c text l' g refl) [
        | inl e ↦ rw (room, e) (Ended.done (ended ∙ rw (after_write, room) refl))
        | inr (inl (x, e, bad)) ↦ rw (room, e) (Ended.roll_failed x 0 bad)
        | inr (inr (x, e, bad)) ↦ rw (room, e) (Ended.flush_failed x bad)
      ]
    ]

write-open :
    (c : Answers) (text : Text) (l : LogFile) (f : File) {o : Outcome} {g : File}
    → l.file ≡ some f
    → append_bytes c (some text) f ≡ (o, g)
    → write c text l ≡ (o, record l { file = some g })
unfolding write
write-open c text l f h e =
    ap (λ file. write c text (record l { file = file })) h
    ∙ ap (λ r. (r.0, record l { file = some r.1 })) e

carry :
    (w : Where) (c : Answers) (text : Text) (l : LogFile) (r : Outcome × LogFile)
    → write c text l ≡ r
    → append_wo_lock w c text l
      ≡ then_run r λ s.
        if is_full s
        then then_run (roll_file w c s) (λ t. (returned, reset_current t))
        else check_time w c s
unfolding append_wo_lock
carry w c text l r e =
    ap
      (λ x. then_run x λ s.
        if is_full s
        then then_run (roll_file w c s) (λ t. (returned, reset_current t))
        else check_time w c s)
      e

-- The ways in which `append_wo_lock` ends on a log with an open file.
pub append_wo_lock-Ended :
    (w : Where) (c : Answers) (text : Text) (l : LogFile) (f : File)
    → l.file ≡ some f
    → Ended c text l f (append_wo_lock w c text l)
unfolding append_wo_lock
append_wo_lock-Ended w c text l f h = elim (append_bytes-cases c text f) [
  | inl e ↦
      subst (Ended c text l f) (sym (carry w c text l _ (write-open c text l f h e)))
        (after_write-Ended w c text l f h)
  | inr (e, bad) ↦
      subst (Ended c text l f) (sym (carry w c text l _ (write-open c text l f h e)))
        (Ended.write_failed bad)
]
