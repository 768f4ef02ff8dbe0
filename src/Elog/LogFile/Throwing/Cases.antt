-- ===== src/Elog/LogFile/Throwing/Cases.antt =====
-- elog/log_file.cpp and file_appender.cpp: each operation that may throw does what the one of `LogFile` does,
-- unless a call has failed.
use koro.Prelude.{
  suc, ◌+◌, ◌≡◌, refl, sym, ap, ◌∙◌, true, false, Option, none, some, [], ◌∷◌, ◌++◌, ltb, leb, ◌==◌,
  length, take, arith, is_empty, Bool-cases, ==_iff, append-nil, ◌⊎◌, inl, inr,
}
use koro.Elog.Context.{Text}
use koro.Elog.Formatting.{bytes}
use koro.Elog.LogFile.{
  File, LogFile, open_file, append_file, close_file, reset_current, day_of, after_write, append,
}
use koro.Elog.LogFile as Ideal
use koro.Elog.LogFile.Naming.{get_filename}
use koro.Elog.LogFile.Appender.{
  Error, null_pointer, system_error, Outcome, returned, threw, Answers, FileType, exists,
  is_directory, ensure_directory_exists, new_file_appender, write_error, append_bytes, flush_file,
  then_run,
}
use koro.Elog.LogFile.Throwing.{Where, stamp, replace_file, roll_file, flush, check_time}

-- The directory is there, the file can be opened, all is written, and flushing succeeds.
pub record Succeeds (c : Answers) (text : Text) : Type 0 where
  pub status : c.status_fails ≡ false
  pub file_type : c.file_type ≡ FileType.directory
  pub opens : c.opens ≡ true
  pub written : c.written ≡ length text
  pub flushes : c.flushes ≡ true

Outcome-cases : (o : Outcome) → (o ≡ returned) ⊎ ((e : Error) × (o ≡ threw e))
Outcome-cases returned = inl refl
Outcome-cases (threw e) = inr (e, refl)

returned-ne-threw : {o : Outcome} {e : Error} → o ≡ returned → o ≡ threw e → ⊥
returned-ne-threw h k = cc

ensure_directory_exists-returned :
    (c : Answers) (text parent : Text)
    → Succeeds c text
    → ensure_directory_exists c parent ≡ returned
unfolding ensure_directory_exists is_directory exists
ensure_directory_exists-returned c text parent s = elim (Bool-cases (is_empty parent)) [
  | inl empty ↦ rw empty refl
  | inr some_parent ↦ rw (some_parent, s.status, s.file_type) refl
]

new_file_appender-cases :
    (c : Answers) (text parent : Text)
    → (new_file_appender c parent ≡ (some (open_file c.time), returned))
      ⊎ ((e : Error) × (new_file_appender c parent ≡ (none, threw e)) × (¬ Succeeds c text))
unfolding new_file_appender
new_file_appender-cases c text parent = elim (Outcome-cases (ensure_directory_exists c parent)) [
  | inr (e, bad) ↦ inr (
    e,
    rw (new_file_appender, bad) refl,
    λ s. returned-ne-threw (ensure_directory_exists-returned c text parent s) bad,
  )
  | inl good ↦ elim (Bool-cases c.opens) [
    | inl opens ↦ inl (rw (new_file_appender, good, opens) refl)
    | inr fails ↦ inr (
      system_error (bytes "Failed to open log file"),
      rw (new_file_appender, good, fails) refl,
      λ s. cc (s.opens),
    )
  ]
]

pub roll_file-cases :
    (w : Where) (c : Answers) (text : Text) (l : LogFile)
    → (roll_file w c l ≡ (returned, Ideal.roll_file c.time l))
      ⊎ ((e : Error) × (roll_file w c l ≡ (threw e, stamp c.time l)) × (¬ Succeeds c text))
unfolding roll_file Ideal.roll_file replace_file stamp close_file
roll_file-cases w c text l = elim (Bool-cases (ltb l.last_roll_second c.time)) [
  | inr early ↦ inl (rw (early) refl)
  | inl late ↦
      let parent = w.parent_path (get_filename w.localtime_r w.basename w.prefix c.time) in
      elim (new_file_appender-cases c text parent) [
        | inl e ↦ inl (rw (late, e) refl)
        | inr (x, e, no_success) ↦ inr (x, rw (late, e) refl, no_success)
      ]
]

pub append_bytes-cases :
    (c : Answers) (text : Text) (f : File)
    → (append_bytes c (some text) f ≡ (returned, append_file text f))
      ⊎ (append_bytes c (some text) f
          ≡ (threw (write_error c), record f { bytes = f.bytes ++ take c.written text }))
        × (¬ Succeeds c text)
unfolding append_bytes append_file
append_bytes-cases c [] f = inl (
    ap (λ b. (returned, record f { bytes = b })) (sym (append-nil f.bytes))
    ∙ ap (λ n. (returned, record f { bytes = f.bytes ++ []; written_bytes = n })) (omega arith))
append_bytes-cases c (t ∷ text) f =
    let nonempty : (suc (length text) == 0) ≡ false = ground arith in
    elim (Bool-cases (c.written == length (t ∷ text))) [
      | inl all ↦ inl (rw (nonempty, all) refl)
      | inr part ↦
          inr
            (rw (nonempty, part) refl, λ s. cc ((==_iff c.written (length (t ∷ text))).1 s.written))
    ]

flush_file-cases :
    (c : Answers) (text : Text)
    → (flush_file c ≡ returned) ⊎ ((e : Error) × (flush_file c ≡ threw e) × (¬ Succeeds c text))
unfolding flush_file
flush_file-cases c text = elim (Bool-cases c.flushes) [
  | inl good ↦ inl (rw good refl)
  | inr bad ↦
      inr (system_error (bytes "Failed to flush log file"), rw bad refl, λ s. cc (s.flushes))
]

flush-open :
    (c : Answers) (l : LogFile) (f : File) (o : Outcome)
    → l.file ≡ some f
    → flush_file c ≡ o
    → flush c l ≡ (o, record l { flushed = suc l.flushed })
unfolding flush
flush-open c l f o h e =
    ap
      (λ (file : Option File).
        let r : Outcome × LogFile = elim file [
          | none ↦ (threw null_pointer, l)
          | some g ↦ (flush_file c, record l { flushed = suc l.flushed })
        ] in
        r)
      h
    ∙ ap (λ p. (p, record l { flushed = suc l.flushed })) e

-- The throwing operations do what those of `LogFile` do, unless one of their calls throws.
pub check_time-cases :
    (w : Where) (c : Answers) (text : Text) (l : LogFile) (f : File)
    → l.file ≡ some f
    → (check_time w c l ≡ (returned, Ideal.check_time c.time l))
      ⊎ ((e : Error) × (check_time w c l ≡ (threw e, stamp c.time (record l { count = 0 })))
          × (¬ Succeeds c text))
      ⊎ ((e : Error) × (check_time w c l ≡ (
        threw e,
        record l { count = 0; last_flush_second = c.time; flushed = suc l.flushed },
      ))
          × (¬ Succeeds c text))
unfolding check_time Ideal.check_time
check_time-cases w c text l f h =
    let m = record l { count = 0; last_flush_second = c.time } in
    elim (Bool-cases (ltb (suc l.count) l.check_per_count)) [
      | inl early ↦ inl (rw early refl)
      | inr due ↦ elim (Bool-cases (day_of c.time == l.last_day)) [
        | inr new_day ↦ elim (roll_file-cases w c text (record l { count = 0 })) [
          | inl e ↦ inl (rw (due, new_day, e) refl)
          | inr (x, e, bad) ↦ inr (inl (x, rw (due, new_day, e) refl, bad))
        ]
        | inl same_day ↦ elim (Bool-cases (leb (l.last_flush_second + l.flush_interval) c.time)) [
          | inr wait ↦ inl (rw (due, same_day, wait) refl)
          | inl flushing ↦ elim (flush_file-cases c text) [
            | inl e ↦ inl (rw (due, same_day, flushing) (flush-open c m f returned h e))
            | inr (x, e, bad) ↦
                inr (inr (x, rw (due, same_day, flushing) (flush-open c m f (threw x) h e), bad))
          ]
        ]
      ]
    ]

pub filled-cases :
    (w : Where) (c : Answers) (text : Text) (l : LogFile)
    → (then_run (roll_file w c l) (λ s. (returned, reset_current s))
        ≡ (returned, reset_current (Ideal.roll_file c.time l)))
      ⊎ ((e : Error) × (then_run (roll_file w c l) (λ s. (returned, reset_current s))
            ≡ (threw e, stamp c.time l))
          × (¬ Succeeds c text))
filled-cases w c text l = elim (roll_file-cases w c text l) [
  | inl e ↦ inl (ap (λ r. then_run r (λ s. (returned, reset_current s))) e)
  | inr (x, e, bad) ↦ inr (x, ap (λ r. then_run r (λ s. (returned, reset_current s))) e, bad)
]
