-- ===== src/Elog/LogFile/Rolling.antt =====
-- elog/log_file.cpp: what the files hold together, and when a new one is started.
use koro.Prelude.{
  ℕ, suc, ◌+◌, ◌≤◌, ◌<◌, ◌≡◌, refl, sym, ap, ◌∙◌, true, false, none, some, List, [], ◌∷◌, ◌++◌, ltb,
  leb, ◌==◌, length, arith, append_assoc, append-nil, Bool-cases, ◌⊎◌, inl, inr, subst,
}
use koro.Elog.LogFile.{
  File, open_file, append_file, reset_written_bytes, LogFile, close_file, roll_file, new_log_file,
  reset_current, check_time, after_write, append, day_of,
}

pub all_bytes : List File → List ℕ
all_bytes [] = []
all_bytes (f ∷ fs) = f.bytes ++ all_bytes fs

-- All that was logged.
abbrev pub content : LogFile → List ℕ
content l = all_bytes (close_file l)

all_bytes-append : (fs gs : List File) → all_bytes (fs ++ gs) ≡ all_bytes fs ++ all_bytes gs
unfolding all_bytes
all_bytes-append [] gs = refl
all_bytes-append (f ∷ fs) gs =
    ap (λ b. f.bytes ++ b) (all_bytes-append fs gs)
    ∙ sym (append_assoc f.bytes (all_bytes fs) (all_bytes gs))

-- A file `g` is open, within the size if `size` says so, and the files hold `all`.
pub record Holds (roll_size : ℕ) (all : List ℕ) (l : LogFile) : Type 0 where
  pub current : File
  pub opened : l.file ≡ some current
  pub fits : current.written_bytes ≤ roll_size
  pub holds : content l ≡ all

pub content-open :
    (l : LogFile) (f : File) → content (record l { file = some f }) ≡ all_bytes l.closed ++ f.bytes
unfolding close_file all_bytes
content-open l f =
    all_bytes-append l.closed (f ∷ []) ∙ ap (λ b. all_bytes l.closed ++ b) (append-nil f.bytes)

pub content-at :
    (l : LogFile) (f : File) → l.file ≡ some f → content l ≡ all_bytes l.closed ++ f.bytes
content-at l f h = ap (λ o. content (record l { file = o })) h ∙ content-open l f

-- Rolling with file `f` open keeps the content, and leaves `f` open or has opened a new file.
rolled :
    (now : ℕ) (l : LogFile) (f : File)
    → (content (roll_file now (record l { file = some f })) ≡ content (record l { file = some f }))
      × ((roll_file now (record l { file = some f })).file ≡ some f
          ⊎ (roll_file now (record l { file = some f })).file ≡ some (open_file now))
unfolding roll_file open_file
rolled now l f =
    let before = record l { file = some f } in
    let after = record before {
      last_roll_second = now;
      last_flush_second = now;
      last_day = day_of now;
      closed = close_file before;
    } in
    elim (Bool-cases (ltb l.last_roll_second now)) [
      | inl later ↦ (
        rw later (content-open after (open_file now) ∙ append-nil (content before)),
        inr (rw later refl),
      )
      | inr same ↦ (rw same refl, inl (rw same refl))
    ]

reset-Holds :
    (l : LogFile) (g : File) (size : ℕ) → l.file ≡ some g → Holds size (content l) (reset_current l)
unfolding reset_current reset_written_bytes close_file all_bytes
reset-Holds l g size h = record {
  current = record g { written_bytes = 0 };
  opened = ap (λ o. (reset_current (record l { file = o })).file) h;
  fits = omega arith;
  holds =
      ap (λ o. content (reset_current (record l { file = o }))) h
      ∙ content-open l (record g { written_bytes = 0 })
      ∙ sym (content-at l g h);
}

filled-Holds :
    (now : ℕ) (l : LogFile) (f : File) (size : ℕ)
    → Holds size
        (content (record l { file = some f }))
        (reset_current (roll_file now (record l { file = some f })))
filled-Holds now l f size =
    let (same, which) = rolled now l f in
    subst (λ c. Holds size c (reset_current (roll_file now (record l { file = some f })))) same
      (elim which [ inl h ↦ reset-Holds _ f size h | inr h ↦ reset-Holds _ (open_file now) size h ])

-- Fields other than the file and the list of closed ones do not count for the content.
kept-Holds :
    (l : LogFile) (f : File) (size count flush flushed : ℕ)
    → f.written_bytes ≤ size
    → Holds size
        (content (record l { file = some f }))
        (record l { file = some f; count = count; last_flush_second = flush; flushed = flushed })
unfolding close_file
kept-Holds l f size count flush flushed h = record {
  current = f;
  opened = refl;
  fits = h;
  holds = refl;
}

rolled-Holds :
    (now : ℕ) (l : LogFile) (f : File) (size : ℕ)
    → f.written_bytes ≤ size
    → Holds size
        (content (record l { file = some f }))
        (roll_file now (record l { file = some f; count = 0 }))
unfolding open_file close_file
rolled-Holds now l f size h =
    let (same, which) = rolled now (record l { count = 0 }) f in
    elim which [
      | inl e ↦ record { current = f; opened = e; fits = h; holds = same }
      | inr e ↦ record { current = open_file now; opened = e; fits = omega arith; holds = same }
    ]

check_time-Holds :
    (now : ℕ) (l : LogFile) (f : File) (size : ℕ)
    → f.written_bytes ≤ size
    → Holds size
        (content (record l { file = some f }))
        (check_time now (record l { file = some f }))
unfolding check_time
check_time-Holds now l f size h = elim (Bool-cases (ltb (suc l.count) l.check_per_count)) [
  | inl early ↦ rw early (kept-Holds l f size (suc l.count) l.last_flush_second l.flushed h)
  | inr due ↦ rw due (elim (Bool-cases (day_of now == l.last_day)) [
    | inr new_day ↦ rw new_day (rolled-Holds now l f size h)
    | inl same_day ↦
        rw same_day (elim (Bool-cases (leb (l.last_flush_second + l.flush_interval) now)) [
          | inl flush ↦ rw flush (kept-Holds l f size 0 now (suc l.flushed) h)
          | inr wait ↦ rw wait (kept-Holds l f size 0 l.last_flush_second l.flushed h)
        ])
  ])
]

content-append :
    (l : LogFile) (f : File) (bytes : List ℕ)
    → l.file ≡ some f
    → content (record l { file = some (append_file bytes f) }) ≡ content l ++ bytes
unfolding append_file
content-append l f bytes h =
    content-open l (append_file bytes f)
    ∙ sym (append_assoc (all_bytes l.closed) f.bytes bytes)
    ∙ ap (λ c. c ++ bytes) (sym (content-at l f h))

after_write-Holds :
    (now : ℕ) (g : File) (l : LogFile)
    → Holds l.roll_size (content (record l { file = some g })) (after_write now g l)
unfolding after_write
after_write-Holds now g l = elim (Bool-cases (ltb l.roll_size g.written_bytes)) [
  | inl full ↦ rw full (filled-Holds now l g l.roll_size)
  | inr room ↦ rw room (check_time-Holds now l g l.roll_size (ground arith))
]

-- Appending to a log with an open file succeeds, adds the bytes behind all that was logged before, in this
-- file or by the start of a new one, and leaves a file open whose count of bytes does not exceed the
-- limit.
pub append-Holds :
    (now : ℕ) (bytes : List ℕ) (l : LogFile) (f : File)
    → l.file ≡ some f
    → (after : LogFile) × (append now bytes l ≡ some after)
      × Holds l.roll_size (content l ++ bytes) after
unfolding append after_write
append-Holds now bytes l f h =
    let g = append_file bytes f in
    (
      after_write now g l,
      ap (λ o. append now bytes (record l { file = o })) h,
      subst (λ c. Holds l.roll_size c (after_write now g l)) (content-append l f bytes h)
          (after_write-Holds now g l),
    )

-- The constructor opens a file exactly if the uninitialised `last_roll_second_` happens to lie before the
-- present time. If it does not, each `append` uses a file that was never opened.
pub new_log_file_lem :
    (now roll_size flush_interval check_per_count day roll flush : ℕ)
    → (roll < now
        → (new_log_file now roll_size flush_interval check_per_count day roll flush).file
          ≡ some (open_file now))
      × (now ≤ roll
          → (t : ℕ) (bytes : List ℕ)
          → append t bytes
              (new_log_file now roll_size flush_interval check_per_count day roll flush)
            ≡ none)
unfolding new_log_file roll_file append
new_log_file_lem now roll_size flush_interval check_per_count day roll flush = (
  λ h. let later : ltb roll now ≡ true = ground arith in rw later refl,
  λ h t bytes. let not_later : ltb roll now ≡ false = ground arith in rw not_later refl,
)

-- A file that is full in the second in which it was started is not replaced: its count of bytes starts at
-- 0 again, and it goes on to grow beyond the limit.
pub full_in_one_second :
    (now : ℕ) (bytes : List ℕ) (l : LogFile) (f : File)
    → l.file ≡ some f
    → now ≤ l.last_roll_second
    → l.roll_size < f.written_bytes + length bytes
    → append now bytes l
      ≡ some (record l { file = some (record f { bytes = f.bytes ++ bytes; written_bytes = 0 }) })
unfolding append after_write append_file roll_file reset_current reset_written_bytes
full_in_one_second now bytes l f h early full =
    let not_later : ltb l.last_roll_second now ≡ false = ground arith in
    let large : ltb l.roll_size (f.written_bytes + length bytes) ≡ true = ground arith in
    ap (λ o. append now bytes (record l { file = o })) h ∙ simp (large, not_later)
