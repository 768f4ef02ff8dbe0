-- ===== src/Elog/Formatting/Stamp.antt =====
-- elog/timestamp.cpp: the length of a printed time, and that it can be read back.
use koro.Prelude.{
  ℕ, suc, ◌+◌, ◌/◌, ◌%◌, ◌^◌, ◌<◌, ◌≡◌, ap, ◌∙◌, true, List, [], ◌∷◌, ◌++◌, length, length-append,
  append_assoc, arith,
}
use koro.Elog.Context.{Text}
use koro.Elog.Formatting.{padded, Tm, date_text, time_text, to_formatted_string}
use koro.Elog.Formatting.Numbers.{read_fields, length-padded, read-padded, read-padded_last}

-- A date of the calendar whose year has four digits.
pub record IsShort (tm : Tm) : Type 0 where
  pub year : tm.year < 10 ^ 4
  pub mon : tm.mon < 10 ^ 2
  pub mday : tm.mday < 10 ^ 2
  pub hour : tm.hour < 10 ^ 2
  pub min : tm.min < 10 ^ 2
  pub sec : tm.sec < 10 ^ 2

abbrev pub stamp_widths : List ℕ
stamp_widths = 4 ∷ 2 ∷ 2 ∷ 2 ∷ 2 ∷ 2 ∷ 6 ∷ []

date_text-append :
    (tm : Tm) (rest : Text)
    → date_text tm ++ rest
      ≡ padded 4 tm.year ++ (b'-' ∷ (padded 2 tm.mon ++ (b'-' ∷ (padded 2 tm.mday ++ rest))))
unfolding date_text
date_text-append tm rest =
    append_assoc (padded 4 tm.year) _ rest
    ∙ ap (λ s. padded 4 tm.year ++ (b'-' ∷ s)) (append_assoc (padded 2 tm.mon) _ rest)

length-field :
    (w n c : ℕ) (rest : Text)
    → n < 10 ^ suc w
    → length (padded (suc w) n ++ (c ∷ rest)) ≡ suc w + suc (length rest)
length-field w n c rest h =
    length-append (padded (suc w) n) (c ∷ rest)
    ∙ ap (λ k. k + suc (length rest)) (length-padded w n h)

length-date :
    (tm : Tm) (c : ℕ) (rest : Text)
    → IsShort tm
    → length (date_text tm ++ (c ∷ rest)) ≡ 11 + length rest
length-date tm c rest v = omega (
  arith,
  ap length (date_text-append tm (c ∷ rest)),
  length-field 3 tm.year b'-' (padded 2 tm.mon ++ (b'-' ∷ (padded 2 tm.mday ++ (c ∷ rest)))) v.year,
  length-field 1 tm.mon b'-' (padded 2 tm.mday ++ (c ∷ rest)) v.mon,
  length-field 1 tm.mday c rest v.mday,
)

length-time :
    (tm : Tm) (micros : ℕ) → IsShort tm → micros < 10 ^ 6 → length (time_text tm micros) ≡ 15
unfolding time_text
length-time tm micros v h = omega (
  arith,
  length-field 1 tm.hour b':'
      (padded 2 tm.min ++ (b':' ∷ padded 2 tm.sec ++ (b'.' ∷ padded 6 micros))) v.hour,
  length-field 1 tm.min b':' (padded 2 tm.sec ++ (b'.' ∷ padded 6 micros)) v.min,
  length-field 1 tm.sec b'.' (padded 6 micros) v.sec,
  length-padded 5 micros h,
)

read-date :
    (tm : Tm) (c : ℕ) (ws : List ℕ) (rest : Text)
    → IsShort tm
    → read_fields (4 ∷ 2 ∷ 2 ∷ ws) (date_text tm ++ (c ∷ rest))
      ≡ tm.year ∷ tm.mon ∷ tm.mday ∷ read_fields ws rest
read-date tm c ws rest v =
    ap (read_fields (4 ∷ 2 ∷ 2 ∷ ws)) (date_text-append tm (c ∷ rest))
    ∙ read-padded 3 tm.year b'-' (2 ∷ 2 ∷ ws) _ v.year
    ∙ ap (λ l. tm.year ∷ l) (read-padded 1 tm.mon b'-' (2 ∷ ws) _ v.mon)
    ∙ ap (λ l. tm.year ∷ tm.mon ∷ l) (read-padded 1 tm.mday c ws rest v.mday)

read-time :
    (tm : Tm) (micros : ℕ)
    → IsShort tm
    → micros < 10 ^ 6
    → read_fields (2 ∷ 2 ∷ 2 ∷ 6 ∷ []) (time_text tm micros)
      ≡ tm.hour ∷ tm.min ∷ tm.sec ∷ micros ∷ []
unfolding time_text
read-time tm micros v h =
    read-padded 1 tm.hour b':' (2 ∷ 2 ∷ 6 ∷ []) _ v.hour
    ∙ ap (λ l. tm.hour ∷ l) (read-padded 1 tm.min b':' (2 ∷ 6 ∷ []) _ v.min)
    ∙ ap (λ l. tm.hour ∷ tm.min ∷ l) (read-padded 1 tm.sec b'.' (6 ∷ []) _ v.sec)
    ∙ ap (λ l. tm.hour ∷ tm.min ∷ tm.sec ∷ l) (read-padded_last 5 micros h)

-- A time that is printed with its date, while years have four digits, takes 26 bytes, and the fields of
-- the local time and the microseconds can be read back from their places.
pub read-to_formatted_string :
    (localtime_r : ℕ → Tm) (us : ℕ)
    → IsShort (localtime_r (us / 1_000_000))
    → let tm = localtime_r (us / 1_000_000) in
      (length (to_formatted_string localtime_r true true us) ≡ 26)
      × (read_fields stamp_widths (to_formatted_string localtime_r true true us)
          ≡ tm.year ∷ tm.mon ∷ tm.mday ∷ tm.hour ∷ tm.min ∷ tm.sec ∷ us % 1_000_000 ∷ [])
unfolding to_formatted_string
read-to_formatted_string localtime_r us v =
    let tm = localtime_r (us / 1_000_000) in
    let micros = us % 1_000_000 in
    let small : micros < 10 ^ 6 = omega arith in
    (
      length-date tm b' ' (time_text tm micros) v
          ∙ ap (λ k. 11 + k) (length-time tm micros v small),
      read-date tm b' ' (2 ∷ 2 ∷ 2 ∷ 6 ∷ []) (time_text tm micros) v
          ∙ ap (λ l. tm.year ∷ tm.mon ∷ tm.mday ∷ l) (read-time tm micros v small),
    )
