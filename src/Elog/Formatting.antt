-- ===== src/Elog/Formatting.antt =====
-- elog/formatter.h, flags.h, timestamp.cpp, and the line of elog/logger.h that goes to the console. Texts
-- are lists of bytes. The time zone, which `localtime_r` reads, is a parameter. Times before 1970 are left
-- out.
pub mod Numbers
pub mod Stamp
pub mod Lines
pub mod Flags
mod Examples
use Prim.Native.Nat.{bit_and}
use mathlib.Core.Option
use Prim.Native.Char.{code}
use Prim.Native.String.{String}
use koro.Prelude.{
  ℕ, zero, suc, ◌+◌, ◌-◌, ◌/◌, ◌%◌, ◌^◌, Bool, true, false, not, ◌&&◌, Option, none, some, List, [],
  ◌∷◌, ◌++◌, if◌then◌else◌, ◌==◌, ltb, length, replicate, ◌>>=◌,
}
use koro.Elog.Context.{Text, Context, get_short_name}

abbrev pub bytes : String → Text
bytes String.[] = []
bytes (String.◌∷◌ c s) = code c ∷ bytes s

-- The flags, a byte.
abbrev pub k_date : ℕ
k_date = 1

abbrev pub k_time : ℕ
k_time = 2

abbrev pub k_full_name : ℕ
k_full_name = 4

abbrev pub k_short_name : ℕ
k_short_name = 8

abbrev pub k_line : ℕ
k_line = 16

abbrev pub k_func_name : ℕ
k_func_name = 32

abbrev pub k_thread_id : ℕ
k_thread_id = 64

abbrev pub k_std_flags : ℕ
k_std_flags = 1 + 2 + 64 + 8 + 16 + 32

-- `flags & flag`, as a condition.
unfoldable pub has_flag : ℕ → ℕ → Bool
has_flag flag flags = not (bit_and flag flags == 0)

-- `{}` of a number: the digits of `n`, on fuel; `suc n` is enough.
unfoldable pub digits : ℕ → ℕ → Text
digits zero n = []
digits (suc fuel) n =
    let before = digits fuel (n / 10) in
    if ltb n 10 then (b'0' + n) ∷ [] else before ++ (b'0' + n % 10) ∷ []

abbrev pub decimal : ℕ → Text
decimal n = digits (suc n) n

-- `{:0wd}`
unfoldable pub padded : ℕ → ℕ → Text
padded w n = replicate (w - length (decimal n)) b'0' ++ decimal n

-- `tm`, with the year and the month as they are printed.
pub record Tm : Type 0 where
  pub year : ℕ
  pub mon : ℕ
  pub mday : ℕ
  pub hour : ℕ
  pub min : ℕ
  pub sec : ℕ

unfoldable pub date_text : Tm → Text
date_text tm = padded 4 tm.year ++ (b'-' ∷ padded 2 tm.mon ++ (b'-' ∷ padded 2 tm.mday))

unfoldable pub time_text : Tm → ℕ → Text
time_text tm micros =
    padded 2 tm.hour
    ++ (b':' ∷ padded 2 tm.min ++ (b':' ∷ padded 2 tm.sec ++ (b'.' ∷ padded 6 micros)))

-- `us` is the time in microseconds.
unfoldable pub to_formatted_string : (ℕ → Tm) → Bool → Bool → ℕ → Text
to_formatted_string localtime_r date time us =
    let tm = localtime_r (us / 1_000_000) in
    let micros = us % 1_000_000 in
    if not date && not time
    then []
    else if date && time
    then date_text tm ++ (b' ' ∷ time_text tm micros)
    else if date
    then date_text tm
    else time_text tm micros

unfoldable pub log_level_to_string : ℕ → Text
log_level_to_string level =
    if level == 0
    then bytes "TRACE"
    else if level == 1
    then bytes "DEBUG"
    else if level == 2
    then bytes "INFO"
    else if level == 3
    then bytes "WARN"
    else if level == 4
    then bytes "ERROR"
    else if level == 5
    then bytes "FATAL"
    else bytes "UNKNOWN"

-- `none` is the use of a null pointer, also below.
unfoldable pub name_text : ℕ → Context → Option Text
name_text flags ctx =
    if has_flag k_full_name flags
    then ctx.source.full_name
    else if has_flag k_short_name flags
    then ctx.source.short_name
    else some []

unfoldable pub func_text : ℕ → Context → Option Text
func_text flags ctx =
    if has_flag k_func_name flags
    then Option.map (λ f. f ++ bytes "()") ctx.source.func
    else some []

unfoldable pub tid_text : ℕ → Context → Text
tid_text flags ctx = if has_flag k_thread_id flags then b'[' ∷ decimal ctx.tid ++ b']' ∷ [] else []

unfoldable pub line_text : ℕ → Context → Text
line_text flags ctx =
    if has_flag k_line flags then b':' ∷ decimal ctx.source.line ++ b' ' ∷ [] else []

-- What stands before the text, given the names of the file and of the function.
unfoldable pub prefix : (ℕ → Tm) → ℕ → Context → Text → Text → Text
prefix localtime_r flags ctx name func =
    to_formatted_string localtime_r (has_flag k_date flags) (has_flag k_time flags) ctx.timestamp
    ++ (tid_text flags ctx
        ++ (log_level_to_string ctx.level
            ++ (b' ' ∷ name ++ (line_text flags ctx ++ (func ++ bytes "-> ")))))

unfoldable pub format : (ℕ → Tm) → ℕ → Context → Option Text
format localtime_r flags ctx = do
  name ← name_text flags ctx
  func ← func_text flags ctx
  some (prefix localtime_r flags ctx name func ++ (ctx.text ++ b'\n' ∷ []))
