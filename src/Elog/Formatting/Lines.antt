-- ===== src/Elog/Formatting/Lines.antt =====
-- elog/formatter.h: a formatted record is a line.
use koro.Prelude.{
  ℕ, zero, suc, ◌-◌, ◌%◌, ◌≡◌, ◌≢◌, refl, Bool, true, false, Option, some, [], ◌∷◌, ◌++◌, All,
  All-append, All-mono, Bool-cases, inl, inr, length, replicate, arith, ◌>>=◌,
}
use koro.Elog.Context.{Text, Context}
use koro.Elog.Formatting.{
  bytes, has_flag, k_full_name, k_short_name, k_line, k_func_name, k_thread_id, decimal, padded, Tm,
  date_text, time_text, to_formatted_string, log_level_to_string, name_text, func_text, tid_text,
  line_text, prefix, format,
}
use koro.Elog.Formatting.Numbers.{digits-IsDigit}

abbrev pub newline : ℕ
newline = b'\n'

-- No byte of the text is a line feed.
abbrev pub OnLine : Text → Type 0
OnLine s = All (λ c. c ≢ newline) s

-- A name that is there, without a line feed.
abbrev pub IsName : Option Text → Type 0
IsName o = (t : Text) × (o ≡ some t) × OnLine t

OnLine-append : (s t : Text) → OnLine s → OnLine t → OnLine (s ++ t)
OnLine-append s t h k = All-append (λ c. c ≢ newline) s t h k

zeros-OnLine : (k : ℕ) → OnLine (replicate k b'0')
zeros-OnLine zero = tt
zeros-OnLine (suc k) = (ground arith, zeros-OnLine k)

decimal-OnLine : (n : ℕ) → OnLine (decimal n)
decimal-OnLine n =
    All-mono (decimal n) (λ c h e. absurd (omega (arith, h.0, h.1))) (digits-IsDigit (suc n) n)

padded-OnLine : (w n : ℕ) → OnLine (padded w n)
unfolding padded
padded-OnLine w n =
    OnLine-append (replicate (w - length (decimal n)) b'0') (decimal n) (zeros-OnLine _)
      (decimal-OnLine n)

-- A number, and a separator behind it.
field-OnLine :
    (w n c : ℕ) (rest : Text) → c ≢ newline → OnLine rest → OnLine (padded w n ++ (c ∷ rest))
field-OnLine w n c rest h k = OnLine-append (padded w n) (c ∷ rest) (padded-OnLine w n) (h, k)

date-OnLine : (tm : Tm) → OnLine (date_text tm)
unfolding date_text
date-OnLine tm =
    field-OnLine 4 tm.year b'-' _ (ground arith)
      (field-OnLine 2 tm.mon b'-' _ (ground arith) (padded-OnLine 2 tm.mday))

time-OnLine : (tm : Tm) (micros : ℕ) → OnLine (time_text tm micros)
unfolding time_text
time-OnLine tm micros = field-OnLine 2 tm.hour b':' _ (ground arith) (
    field-OnLine 2 tm.min b':' _ (ground arith)
      (field-OnLine 2 tm.sec b'.' _ (ground arith) (padded-OnLine 6 micros)))

stamp-OnLine :
    (localtime_r : ℕ → Tm) (date time : Bool) (us : ℕ)
    → OnLine (to_formatted_string localtime_r date time us)
unfolding to_formatted_string
stamp-OnLine localtime_r true true us =
    OnLine-append (date_text _) _ (date-OnLine _) (ground arith, time-OnLine _ (us % 1_000_000))
stamp-OnLine localtime_r true false us = date-OnLine _
stamp-OnLine localtime_r false true us = time-OnLine _ (us % 1_000_000)
stamp-OnLine localtime_r false false us = tt

level-OnLine : (level : ℕ) → OnLine (log_level_to_string level)
unfolding log_level_to_string
level-OnLine level = ground arith

tid-OnLine : (flags : ℕ) (ctx : Context) → OnLine (tid_text flags ctx)
unfolding tid_text
tid-OnLine flags ctx = elim (Bool-cases (has_flag k_thread_id flags)) [
  | inl on ↦ rw on (
      OnLine-append (b'[' ∷ decimal ctx.tid) (b']' ∷ []) (ground arith, decimal-OnLine ctx.tid)
        (ground arith, tt))
  | inr off ↦ rw off tt
]

line-OnLine : (flags : ℕ) (ctx : Context) → OnLine (line_text flags ctx)
unfolding line_text
line-OnLine flags ctx = elim (Bool-cases (has_flag k_line flags)) [
  | inl on ↦ rw on (
      OnLine-append (b':' ∷ decimal ctx.source.line) (b' ' ∷ [])
        (ground arith, decimal-OnLine ctx.source.line) (ground arith, tt))
  | inr off ↦ rw off tt
]

name_text-IsName :
    (flags : ℕ) (ctx : Context)
    → IsName ctx.source.full_name
    → IsName ctx.source.short_name
    → IsName (name_text flags ctx)
unfolding name_text
name_text-IsName flags ctx full short = elim (Bool-cases (has_flag k_full_name flags)) [
  | inl on ↦ rw on full
  | inr off ↦ elim (Bool-cases (has_flag k_short_name flags)) [
    | inl on ↦ rw (off, on) short
    | inr off' ↦ rw (off, off') ([], refl, tt)
  ]
]

func_text-IsName :
    (flags : ℕ) (ctx : Context) → IsName ctx.source.func → IsName (func_text flags ctx)
unfolding func_text
func_text-IsName flags ctx (t, e, h) = elim (Bool-cases (has_flag k_func_name flags)) [
  | inl on ↦
      rw (on, e)
        (t ++ bytes "()", refl, OnLine-append t (bytes "()") h (ground arith, (ground arith, tt)))
  | inr off ↦ rw off ([], refl, tt)
]

prefix-OnLine :
    (localtime_r : ℕ → Tm) (flags : ℕ) (ctx : Context) (name func : Text)
    → OnLine name
    → OnLine func
    → OnLine (prefix localtime_r flags ctx name func)
unfolding prefix
prefix-OnLine localtime_r flags ctx name func h k =
    OnLine-append (to_formatted_string localtime_r _ _ ctx.timestamp) _
      (stamp-OnLine localtime_r _ _ ctx.timestamp)
      (OnLine-append (tid_text flags ctx) _ (tid-OnLine flags ctx) (
        OnLine-append (log_level_to_string ctx.level) _ (level-OnLine ctx.level) (
          OnLine-append (b' ' ∷ name) _ (ground arith, h)
            (OnLine-append (line_text flags ctx) _ (line-OnLine flags ctx) (
              OnLine-append func (bytes "-> ") k
                (ground arith, (ground arith, (ground arith, tt))))))))

bind_two :
    (o o' : Option Text) (f : Text → Text → Text) (a b : Text)
    → o ≡ some a
    → o' ≡ some b
    → (o >>= λ x. o' >>= λ y. some (f x y)) ≡ some (f a b)
bind_two o o' f a b e e' = rw (e, e') refl

-- A record whose names are set and have no line feed is formatted, with whatever flags and in whatever
-- time zone, as a text without a line feed that does not depend on the message, the message, and a line
-- feed: as one line, if the message has no line feed either.
pub format-OnLine :
    (localtime_r : ℕ → Tm) (flags : ℕ) (ctx : Context)
    → IsName ctx.source.full_name
    → IsName ctx.source.short_name
    → IsName ctx.source.func
    → (before : Text) × OnLine before
      × ((text : Text)
          → format localtime_r flags (record ctx { text = text })
            ≡ some (before ++ (text ++ newline ∷ [])))
unfolding format name_text func_text prefix tid_text line_text
format-OnLine localtime_r flags ctx full short func =
    let (a, e, h) = name_text-IsName flags ctx full short in
    let (b, e', k) = func_text-IsName flags ctx func in
    (
      prefix localtime_r flags ctx a b,
      prefix-OnLine localtime_r flags ctx a b h k,
      λ text.
          bind_two (name_text flags ctx) (func_text flags ctx)
            (λ x y. prefix localtime_r flags ctx x y ++ (text ++ newline ∷ [])) a b e e',
    )
