-- ===== src/Elog/Formatting/Examples.antt =====
-- A record of line 7 of main.cpp, at one second and five microseconds.
use koro.Prelude.{
  ℕ, ◌%◌, ◌≡◌, refl, true, some, [], ◌∷◌, ◌++◌, length, arith, Bool, not, ◌&&◌, ◌==◌, Bool-cases,
  inl, inr,
}
use koro.Elog.Context.{Text, Context}
use koro.Elog.Formatting.{
  bytes, k_std_flags, digits, padded, Tm, date_text, time_text, to_formatted_string,
  log_level_to_string, name_text, func_text, tid_text, line_text, prefix, format, has_flag,
}
use koro.Elog.Formatting.Numbers.{read_fields}
use koro.Elog.Formatting.Stamp.{stamp_widths, read-to_formatted_string}
use koro.Elog.Formatting.Lines.{newline, OnLine, format-OnLine}

abbrev some_day : ℕ → Tm
some_day secs = record { year = 2025; mon = 3; mday = 9; hour = 8; min = 30; sec = secs % 60 }

abbrev in_main : Context
in_main = record {
  timestamp = 1_000_005;
  tid = 12;
  level = 3;
  source = record {
    line = 7;
    full_name = some (bytes "src/main.cpp");
    short_name = some (bytes "main.cpp");
    func = some (bytes "main");
  };
  text = bytes "hello";
}

format_run :
    format some_day k_std_flags in_main
    ≡ some (bytes "2025-03-09 08:30:01.000005[12]WARN main.cpp:7 main()-> hello" ++ newline ∷ [])
unfolding format name_text func_text prefix tid_text line_text has_flag to_formatted_string
    date_text time_text padded digits log_level_to_string
format_run = refl

read-to_formatted_string_example :
    (length (to_formatted_string some_day true true 1_000_005) ≡ 26)
    × (read_fields stamp_widths (to_formatted_string some_day true true 1_000_005)
        ≡ 2025 ∷ 3 ∷ 9 ∷ 8 ∷ 30 ∷ 1 ∷ 5 ∷ [])
read-to_formatted_string_example = read-to_formatted_string some_day 1_000_005 (record {
  year = ground arith;
  mon = ground arith;
  mday = ground arith;
  hour = ground arith;
  min = ground arith;
  sec = ground arith;
})

abbrev is_on_line : Text → Bool
is_on_line [] = true
is_on_line (c ∷ s) = not (c == newline) && is_on_line s

is_on_line-OnLine : (s : Text) → is_on_line s ≡ true → OnLine s
is_on_line-OnLine [] h = tt
is_on_line-OnLine (c ∷ s) h = elim (Bool-cases (c == newline)) [
  | inl e ↦ absurd (ground arith)
  | inr ne ↦ (ground arith, is_on_line-OnLine s (rw ne at h))
]

format-OnLine_example :
    (before : Text) × OnLine before
    × ((text : Text)
        → format some_day k_std_flags (record in_main { text = text })
          ≡ some (before ++ (text ++ newline ∷ [])))
format-OnLine_example =
    format-OnLine some_day k_std_flags in_main
      (bytes "src/main.cpp", refl, is_on_line-OnLine (bytes "src/main.cpp") refl)
      (bytes "main.cpp", refl, is_on_line-OnLine (bytes "main.cpp") refl)
      (bytes "main", refl, is_on_line-OnLine (bytes "main") refl)
