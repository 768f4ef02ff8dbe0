-- ===== src/Elog/Context.antt =====
-- elog/context.h, and the record that elog/logger.cpp fills for one message.
-- Texts are lists of bytes; a null pointer is `none`.
use koro.Prelude.{ℕ, List, [], ◌∷◌, Option, none, some, if◌then◌else◌, ◌==◌}

-- A C++ string or the bytes of a C string before its terminator.
abbrev pub Text : Type 0
Text = List ℕ

pub record Data : Type 0 where
  pub line : ℕ
  pub full_name : Option Text
  pub short_name : Option Text
  pub func : Option Text

pub record Context : Type 0 where
  pub timestamp : ℕ
  pub tid : ℕ
  pub level : ℕ
  pub source : Data
  pub text : Text

-- A default constructed record, at the time `now`.
unfoldable pub blank : ℕ → Context
blank now = record {
  timestamp = now;
  tid = 0;
  level = 2;
  source = record { line = 0; full_name = none; short_name = none; func = none };
  text = [];
}

unfoldable pub with_text : Text → Context → Context
with_text msg c = record c { text = msg }

unfoldable pub with_timestamp : ℕ → Context → Context
with_timestamp time c = record c { timestamp = time }

unfoldable pub with_level : ℕ → Context → Context
with_level level c = record c { level = level }

unfoldable pub with_data : Data → Context → Context
with_data d c = record c { source = d }

-- `std::strrchr(file, '/')`, moved past the slash: the rest behind the last one, if there is one.
unfoldable pub after_last_slash : Text → Option Text
after_last_slash [] = none
after_last_slash (c ∷ cs) = elim (after_last_slash cs) [
  | some rest ↦ some rest
  | none ↦ if c == b'/' then some cs else none
]

unfoldable pub get_short_name : Text → Text
unfolding after_last_slash
get_short_name file = elim (after_last_slash file) [ some short ↦ short | none ↦ file ]

-- The record that `Logger::appendAsyncLog` builds in the thread's own `ctx`.
unfoldable pub describe : Context → ℕ → ℕ → Text → Text → Text → ℕ → Context
unfolding with_text with_data with_level with_timestamp get_short_name
describe ctx now level message file func line = with_text message (
    with_data
      (record {
        line = line;
        full_name = some file;
        short_name = some (get_short_name file);
        func = some func;
      })
      (with_level level (with_timestamp now ctx)))
