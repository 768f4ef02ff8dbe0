-- ===== src/Timers.antt =====
-- koro/timestamp.h, koro/timer.h and koro/timer_id.h. A time is a number of nanoseconds of the steady
-- clock; a `double` number of seconds is given as a whole number of nanoseconds, for which the
-- conversions of std::chrono are exact. `Clock::now()` is an argument of each call that reads it.
pub mod Entries
pub mod Manager
mod Examples
use koro.Prelude.{
  ℕ, zero, suc, ◌+◌, ◌-◌, ◌/◌, ◌%◌, Bool, true, false, if◌then◌else◌, ltb, leb, ℤ, pos, negsuc,
}

abbrev pub nanos : ℕ
nanos = 1_000_000_000

-- `it_value` of an `itimerspec`; `it_interval` is zero in every call.
pub record Itimerspec : Type 0 where
  pub tv_sec : ℕ
  pub tv_nsec : ℕ

unfoldable pub to_itimerspec : ℕ → Itimerspec
to_itimerspec tp = record { tv_sec = tp / nanos; tv_nsec = tp % nanos }

unfoldable pub to_relative_itimerspec : ℕ → ℕ → Itimerspec
to_relative_itimerspec now tp =
    if leb tp now
    then record { tv_sec = 0; tv_nsec = 0 }
    else record { tv_sec = (tp - now) / nanos; tv_nsec = (tp - now) % nanos }

-- `Timestamp + sec`; the steady clock starts at 0.
unfoldable pub add_seconds : ℕ → ℤ → ℕ
add_seconds tp (pos d) = tp + d
add_seconds tp (negsuc d) = tp - (d + 1)

-- `interval > 0.0`
unfoldable pub is_positive : ℤ → Bool
is_positive (pos d) = ltb 0 d
is_positive (negsuc d) = false

-- A callback is known by a number.
pub record Timer : Type 0 where
  pub expiration : ℕ
  pub interval : ℤ
  pub repeating : Bool
  pub on : Bool
  pub on_time_callback : ℕ

unfoldable pub new_timer : ℕ → ℕ → ℤ → Timer
unfolding is_positive
new_timer expiration cb interval = record {
  expiration = expiration;
  interval = interval;
  repeating = is_positive interval;
  on = false;
  on_time_callback = cb;
}

unfoldable pub enable : Bool → Timer → Timer
enable on t = record t { on = on }

unfoldable pub repeat : Timer → Timer
unfolding add_seconds
repeat t = record t { expiration = add_seconds t.expiration t.interval }
