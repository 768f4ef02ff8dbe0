-- ===== src/Hook/Descriptor/Examples.antt =====
-- A descriptor whose flags are those of a file that is open for reading and writing.
use koro.Prelude.{ℕ, ◌≡◌, ◌^◌, ◌+◌, refl, true, false, some}
use koro.Hook.Descriptor.{Fcntl, set_non_blocking, new_flags}
use koro.Hook.Descriptor.Modes.{IsMode, set_non_blocking-IsMode}

never : (s after : ℕ) → true ≡ false → after ≡ s
never s after h = absurd (cc)

abbrev one_file : Fcntl ℕ
one_file = record {
  get_flags = λ s fd. some s;
  set_flags = λ s fd flags. (flags, true);
  set_ok = λ s fd flags on same h. refl;
  set_failed = λ s fd flags h. never s flags h;
}

non_blocking_run : set_non_blocking one_file 2 5 true ≡ (2 + 2 ^ 11, true)
unfolding set_non_blocking new_flags
non_blocking_run = refl

set_non_blocking-IsMode_example :
    ((set_non_blocking one_file 2 5 true).1 ≡ true
      → (new : ℕ) × (some (set_non_blocking one_file 2 5 true).0 ≡ some new) × IsMode true 2 new)
    × ((set_non_blocking one_file 2 5 true).1 ≡ false → (set_non_blocking one_file 2 5 true).0 ≡ 2)
set_non_blocking-IsMode_example = set_non_blocking-IsMode one_file 2 5 2 true refl
