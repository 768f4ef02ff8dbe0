-- ===== src/Hook/Descriptor.antt =====
-- koro/file_descriptor.h, `FD::setNonBlocking`, over fcntl(2).
pub mod Modes
mod Examples
use Prim.Native.Nat.{bit_and, bit_or}
use koro.Prelude.{ℕ, ◌-◌, ◌^◌, ◌≡◌, Bool, true, false, Option, none, some, if◌then◌else◌, ◌==◌}

abbrev pub o_nonblock : ℕ
o_nonblock = 2 ^ 11

-- The flags with `O_NONBLOCK` set or cleared, in 32 bits.
unfoldable pub new_flags : Bool → ℕ → ℕ
new_flags true flags = bit_or o_nonblock flags
new_flags false flags = bit_and (2 ^ 32 - 1 - o_nonblock) flags

-- The flags of open files, by descriptor; the state of the kernel is `S`. F_SETFL stores the flags that
-- F_GETFL has read with O_NONBLOCK set or cleared; of other flags fcntl(2) ignores some.
pub record Fcntl (S : Type 0) : Type 0 where
  pub get_flags : S → ℕ → Option ℕ
  pub set_flags : S → ℕ → ℕ → S × Bool
  pub set_ok :
      (s : S) (fd flags : ℕ) (on : Bool)
      → get_flags s fd ≡ some flags
      → (set_flags s fd (new_flags on flags)).1 ≡ true
      → get_flags (set_flags s fd (new_flags on flags)).0 fd ≡ some (new_flags on flags)
  pub set_failed :
      (s : S) (fd flags : ℕ) → (set_flags s fd flags).1 ≡ false → (set_flags s fd flags).0 ≡ s

unfoldable pub set_non_blocking : {S : Type 0} → Fcntl S → S → ℕ → Bool → S × Bool
set_non_blocking fc s fd on = elim (fc.get_flags s fd) [
  | none ↦ (s, false)
  | some flags ↦
      if new_flags on flags == flags then (s, true) else fc.set_flags s fd (new_flags on flags)
]
