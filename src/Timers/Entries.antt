-- ===== src/Timers/Entries.antt =====
-- `std::set<Entry>` of koro/timer_manager.h as an ordered list. An entry is a time and the address of
-- a timer; entries are ordered by time and then by address.
pub mod Order
use koro.Prelude.{
  ℕ, ◌≤◌, ◌<◌, ◌≡◌, ◌⊎◌, inl, inr, Bool, true, false, ◌&&◌, ◌||◌, List, [], ◌∷◌, ◌++◌,
  if◌then◌else◌, ltb, leb, ◌==◌,
}

pub record Entry : Type 0 where
  pub time : ℕ
  pub timer : ℕ

unfoldable pub entry_lt : Entry → Entry → Bool
entry_lt a b = ltb a.time b.time || (a.time == b.time && ltb a.timer b.timer)

-- `timers_.insert(e)`: an entry that is there already stays as it is.
unfoldable pub insert_entry : Entry → List Entry → List Entry
insert_entry e [] = e ∷ []
insert_entry e (x ∷ xs) =
    if entry_lt e x then e ∷ x ∷ xs else if entry_lt x e then x ∷ insert_entry e xs else x ∷ xs

-- The entries before `timers_.upper_bound(k)`, the first one behind `k`, and those from it on.
unfoldable pub before_upper_bound : Entry → List Entry → List Entry
before_upper_bound k [] = []
before_upper_bound k (x ∷ xs) = if entry_lt k x then [] else x ∷ before_upper_bound k xs

unfoldable pub from_upper_bound : Entry → List Entry → List Entry
from_upper_bound k [] = []
from_upper_bound k (x ∷ xs) = if entry_lt k x then x ∷ xs else from_upper_bound k xs

-- The order that a `std::set` keeps: each entry is less than all that follow.
abbrev pub AllAfter : Entry → List Entry → Type 0
AllAfter e [] = Unit {0}
AllAfter e (x ∷ xs) = (entry_lt e x ≡ true) × AllAfter e xs

abbrev pub IsOrdered : List Entry → Type 0
IsOrdered [] = Unit {0}
IsOrdered (x ∷ xs) = AllAfter x xs × IsOrdered xs
