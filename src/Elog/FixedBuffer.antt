-- ===== src/Elog/FixedBuffer.antt =====
-- elog/fixed_buffer.hpp: an array of N records with the index of its first free slot.
pub mod Items
use koro.Prelude.{
  ℕ, ◌+◌, Bool, true, false, Option, none, some, List, if◌then◌else◌, ◌==◌, set, replicate, take,
}
use koro.Elog.Context.{Context, blank}

-- `ctxs` is the array behind the pointer, `none` after a move.
pub record Buffer : Type 0 where
  pub ctxs : Option (List Context)
  pub index : ℕ

-- `new Context[N]`, made at the time `now`.
unfoldable pub new_buffer : ℕ → ℕ → Buffer
new_buffer n now = record { ctxs = some (replicate n (blank now)); index = 0 }

-- What a move leaves behind.
unfoldable pub moved_from : Buffer
moved_from = record { ctxs = none; index = 0 }

unfoldable pub check : Buffer → Bool
check b = elim b.ctxs [ none ↦ false | some _ ↦ true ]

abbrev pub empty : Buffer → Bool
empty b = b.index == 0

abbrev pub full : ℕ → Buffer → Bool
full n b = b.index == n

-- `none`: the assertion that the array is there fails.
unfoldable pub push : ℕ → Buffer → Context → Option Buffer
push n b ctx = elim b.ctxs [
  | none ↦ none
  | some a ↦
      some (if full n b then b else record { ctxs = some (set a b.index ctx); index = b.index + 1 })
]

unfoldable pub reset : Buffer → Buffer
reset b = record b { index = 0 }

-- The records from `begin()` to `end()`.
unfoldable pub items : Buffer → List Context
items b = elim b.ctxs [ none ↦ List.[] | some a ↦ take b.index a ]
