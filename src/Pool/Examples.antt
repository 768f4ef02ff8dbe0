-- ===== src/Pool/Examples.antt =====
-- Callables of two types, and the theorems of InplaceFunction at them.
use koro.Prelude.{ℕ, ◌≡◌, ◌≢◌, some}
use koro.Pool.InplaceFunction.{
  Function, of_callable, move_assign, move_construct, invoke, swap, undefined, called, object,
}
use koro.Pool.InplaceFunction.Moves.{set, Moved, move-Moved, swap_confuses}

abbrev first : Function
first = record { vtable = some 1; buffer = object 1 10 }

abbrev second : Function
second = record { vtable = some 2; buffer = object 2 20 }

move-Moved_example : Moved second (move_assign first second) × Moved second (move_construct second)
move-Moved_example = move-Moved first second (set 1 10) (set 2 20)

swap_confuses_example :
    (◌≢◌ {A = ℕ} 1 2
      → (invoke (swap (of_callable 1 10) (of_callable 2 20)).0 ≡ undefined)
        × (invoke (swap (of_callable 1 10) (of_callable 2 20)).1 ≡ undefined))
    × (invoke (swap (of_callable 1 10) (of_callable 1 20)).0 ≡ called 10)
    × (invoke (swap (of_callable 1 10) (of_callable 1 20)).1 ≡ called 20)
swap_confuses_example = swap_confuses 1 2 10 20
