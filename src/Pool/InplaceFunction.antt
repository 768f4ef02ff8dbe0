-- ===== src/Pool/InplaceFunction.antt =====
-- koro/inplace_function.hpp: a callable kept in a buffer, with the table of functions for its type.
pub mod Moves
use koro.Prelude.{ℕ, Bool, true, false, Option, none, some, if◌then◌else◌, ◌==◌}

-- What stands in the buffer: nothing, or an object of some type, with its value or moved from.
pub data Slot : Type 0 where
  blank : Slot
  object : ℕ → ℕ → Slot
  hollow : ℕ → Slot

-- `vtable` is the type whose functions `vtable_` has.
pub record Function : Type 0 where
  pub vtable : Option ℕ
  pub buffer : Slot

unfoldable pub nothing : Function
nothing = record { vtable = none; buffer = blank }

-- From a callable `value` of type `type`.
unfoldable pub of_callable : ℕ → ℕ → Function
of_callable type value = record { vtable = some type; buffer = object type value }

-- What a function of the table does with the buffer, if the buffer holds an object of its type; anything
-- else has no defined behaviour, `none`.
unfoldable pub as_type : ℕ → Slot → Option ℕ
as_type type blank = none
as_type type (object t value) = if t == type then some value else none
as_type type (hollow t) = none

-- `destroy`, of a live or a moved-from object of the type.
unfoldable pub destroy : ℕ → Slot → Option Slot
destroy type blank = none
destroy type (object t value) = if t == type then some blank else none
destroy type (hollow t) = if t == type then some blank else none

-- `if (vtable_) vtable_->destroy(buffer_);`
unfoldable pub destroy_own : Function → Option Slot
destroy_own f = elim f.vtable [ none ↦ some f.buffer | some type ↦ destroy type f.buffer ]

unfoldable pub assign_null : Function → Option Function
assign_null f = elim (destroy_own f) [
  | none ↦ none
  | some buffer ↦ some (record { vtable = none; buffer = buffer })
]

-- The common part of both moves, into a buffer that is free: the new function and the other one, whose
-- object stays behind moved from.
unfoldable pub take_over : Slot → Function → Option (Function × Function)
take_over buffer other = elim other.vtable [
  | none ↦ some (record { vtable = none; buffer = buffer }, other)
  | some type ↦ elim (as_type type other.buffer) [
    | none ↦ none
    | some value ↦ some (
      record { vtable = some type; buffer = object type value },
      record { vtable = none; buffer = hollow type },
    )
  ]
]

unfoldable pub move_construct : Function → Option (Function × Function)
move_construct other = take_over blank other

-- Of two different functions; assigning one to itself does nothing.
unfoldable pub move_assign : Function → Function → Option (Function × Function)
move_assign f other = elim (destroy_own f) [ none ↦ none | some buffer ↦ take_over buffer other ]

-- A call: of nothing, of a callable, or undefined.
pub data Call : Type 0 where
  skipped : Call
  called : ℕ → Call
  undefined : Call

unfoldable pub invoke : Function → Call
invoke f = elim f.vtable [
  | none ↦ skipped
  | some type ↦ elim (as_type type f.buffer) [ none ↦ undefined | some value ↦ called value ]
]

-- `operator bool`
unfoldable pub is_set : Function → Bool
is_set f = elim f.vtable [ none ↦ false | some type ↦ true ]

unfoldable pub swap : Function → Function → Function × Function
swap f other = (record f { vtable = other.vtable }, record other { vtable = f.vtable })
