-- ===== src/Pool/InplaceFunction/Moves.antt =====
-- koro/inplace_function.hpp: what moving and swapping do to the callables.
use koro.Prelude.{ℕ, ◌≡◌, ◌≢◌, refl, sym, true, false, Option, none, some, ◌==◌, arith}
use koro.Pool.InplaceFunction.{
  Slot, blank, object, hollow, Function, of_callable, as_type, destroy, destroy_own, assign_null,
  take_over, move_construct, move_assign, skipped, called, undefined, invoke, is_set, swap,
}

-- The functions that can be made: a live object of the table's type, or no table and no live object.
pub data IsValid : Function → Type 0 where
  unset : IsValid (record { vtable = none; buffer = blank })
  emptied : (type : ℕ) → IsValid (record { vtable = none; buffer = hollow type })
  set : (type value : ℕ) → IsValid (record { vtable = some type; buffer = object type value })

same_type : (type : ℕ) → (type == type) ≡ true
same_type type = ground arith

other_type : (a b : ℕ) → a ≢ b → (a == b) ≡ false
other_type a b ne = ground arith

-- The outcome of a move: both functions are in order, the target does what the source did, and the
-- source is no longer set.
abbrev pub Moved : Function → Option (Function × Function) → Type 0
Moved other o =
    (f' other' : Function) × (o ≡ some (f', other'))
    × IsValid f'
    × IsValid other'
    × (invoke f' ≡ invoke other)
    × (is_set other' ≡ false)

take_over-Moved :
    (buffer : Slot) (other : Function)
    → IsValid (record { vtable = none; buffer = buffer })
    → IsValid other
    → Moved other (take_over buffer other)
unfolding take_over as_type invoke is_set
take_over-Moved buffer _ v unset = (_, _, refl, v, unset, refl, refl)
take_over-Moved buffer _ v (emptied type) = (_, _, refl, v, emptied type, refl, refl)
take_over-Moved buffer _ v (set type value) =
    (_, _, rw (take_over, same_type type) refl, set type value, emptied type, refl, refl)

destroy_own-free :
    (f : Function)
    → IsValid f
    → (buffer : Slot) × (destroy_own f ≡ some buffer)
      × IsValid (record { vtable = none; buffer = buffer })
unfolding destroy_own destroy
destroy_own-free _ unset = (blank, refl, unset)
destroy_own-free _ (emptied type) = (hollow type, refl, emptied type)
destroy_own-free _ (set type value) = (blank, rw (same_type type) refl, unset)

-- Moving a function that is in order into another that is, by assignment or by construction, is defined:
-- both are in order afterwards, the target does what the source did, and the source is not set.
pub move-Moved :
    (f other : Function)
    → IsValid f
    → IsValid other
    → Moved other (move_assign f other) × Moved other (move_construct other)
unfolding move_assign move_construct
move-Moved f other v w =
    let (buffer, e, free) = destroy_own-free f v in
    (rw (move_assign, e) (take_over-Moved buffer other free w), take_over-Moved blank other unset w)

-- Whatever stood in the function, `= nullptr` makes it a function that is in order and does nothing.
pub assign_null-IsValid :
    (f : Function)
    → IsValid f
    → (f' : Function) × (assign_null f ≡ some f') × IsValid f' × (invoke f' ≡ skipped)
unfolding assign_null invoke
assign_null-IsValid f v =
    let (buffer, e, free) = destroy_own-free f v in
    (record { vtable = none; buffer = buffer }, rw (assign_null, e) refl, free, refl)

-- `swap` exchanges the tables and leaves the buffers: of two callables of different types, neither can be
-- called afterwards, and two callables of the same type stay where they were.
pub swap_confuses :
    (a b x y : ℕ)
    → (a ≢ b
        → (invoke (swap (of_callable a x) (of_callable b y)).0 ≡ undefined)
          × (invoke (swap (of_callable a x) (of_callable b y)).1 ≡ undefined))
      × (invoke (swap (of_callable a x) (of_callable a y)).0 ≡ called x)
      × (invoke (swap (of_callable a x) (of_callable a y)).1 ≡ called y)
unfolding swap of_callable invoke as_type
swap_confuses a b x y = (
  λ ne. (rw (invoke, other_type a b ne) refl, rw (invoke, other_type b a (λ e. ne (sym e))) refl),
  rw (invoke, same_type a) refl,
  rw (invoke, same_type a) refl,
)
