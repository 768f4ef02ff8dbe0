-- ===== src/Events/Table.antt =====
-- `ChannelTable` of koro/channel.h: the channel of each descriptor, by its address. The loop is the one
-- of `IOManager::bindTaskQueue` that makes room for a descriptor.
use koro.Prelude.{
  ℕ, zero, suc, ◌+◌, ◌*◌, ◌/◌, ◌-◌, ◌≤◌, ◌<◌, ◌≡◌, ◌≢◌, refl, ap, true, Option, none, some, List,
  [], ◌∷◌, ◌++◌, if◌then◌else◌, ltb, length, take, replicate, set, arith, length-append,
  length-replicate, Bool-cases, inl, inr,
}

abbrev pub max : ℕ → ℕ → ℕ
max a b = if ltb a b then b else a

-- `vector::resize`
unfoldable pub resize : List (Option ℕ) → ℕ → List (Option ℕ)
resize chs n = take n chs ++ replicate (n - length chs) none

-- `while (fd >= chs.size()) chs.resize(…)`, on fuel; `none` where it runs out.
unfoldable pub make_room : ℕ → ℕ → List (Option ℕ) → Option (List (Option ℕ))
make_room zero fd chs = none
make_room (suc fuel) fd chs =
    let rest = make_room fuel fd (resize chs (max (fd * 3 / 2) (fd + 16))) in
    if ltb fd (length chs) then some chs else rest

-- The entry of a descriptor; a descriptor beyond the table has none.
abbrev pub find : List (Option ℕ) → ℕ → Option ℕ
find [] fd = none
find (x ∷ chs) zero = x
find (x ∷ chs) (suc fd) = find chs fd

length-take_short : (chs : List (Option ℕ)) (n : ℕ) → length chs ≤ n → take n chs ≡ chs
length-take_short [] zero h = refl
length-take_short [] (suc n) h = refl
length-take_short (x ∷ chs) zero h = absurd (omega arith)
length-take_short (x ∷ chs) (suc n) h = ap (◌∷◌ x) (length-take_short chs n (omega arith))

find-replicate : (n g : ℕ) → find (replicate n none) g ≡ none
find-replicate zero g = refl
find-replicate (suc n) zero = refl
find-replicate (suc n) (suc g) = find-replicate n g

find-append : (chs : List (Option ℕ)) (n g : ℕ) → find (chs ++ replicate n none) g ≡ find chs g
find-append [] n g = find-replicate n g
find-append (x ∷ chs) n zero = refl
find-append (x ∷ chs) n (suc g) = find-append chs n g

pub find-set :
    (chs : List (Option ℕ)) (fd : ℕ) (v : Option ℕ) → fd < length chs → find (set chs fd v) fd ≡ v
find-set [] fd v h = absurd (omega arith)
find-set (x ∷ chs) zero v h = refl
find-set (x ∷ chs) (suc fd) v h = find-set chs fd v (omega arith)

pub find-set_ne :
    (chs : List (Option ℕ)) (fd g : ℕ) (v : Option ℕ) → g ≢ fd → find (set chs fd v) g ≡ find chs g
find-set_ne [] fd g v h = refl
find-set_ne (x ∷ chs) zero zero v h = absurd (h refl)
find-set_ne (x ∷ chs) zero (suc g) v h = refl
find-set_ne (x ∷ chs) (suc fd) zero v h = refl
find-set_ne (x ∷ chs) (suc fd) (suc g) v h = find-set_ne chs fd g v (λ e. h (ap suc e))

resize-grows :
    (chs : List (Option ℕ)) (n : ℕ)
    → length chs ≤ n
    → (length (resize chs n) ≡ n) × ((g : ℕ) → find (resize chs n) g ≡ find chs g)
unfolding resize
resize-grows chs n h =
    let e = length-take_short chs n h in
    rw e (
      omega (
        arith,
        length-append {0} chs (replicate (n - length chs) none),
        length-replicate {0} (n - length chs) none,
      ),
      λ g. find-append chs (n - length chs) g,
    )

-- The loop that makes room in the table ends within two tests of its condition: behind it the table has
-- an entry for the descriptor, and no entry has changed.
pub make_room_ends :
    (fuel fd : ℕ) (chs : List (Option ℕ))
    → (room : List (Option ℕ)) × (make_room (suc (suc fuel)) fd chs ≡ some room)
      × (fd < length room)
      × ((g : ℕ) → find room g ≡ find chs g)
unfolding make_room
make_room_ends fuel fd chs = elim (Bool-cases (ltb fd (length chs))) [
  | inl fits ↦ (chs, rw fits refl, ground arith, λ g. refl)
  | inr short ↦
      let size = max (fd * 3 / 2) (fd + 16) in
      let large : fd < size = ground arith in
      let (len, same) = resize-grows chs size (ground arith) in
      let fits : ltb fd (length (resize chs size)) ≡ true = ground arith in
      (resize chs size, rw (short, fits) refl, omega arith, same)
]
