-- ===== src/Timers/Entries/Order.antt =====
-- koro/timer_manager.h: what the ordered set of entries promises.
use koro.Prelude.{
  ℕ, ◌<◌, ◌≡◌, refl, ◌⊎◌, inl, inr, Bool, true, false, List, [], ◌∷◌, ltb, leb, arith, All, select,
  Bool-cases,
}
use koro.Timers.Entries.{
  Entry, entry_lt, insert_entry, before_upper_bound, from_upper_bound, AllAfter, IsOrdered,
}

entry_lt_trans : (a b c : Entry) → entry_lt a b ≡ true → entry_lt b c ≡ true → entry_lt a c ≡ true
unfolding entry_lt
entry_lt_trans a b c p q = ground arith

-- The order is total: what is not before an entry, nor behind it, is that entry.
entry_lt_total : (a b : Entry) → entry_lt a b ≡ false → entry_lt b a ≡ false → a ≡ b
unfolding entry_lt
entry_lt_total a b p q = ground arith

AllAfter-trans : (a b : Entry) (l : List Entry) → entry_lt a b ≡ true → AllAfter b l → AllAfter a l
AllAfter-trans a b [] p h = tt
AllAfter-trans a b (x ∷ l) p h = (entry_lt_trans a b x p h.0, AllAfter-trans a b l p h.1)

AllAfter-insert :
    (a e : Entry) (l : List Entry)
    → entry_lt a e ≡ true
    → AllAfter a l
    → AllAfter a (insert_entry e l)
unfolding insert_entry
AllAfter-insert a e [] p h = (p, tt)
AllAfter-insert a e (x ∷ l) p h = ground (arith, AllAfter-insert a e l p h.1)

-- `insert` keeps the set ordered.
pub insert_entry-IsOrdered :
    (e : Entry) (l : List Entry) → IsOrdered l → IsOrdered (insert_entry e l)
unfolding insert_entry
insert_entry-IsOrdered e [] o = (tt, tt)
insert_entry-IsOrdered e (x ∷ l) o = elim (Bool-cases (entry_lt e x)) [
  | inl first ↦ rw first ((first, AllAfter-trans e x l first o.0), o)
  | inr later ↦ elim (Bool-cases (entry_lt x e)) [
    | inl behind ↦
        rw (later, behind) (AllAfter-insert x e l behind o.0, insert_entry-IsOrdered e l o.1)
    | inr there ↦ rw (later, there) o
  ]
]

-- What holds of the new entry and of all old ones holds of all entries of the new set.
pub All-insert_entry {κ} :
    (P : Entry → Type κ) (e : Entry) (l : List Entry) → P e → All P l → All P (insert_entry e l)
unfolding insert_entry
All-insert_entry P e [] h hs = (h, tt)
All-insert_entry P e (x ∷ l) h hs = elim (Bool-cases (entry_lt e x)) [
  | inl first ↦ rw first (h, hs)
  | inr later ↦ elim (Bool-cases (entry_lt x e)) [
    | inl behind ↦ rw (later, behind) (hs.0, All-insert_entry P e l h hs.1)
    | inr there ↦ rw (later, there) hs
  ]
]

-- Membership, kept as data.
abbrev pub Has : Entry → List Entry → Type 0
Has e [] = ⊥
Has e (x ∷ xs) = (e ≡ x) ⊎ Has e xs

pub Has-insert_self : (e : Entry) (l : List Entry) → Has e (insert_entry e l)
unfolding insert_entry
Has-insert_self e [] = inl refl
Has-insert_self e (x ∷ l) = elim (Bool-cases (entry_lt e x)) [
  | inl first ↦ rw first (inl refl)
  | inr later ↦ elim (Bool-cases (entry_lt x e)) [
    | inl behind ↦ rw (later, behind) (inr (Has-insert_self e l))
    | inr there ↦ rw (later, there) (inl (entry_lt_total e x later there))
  ]
]

pub Has-insert_old : (f e : Entry) (l : List Entry) → Has f l → Has f (insert_entry e l)
unfolding insert_entry
Has-insert_old f e [] h = elim h [ ]
Has-insert_old f e (x ∷ l) h = elim (Bool-cases (entry_lt e x)) [
  | inl first ↦ rw first (inr h)
  | inr later ↦ elim (Bool-cases (entry_lt x e)) [
    | inl behind ↦
        rw (later, behind)
          (elim h [ inl here ↦ inl here | inr rest ↦ inr (Has-insert_old f e l rest) ])
    | inr there ↦ rw (later, there) h
  ]
]

pub All-Has {κ} : (P : Entry → Type κ) (e : Entry) (l : List Entry) → Has e l → All P l → P e
All-Has P e [] h a = elim h [ ]
All-Has P e (x ∷ l) (inl here) a = rw here a.0
All-Has P e (x ∷ l) (inr rest) a = All-Has P e l rest a.1

abbrev pub is_due : ℕ → Entry → Bool
is_due now e = leb e.time now

abbrev pub is_later : ℕ → Entry → Bool
is_later now e = ltb now e.time

behind_later :
    (now : ℕ) (x y : Entry)
    → is_later now x ≡ true
    → entry_lt x y ≡ true
    → (is_later now y ≡ true) × (is_due now y ≡ false)
unfolding entry_lt
behind_later now x y p q = (ground arith, ground arith)

-- Behind a later entry all are later.
later_all :
    (now : ℕ) (x : Entry) (l : List Entry)
    → is_later now x ≡ true
    → AllAfter x l
    → (select (is_due now) l ≡ []) × (select (is_later now) l ≡ l)
later_all now x [] p h = (refl, refl)
later_all now x (y ∷ l) p h =
    let (q, r) = behind_later now x y p h.0 in
    let (due, rest) = later_all now x l p h.1 in (rw (r, due), rw (q, rest))

-- Cutting the set at the upper bound of `now` with the greatest address is the same as selecting the
-- entries by their times.
pub upper_bound-select :
    (now max : ℕ) (l : List Entry)
    → IsOrdered l
    → All (λ e. e.timer < max) l
    → (before_upper_bound (record { time = now; timer = max }) l ≡ select (is_due now) l)
      × (from_upper_bound (record { time = now; timer = max }) l ≡ select (is_later now) l)
unfolding before_upper_bound from_upper_bound entry_lt
upper_bound-select now max [] o b = (refl, refl)
upper_bound-select now max (x ∷ l) o b = elim (Bool-cases (is_later now x)) [
  | inl late ↦ ground (arith, later_all now x l late o.0)
  | inr due ↦ ground (arith, b.0, upper_bound-select now max l o.1 b.1)
]
