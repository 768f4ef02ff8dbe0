-- ===== src/Timers/Manager/Validity.antt =====
-- koro/timer_manager.cpp: what holds of the set of timers between two calls.
use koro.Prelude.{
  ℕ, ◌≤◌, ◌<◌, ◌≡◌, ◌≢◌, refl, sym, inl, inr, ◌&&◌, List, [], ◌∷◌, ◌++◌, arith, All,
  All-append_left, All-append_right, Bool-cases, update,
}
use koro.Timers.{Timer, repeat}
use koro.Timers.Entries.{
  Entry, entry_lt, insert_entry, before_upper_bound, from_upper_bound, IsOrdered,
}
use koro.Timers.Entries.Order.{insert_entry-IsOrdered, All-insert_entry}
use koro.Timers.Manager.{Manager, insert, max_ptr, reinsert_repeating}

-- The entry carries the timer's present expiration, and its address is in use.
abbrev pub IsKeyed : (ℕ → Timer) → ℕ → Entry → Type 0
IsKeyed heap next e = ((heap e.timer).expiration ≡ e.time) × (e.timer < next)

abbrev pub IsApart : List Entry → Entry → Type 0
IsApart l e = All (λ f. f.timer ≢ e.timer) l

-- No timer has two entries.
abbrev pub IsDistinct : List Entry → Type 0
IsDistinct [] = Unit {0}
IsDistinct (e ∷ l) = IsApart l e × IsDistinct l

pub record IsValid (m : Manager) : Type 0 where
  pub ordered : IsOrdered m.timers
  pub keyed : All (IsKeyed m.heap m.next) m.timers
  pub distinct : IsDistinct m.timers
  pub idle : m.active_timers ≡ []
  pub real : m.next ≤ max_ptr

pub IsKeyed-update :
    (heap : ℕ → Timer) (next p : ℕ) (t : Timer) (l : List Entry)
    → All (λ f. f.timer ≢ p) l
    → All (IsKeyed heap next) l
    → All (IsKeyed (update heap p t) next) l
IsKeyed-update heap next p t [] a k = tt
IsKeyed-update heap next p t (e ∷ l) a k =
    ((ground (arith, a.0, k.0.0), k.0.1), IsKeyed-update heap next p t l a.1 k.1)

pub insert_entry-IsDistinct :
    (e : Entry) (l : List Entry) → IsApart l e → IsDistinct l → IsDistinct (insert_entry e l)
unfolding insert_entry
insert_entry-IsDistinct e [] a d = (tt, tt)
insert_entry-IsDistinct e (x ∷ l) a d = elim (Bool-cases (entry_lt e x)) [
  | inl first ↦ rw first (a, d)
  | inr later ↦ elim (Bool-cases (entry_lt x e)) [
    | inl behind ↦
        rw (later, behind)
          (
            All-insert_entry (λ f. f.timer ≢ x.timer) e l (λ q. a.0 (sym q)) d.0,
            insert_entry-IsDistinct e l a.1 d.1,
          )
    | inr there ↦ rw (later, there) d
  ]
]

IsApart-insert :
    (e : Entry) (l es : List Entry)
    → All (λ f. f.timer ≢ e.timer) es
    → All (IsApart l) es
    → All (IsApart (insert_entry e l)) es
IsApart-insert e l [] d a = tt
IsApart-insert e l (f ∷ es) d a = (
  All-insert_entry (λ g. g.timer ≢ f.timer) e l (λ q. d.0 (sym q)) a.0,
  IsApart-insert e l es d.1 a.1,
)

-- What the loop of `resetTimer` has still to do, and what it has done so far.
pub record IsMidway (es : List Entry) (m : Manager) : Type 0 where
  pub ordered : IsOrdered m.timers
  pub keyed : All (IsKeyed m.heap m.next) m.timers
  pub distinct : IsDistinct m.timers
  pub active_keyed : All (IsKeyed m.heap m.next) es
  pub active_distinct : IsDistinct es
  pub apart : All (IsApart m.timers) es

-- One turn of the loop puts the timer back under its new expiration.
unfoldable pub put_back : Entry → Manager → Manager
put_back e m = insert e.timer (record m { heap = update m.heap e.timer (repeat (m.heap e.timer)) })

pub put_back-IsMidway :
    (e : Entry) (es : List Entry) (m : Manager) → IsMidway (e ∷ es) m → IsMidway es (put_back e m)
unfolding put_back insert
put_back-IsMidway e es m v = record {
  ordered = insert_entry-IsOrdered _ m.timers v.ordered;
  keyed =
      All-insert_entry _ _ m.timers (refl, v.active_keyed.0.1)
        (IsKeyed-update m.heap m.next e.timer _ m.timers v.apart.0 v.keyed);
  distinct = insert_entry-IsDistinct _ m.timers v.apart.0 v.distinct;
  active_keyed = IsKeyed-update m.heap m.next e.timer _ es v.active_distinct.0 v.active_keyed.1;
  active_distinct = v.active_distinct.1;
  apart = IsApart-insert _ m.timers es v.active_distinct.0 v.apart.1;
}

pub skip-IsMidway :
    (e : Entry) (es : List Entry) (m : Manager) → IsMidway (e ∷ es) m → IsMidway es m
skip-IsMidway e es m v = record {
  ordered = v.ordered;
  keyed = v.keyed;
  distinct = v.distinct;
  active_keyed = v.active_keyed.1;
  active_distinct = v.active_distinct.1;
  apart = v.apart.1;
}

pub reinsert-IsMidway :
    (es : List Entry) (m : Manager) → IsMidway es m → IsMidway [] (reinsert_repeating es m)
unfolding reinsert_repeating put_back
reinsert-IsMidway [] m v = v
reinsert-IsMidway (e ∷ es) m v =
    elim (Bool-cases ((m.heap e.timer).on && (m.heap e.timer).repeating)) [
      | inl again ↦ rw again (reinsert-IsMidway es (put_back e m) (put_back-IsMidway e es m v))
      | inr once ↦ rw once (reinsert-IsMidway es m (skip-IsMidway e es m v))
    ]

-- The loop leaves the addresses in use, the queue and the descriptor as they are.
pub reinsert-fields :
    (es : List Entry) (m : Manager)
    → ((reinsert_repeating es m).next ≡ m.next)
      × ((reinsert_repeating es m).tasks ≡ m.tasks)
      × ((reinsert_repeating es m).fd ≡ m.fd)
unfolding reinsert_repeating put_back insert
reinsert-fields [] m = (refl, refl, refl)
reinsert-fields (e ∷ es) m = elim (Bool-cases ((m.heap e.timer).on && (m.heap e.timer).repeating)) [
  | inl again ↦ rw (again, reinsert_repeating) (reinsert-fields es (put_back e m))
  | inr once ↦ rw (once, reinsert_repeating) (reinsert-fields es m)
]

-- Cutting the set in two: the parts keep what held of the whole.
pub before-from : (k : Entry) (l : List Entry) → before_upper_bound k l ++ from_upper_bound k l ≡ l
unfolding before_upper_bound from_upper_bound
before-from k [] = refl
before-from k (x ∷ l) = ground (arith, before-from k l)

IsOrdered-append_right : (xs ys : List Entry) → IsOrdered (xs ++ ys) → IsOrdered ys
IsOrdered-append_right [] ys o = o
IsOrdered-append_right (x ∷ xs) ys o = IsOrdered-append_right xs ys o.1

IsDistinct-append :
    (xs ys : List Entry)
    → IsDistinct (xs ++ ys)
    → IsDistinct xs × IsDistinct ys × All (IsApart ys) xs
IsDistinct-append [] ys d = (tt, d, tt)
IsDistinct-append (x ∷ xs) ys d =
    let (left, right, apart) = IsDistinct-append xs ys d.1 in
    (
      (All-append_left _ xs ys d.0, left),
      right,
      (All-append_right (λ f. f.timer ≢ x.timer) xs ys d.0, apart),
    )

-- Where the loop starts after the set was cut.
pub cut-IsMidway :
    (k : Entry) (m : Manager)
    → IsValid m
    → IsMidway (before_upper_bound k m.timers) (record m { timers = from_upper_bound k m.timers })
cut-IsMidway k m v =
    let (left, right, apart) = IsDistinct-append first rest (rw whole v.distinct) in
    record {
      ordered = IsOrdered-append_right first rest (rw whole v.ordered);
      keyed = All-append_right _ first rest (rw whole v.keyed);
      distinct = right;
      active_keyed = All-append_left _ first rest (rw whole v.keyed);
      active_distinct = left;
      apart = apart;
    }
  where
    first : List Entry
    first = before_upper_bound k m.timers

    rest : List Entry
    rest = from_upper_bound k m.timers

    whole : first ++ rest ≡ m.timers
    whole = before-from k m.timers
