-- ===== src/Scheduling/Run/Stopping.antt =====
-- koro/scheduler.cpp, `Scheduler::stopping`, over what it reads, each thing at its own moment.
pub mod Scanning
use koro.Prelude.{
  total-zero_inv, append_nonempty, ℕ, zero, suc, ◌≤◌, ◌<◌, ◌≡◌, ◌≢◌, refl, sym, ap, ◌∙◌, subst,
  Bool, true, false, not, ◌||◌, some, List, [], ◌∷◌, ◌++◌, if◌then◌else◌, ◌==◌, is_empty, arith,
  ◌⊎◌, inl, inr, Bool-cases, ltb, ltb→lt, update, update-cases,
}
use mathlib.Core.Option.{some-injective}
use koro.Scheduling.Task.{ready, Task, fiber, callback}
use koro.Scheduling.Run.{
  Memory, Pc, fetching, stealing, idle_next, resting, stopped, got, System, Move, Step, init, Reach,
}
use koro.Scheduling.Run.Count.{is_active}
use koro.Scheduling.Run.Invariant.{Reach-Inv}
use koro.Scheduling.Run.Tracking.{Has, tracks}
use koro.Scheduling.Run.Safety.{ready_kept}

-- The loop over the first `n` queues, `skip` left out. `queues` says of each what it holds while the loop
-- has its lock.
unfoldable pub all_empty : ℕ → ℕ → (ℕ → List Task) → Bool
all_empty zero skip queues = true
all_empty (suc n) skip queues =
    let rest = all_empty n skip queues in
    if n == skip then rest else if is_empty (queues n) then rest else false

-- The flag and the two counts as the three loads find them, and the queues as above.
unfoldable pub stopping : ℕ → ℕ → Bool → ℕ → ℕ → (ℕ → List Task) → Bool
stopping n skip stop active pending queues =
    if not stop || not (active == 0) || not (pending == 0) then false else all_empty n skip queues

-- Queues and workers that do not exist are not in use.
pub record IsWithin (n : ℕ) (queues : ℕ → List Task) (pc : ℕ → Pc) : Type 0 where
  pub queues_end : (j : ℕ) → n ≤ j → queues j ≡ []
  pub workers_end : (i : ℕ) → n ≤ i → pc i ≡ fetching

queues_end-update :
    (n : ℕ) (queues : ℕ → List Task) (i : ℕ) (q : List Task)
    → i < n
    → ((j : ℕ) → n ≤ j → queues j ≡ [])
    → (j : ℕ) → n ≤ j
    → update queues i q j ≡ []
queues_end-update n queues i q lt old j h = elim (update-cases queues i j q) [
  | inl (same, w) ↦ absurd (omega arith)
  | inr (apart, w) ↦ w ∙ old j h
]

queues_end-steal :
    (n : ℕ) (queues : ℕ → List Task) (i : ℕ) (front : List Task) (t : Task)
    → queues i ≡ front ++ t ∷ []
    → ((j : ℕ) → n ≤ j → queues j ≡ [])
    → (j : ℕ) → n ≤ j
    → update queues i front j ≡ []
queues_end-steal n queues i front t e old j h = elim (update-cases queues i j front) [
  | inl (same, w) ↦ absurd (append_nonempty front t (sym e ∙ ap queues same ∙ old j h))
  | inr (apart, w) ↦ w ∙ old j h
]

Move-queues_end :
    {n i : ℕ} {m m' : Memory} {p p' : Pc}
    → Move i m p m' p'
    → i < n
    → ((j : ℕ) → n ≤ j → m.queues j ≡ [])
    → (j : ℕ) → n ≤ j
    → m'.queues j ≡ []
Move-queues_end {n} {i} {m} (Move.pop {rest = rest} e) lt old =
    queues_end-update n m.queues i rest lt old
Move-queues_end {n} {i} {m} (Move.steal {t} victim front ne e) lt old =
    queues_end-steal n m.queues victim front t e old
Move-queues_end {n} {i} {m} (Move.push_back {f}) lt old =
    queues_end-update n m.queues i (m.queues i ++ fiber f ∷ []) lt old
Move-queues_end {n} {i} {m} (Move.requeue {f} e) lt old =
    queues_end-update n m.queues i (m.queues i ++ fiber f ∷ []) lt old
Move-queues_end mv lt old = old

Step-IsWithin :
    {n : ℕ} {s t : System}
    → Step n s t
    → IsWithin n s.mem.queues s.pc
    → IsWithin n t.mem.queues t.pc
Step-IsWithin {n} {s} (Step.pick i {m} {p} lt mv) v = record {
  queues_end = Move-queues_end mv lt v.queues_end;
  workers_end = λ j h. elim (update-cases s.pc i j p) [
    | inl (same, w) ↦ absurd (omega arith)
    | inr (apart, w) ↦ w ∙ v.workers_end j h
  ];
}
Step-IsWithin {n} {s} (Step.submit j t lt k) v = record {
  queues_end = queues_end-update n s.mem.queues j (s.mem.queues j ++ t ∷ []) lt v.queues_end;
  workers_end = v.workers_end;
}
Step-IsWithin Step.new_fiber v = v

pub Reach-IsWithin : {n : ℕ} {s : System} → Reach n s → IsWithin n s.mem.queues s.pc
unfolding init
Reach-IsWithin Reach.start = record { queues_end = λ j h. refl; workers_end = λ i h. refl }
Reach-IsWithin (Reach.later r st) = Step-IsWithin st (Reach-IsWithin r)

-- What a true answer has seen.
both_true :
    (skipped empty rest : Bool)
    → (if skipped then rest else if empty then rest else false) ≡ true
    → (rest ≡ true) × ((skipped ≡ true) ⊎ (empty ≡ true))
both_true true empty rest h = (h, inl refl)
both_true false true rest h = (h, inr refl)
both_true false false rest h = absurd (cc)

is_empty-nil : (q : List Task) → is_empty q ≡ true → q ≡ []
is_empty-nil [] h = refl
is_empty-nil (t ∷ q) h = absurd (cc)

pub all_empty-nil :
    (n skip : ℕ) (queues : ℕ → List Task)
    → all_empty n skip queues ≡ true
    → (j : ℕ) → j < n
    → j ≢ skip
    → queues j ≡ []
unfolding all_empty
all_empty-nil zero skip queues h j lt ne = absurd (omega arith)
all_empty-nil (suc n) skip queues h j lt ne =
    let (rest, last) = both_true (n == skip) (is_empty (queues n)) (all_empty n skip queues) h in
    elim (Bool-cases (j == n)) [
      | inl here ↦
          let same : j ≡ n = ground arith in
          elim last [
            | inl skipped ↦ let e : n ≡ skip = ground arith in absurd (ne (same ∙ e))
            | inr empty ↦ ap queues same ∙ is_empty-nil (queues n) empty
          ]
      | inr there ↦
          let apart : j ≢ n = ground arith in all_empty-nil n skip queues rest j (omega arith) ne
    ]

guards_passed :
    (a b c r : Bool)
    → (if not a || not b || not c then false else r) ≡ true
    → (a ≡ true) × (b ≡ true) × (c ≡ true) × (r ≡ true)
guards_passed true true true r h = (refl, refl, refl, h)
guards_passed true true false r h = absurd (cc)
guards_passed true false c r h = absurd (cc)
guards_passed false b c r h = absurd (cc)

pub stopping-true :
    (n skip active pending : ℕ) (stop : Bool) (queues : ℕ → List Task)
    → stopping n skip stop active pending queues ≡ true
    → (stop ≡ true) × (active ≡ 0) × (pending ≡ 0) × (all_empty n skip queues ≡ true)
unfolding stopping
stopping-true n skip active pending stop queues h =
    let (told, a, b, rest) =
      guards_passed stop (active == 0) (pending == 0) (all_empty n skip queues) h in
    (told, ground arith, ground arith, rest)

-- The worker has taken the task out of a queue and has not yet counted itself.
pub in_gap : (p : Pc) (f : ℕ) → is_active p ≡ 0 → tracks p ≡ some f → p ≡ got (fiber f)
in_gap (got (fiber g)) f a h = ap (λ x. got (fiber x)) (some-injective _ _ h)
in_gap (got (callback c)) f a h = absurd (cc)
in_gap fetching f a h = absurd (cc)
in_gap stealing f a h = absurd (cc)
in_gap idle_next f a h = absurd (cc)
in_gap resting f a h = absurd (cc)
in_gap stopped f a h = absurd (cc)
in_gap p f a h = absurd (omega arith)
