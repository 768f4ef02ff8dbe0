-- ===== src/Scheduling/Run/Invariant/Locks.antt =====
-- A move of worker `i` keeps what the invariant says about locks and states.
use koro.Prelude.{ℕ, ◌≡◌, ◌≢◌, true, false, some, ◌==◌, arith, Bool-cases, inl, inr, update}
use koro.Scheduling.Task.{running, term}
use koro.Scheduling.Run.{
  Memory, Pc, inside, Move, own_empty, try_lock, skip_dead, resume, wrap, come_back, unlock,
}
use koro.Scheduling.Run.Invariant.Defs.{owns, Inv}

-- The premise of a move that matters for locks and states, for the catch-all clauses below.
abbrev pub Guard : {i : ℕ} {m m' : Memory} {p p' : Pc} → Move i m p m' p' → Type 0
Guard {m = m} (try_lock {f} _) = m.execute f ≡ false
Guard {m = m} (resume {f} _) = m.state f ≢ term
Guard (come_back {s = s} _) = s ≢ running
Guard _ = Unit

pub guard : {i : ℕ} {m m' : Memory} {p p' : Pc} (mv : Move i m p m' p') → Guard mv
guard (try_lock g) = g
guard (resume g) = g
guard (come_back g) = g
guard _ = tt

module _ {n : ℕ} {m : Memory} {pc : ℕ → Pc} (inv : Inv n m pc) (i : ℕ) where
  open inv use {held, owner, unique, runs, runner, in_hand, unborn}

  pub Move-held :
      {p p' : Pc} {m' : Memory}
      → Move i m p m' p'
      → pc i ≡ p
      → (j f : ℕ) → owns (update pc i p' j) ≡ some f
      → m'.execute f ≡ true
  Move-held (own_empty _) e j f q = ground (arith, held j f, held i f)
  Move-held mv e j f q = ground (arith, guard mv, held j f, held i f, unique i j f, unborn m.fresh)

  pub Move-unique :
      {p p' : Pc} {m' : Memory}
      → Move i m p m' p'
      → pc i ≡ p
      → (a b f : ℕ) → owns (update pc i p' a) ≡ some f
      → owns (update pc i p' b) ≡ some f
      → a ≡ b
  Move-unique (own_empty _) e a b f qa qb = ground (arith, unique a b f)
  Move-unique mv e a b f qa qb =
      ground (arith, guard mv, unique a b f, held a f, held b f, unborn m.fresh)

  pub Move-runs :
      {p p' : Pc} {m' : Memory}
      → Move i m p m' p'
      → pc i ≡ p
      → (j f : ℕ) → update pc i p' j ≡ inside f
      → m'.state f ≡ running
  Move-runs (own_empty _) e j f q = ground (arith, runs j f)
  Move-runs mv e j f q = ground (arith, guard mv, runs j f, unique i j f, unborn m.fresh)

  pub Move-runner :
      {p p' : Pc} {m' : Memory}
      → Move i m p m' p'
      → pc i ≡ p
      → (f : ℕ) → m'.state f ≡ running
      → (j : ℕ) × (update pc i p' j ≡ inside f)
  Move-runner (own_empty _) e f q = let (j, r) = runner f q in (j, ground arith)
  Move-runner (resume {f = g} h) e f q = elim (Bool-cases (g == f)) [
    | inl same ↦ (i, ground arith)
    | inr other ↦ let (j, r) = runner f (ground arith) in (j, ground arith)
  ]
  Move-runner wrap e f q = elim (Bool-cases (m.fresh == f)) [
    | inl same ↦ (i, ground arith)
    | inr other ↦ let (j, r) = runner f (ground arith) in (j, ground arith)
  ]
  Move-runner (come_back {f = g} h) e f q =
      let other : (g == f) ≡ false = ground arith in
      let (j, r) = runner f (ground arith) in (j, ground arith)
  Move-runner mv e f q = let (j, r) = runner f q in (j, ground arith)

  pub Move-owner :
      {p p' : Pc} {m' : Memory}
      → Move i m p m' p'
      → pc i ≡ p
      → (f : ℕ) → m'.execute f ≡ true
      → (j : ℕ) × (owns (update pc i p' j) ≡ some f)
  Move-owner (own_empty _) e f q = let (j, r) = owner f q in (j, ground arith)
  Move-owner (try_lock {f = g} h) e f q = elim (Bool-cases (g == f)) [
    | inl same ↦ (i, ground arith)
    | inr other ↦ let (j, r) = owner f (ground arith) in (j, ground arith)
  ]
  Move-owner wrap e f q = elim (Bool-cases (m.fresh == f)) [
    | inl same ↦ (i, ground arith)
    | inr other ↦ let (j, r) = owner f (ground arith) in (j, ground arith)
  ]
  Move-owner (skip_dead {f = g} h) e f q =
      let other : (g == f) ≡ false = ground arith in
      let (j, r) = owner f (ground arith) in (j, ground arith)
  Move-owner (unlock {f = g}) e f q =
      let other : (g == f) ≡ false = ground arith in
      let (j, r) = owner f (ground arith) in (j, ground arith)
  Move-owner mv e f q = let (j, r) = owner f q in (j, ground arith)
