-- ===== src/Scheduling/Run/Invariant/Rest.antt =====
-- A move of worker `i` keeps what the invariant says about the counter, the queues and new fibers.
use koro.Prelude.{
  total-update, total-le, ℕ, suc, ◌≤◌, ◌<◌, ◌≡◌, false, some, List, [], ◌∷◌, ◌++◌, ◌==◌, arith,
  Bool-cases, inl, inr, All, All-append, All-mono, All-append_left, All-append_right, subst, update,
}
use koro.Scheduling.Task.{ready, Task, fiber, callback}
use koro.Scheduling.Run.{
  Memory, Pc, got, counted, IsKnown, Move, pop, own_empty, steal, count, push_back, wrap, requeue,
}
use koro.Scheduling.Run.Count.{is_active, active_workers}
use koro.Scheduling.Run.Invariant.Defs.{carries, Inv}

-- What holds of every task of a queue holds of the queue's parts.
pub All-update {ℓ κ} :
    {A : Type ℓ} (P : A → Type κ) (f : ℕ → A) (p : ℕ) (v : A)
    → P v
    → ((j : ℕ) → P (f j))
    → (j : ℕ) → P (update f p v j)
All-update P f p v h hs j = elim (Bool-cases (p == j)) [
  | inl here ↦ rw here h
  | inr there ↦ rw there (hs j)
]

IsKnown-suc : (fresh : ℕ) (t : Task) → IsKnown fresh t → IsKnown (suc fresh) t
IsKnown-suc fresh (fiber f) h = omega arith
IsKnown-suc fresh (callback c) h = tt

pub AllKnown-suc : (fresh : ℕ) (q : List Task) → All (IsKnown fresh) q → All (IsKnown (suc fresh)) q
AllKnown-suc fresh q h = All-mono q (IsKnown-suc fresh) h

module _ {n : ℕ} {m : Memory} {pc : ℕ → Pc} (inv : Inv n m pc) (i : ℕ) where
  open inv use {counts, known, in_hand, unborn}

  pub Move-counts :
      {p p' : Pc} {m' : Memory}
      → i < n
      → Move i m p m' p'
      → pc i ≡ p
      → m'.active ≡ active_workers n (update pc i p')
  Move-counts {p' = p'} h (own_empty _) e = ground (arith, total-update is_active n pc i p' h)
  Move-counts {p' = p'} h mv e =
      ground (arith, total-update is_active n pc i p' h, total-le is_active n pc i h)

  IsKnown-push :
      (f : ℕ) → f < m.fresh → (j : ℕ) → All (IsKnown m.fresh) (m.queues j ++ fiber f ∷ [])
  IsKnown-push f h j = All-append (IsKnown m.fresh) (m.queues j) _ (known j) (h, tt)

  pub Move-IsKnown :
      {p p' : Pc} {m' : Memory}
      → Move i m p m' p'
      → pc i ≡ p
      → (j : ℕ) → All (IsKnown m'.fresh) (m'.queues j)
  Move-IsKnown (pop {t} {rest} h) e =
      All-update (All (IsKnown m.fresh)) m.queues i rest
        (subst (All (IsKnown m.fresh)) h (known i)).1 known
  Move-IsKnown (steal victim front d h) e =
      All-update (All (IsKnown m.fresh)) m.queues victim front
        (All-append_left (IsKnown m.fresh) front _ (subst (All (IsKnown m.fresh)) h (known victim)))
        known
  Move-IsKnown (push_back {f}) e =
      All-update (All (IsKnown m.fresh)) m.queues i _
        (IsKnown-push f (in_hand i f (ground arith)) i) known
  Move-IsKnown (requeue {f} h) e =
      All-update (All (IsKnown m.fresh)) m.queues i _
        (IsKnown-push f (in_hand i f (ground arith)) i) known
  Move-IsKnown wrap e = λ j. AllKnown-suc m.fresh (m.queues j) (known j)
  Move-IsKnown mv e = known

  -- A task that is taken from a queue is known, and so is its fiber.
  got_known :
      (t : Task) (j f : ℕ)
      → IsKnown m.fresh t
      → carries (update pc i (got t) j) ≡ some f
      → f < m.fresh
  got_known (fiber g) j f k q = ground (arith, in_hand j f)
  got_known (callback c) j f k q = ground (arith, in_hand j f)

  still_known :
      (t : Task) (j f : ℕ)
      → pc i ≡ got t
      → carries (update pc i (counted t) j) ≡ some f
      → f < m.fresh
  still_known (fiber g) j f e q = ground (arith, in_hand j f, in_hand i f)
  still_known (callback c) j f e q = ground (arith, in_hand j f)

  pub Move-in_hand :
      {p p' : Pc} {m' : Memory}
      → Move i m p m' p'
      → pc i ≡ p
      → (j f : ℕ) → carries (update pc i p' j) ≡ some f
      → f < m'.fresh
  Move-in_hand (pop {t} h) e j f q = got_known t j f (subst (All (IsKnown m.fresh)) h (known i)).0 q
  Move-in_hand (steal {t} victim front d h) e j f q =
      got_known t j f
        (All-append_right (IsKnown m.fresh) front _
          (subst (All (IsKnown m.fresh)) h (known victim))).0
        q
  Move-in_hand (count {t}) e j f q = still_known t j f e q
  Move-in_hand mv e j f q = ground (arith, in_hand j f, in_hand i f)

  pub Move-unborn :
      {p p' : Pc} {m' : Memory}
      → Move i m p m' p'
      → pc i ≡ p
      → (f : ℕ) → m'.fresh ≤ f
      → (m'.execute f ≡ false) × (m'.state f ≡ ready)
  Move-unborn (own_empty _) e f h = unborn f h
  Move-unborn mv e f h = ground (arith, unborn f, in_hand i f)
