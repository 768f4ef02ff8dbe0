-- ===== src/Scheduling/Run/Tracking.antt =====
-- koro/scheduler.cpp: a fiber that can run is never lost between queues and workers.
use koro.Prelude.{
  ℕ, ◌<◌, ◌≡◌, refl, sym, ap, ◌∙◌, true, Option, none, some, List, [], ◌∷◌, ◌++◌, ◌==◌, arith,
  Bool-cases, ◌⊎◌, inl, inr, subst, update, update_self,
}
use koro.Scheduling.Task.{ready, Task, fiber, callback}
use koro.Scheduling.Run.{
  Memory, Pc, got, counted, refused, locked, returned, Move, pop, steal, count, try_lock, try_fail,
  push_back, skip_dead, resume, wrap, come_back, requeue, no_requeue,
}

abbrev pub Has : Task → List Task → Type 0
Has t [] = ⊥
Has t (x ∷ xs) = (t ≡ x) ⊎ Has t xs

Has-append_left : (t : Task) (xs ys : List Task) → Has t xs → Has t (xs ++ ys)
Has-append_left t [] ys h = elim h [ ]
Has-append_left t (x ∷ xs) ys (inl h) = inl h
Has-append_left t (x ∷ xs) ys (inr h) = inr (Has-append_left t xs ys h)

Has-append_last : (t : Task) (xs : List Task) → Has t (xs ++ t ∷ [])
Has-append_last t [] = inl refl
Has-append_last t (x ∷ xs) = inr (Has-append_last t xs)

-- What stands in a queue stands in its front or is the last task.
Has-split : (t x : Task) (front : List Task) → Has t (front ++ x ∷ []) → Has t front ⊎ (t ≡ x)
Has-split t x [] (inl h) = inr h
Has-split t x [] (inr h) = elim h [ ]
Has-split t x (y ∷ front) (inl h) = inl (inl h)
Has-split t x (y ∷ front) (inr h) = elim (Has-split t x front h) [
  | inl k ↦ inl (inr k)
  | inr k ↦ inr k
]

-- The fiber that the worker has taken from a queue and will resume or put back.
abbrev pub tracks : Pc → Option ℕ
tracks (got (fiber f)) = some f
tracks (counted (fiber f)) = some f
tracks (refused f) = some f
tracks (locked f) = some f
tracks (returned f) = some f
tracks _ = none

-- The fiber stands in a queue, or a worker has it in hand.
abbrev pub IsTracked : (ℕ → List Task) → (ℕ → Pc) → ℕ → Type 0
IsTracked queues pc f = ((j : ℕ) × Has (fiber f) (queues j)) ⊎ ((i : ℕ) × (tracks (pc i) ≡ some f))

pub record IsTracking (m : Memory) (pc : ℕ → Pc) : Type 0 where
  pub ready_kept : (f : ℕ) → m.state f ≡ ready → m.scheduled f ≡ true → IsTracked m.queues pc f
  pub born : (f : ℕ) → m.scheduled f ≡ true → f < m.fresh

-- A queue that grows or stays keeps its tasks.
pub queued_push :
    (queues : ℕ → List Task) (i : ℕ) (t x : Task) (j : ℕ)
    → Has t (queues j)
    → Has t (update queues i (queues i ++ x ∷ []) j)
queued_push queues i t x j h = elim (Bool-cases (i == j)) [
  | inl here ↦
      let same : j ≡ i = ground arith in
      rw here (Has-append_left t (queues i) _ (subst (λ k. Has t (queues k)) same h))
  | inr there ↦ rw there h
]

pub pushed :
    (queues : ℕ → List Task) (i : ℕ) (t : Task) → Has t (update queues i (queues i ++ t ∷ []) i)
pushed queues i t = rw (update_self queues i (queues i ++ t ∷ [])) (Has-append_last t (queues i))

module _ {m : Memory} {pc : ℕ → Pc} (v : IsTracking m pc) (i : ℕ) where
  open v use {ready_kept, born}

  -- It is enough to say what becomes of a queued fiber and of the one that worker `i` has in hand.
  carry :
      (queues : ℕ → List Task) (p p' : Pc) (f : ℕ)
      → pc i ≡ p
      → ((j : ℕ) → Has (fiber f) (m.queues j) → IsTracked queues (update pc i p') f)
      → (tracks p ≡ some f → IsTracked queues (update pc i p') f)
      → IsTracked m.queues pc f
      → IsTracked queues (update pc i p') f
  carry queues p p' f e queued hand (inl (j, h)) = queued j h
  carry queues p p' f e queued hand (inr (k, q)) = elim (Bool-cases (i == k)) [
    | inl here ↦
        let same : k ≡ i = ground arith in hand (subst (λ r. tracks r ≡ some f) (ap pc same ∙ e) q)
    | inr there ↦ inr (k, ground arith)
  ]

  in_hand :
      (queues : ℕ → List Task) (p' : Pc) (f : ℕ)
      → tracks p' ≡ some f
      → IsTracked queues (update pc i p') f
  in_hand queues p' f q = inr (i, subst (λ r. tracks r ≡ some f) (sym (update_self pc i p')) q)

  got_or_queued :
      (t : Task) (j : ℕ) (q : List Task) (f : ℕ)
      → Has (fiber f) (t ∷ q)
      → IsTracked (update m.queues j q) (update pc i (got t)) f
  got_or_queued t j q f (inl h) =
      in_hand (update m.queues j q) (got t) f (subst (λ r. tracks (got r) ≡ some f) h refl)
  got_or_queued t j q f (inr h) = inl (j, subst (Has (fiber f)) (sym (update_self m.queues j q)) h)

  -- A task is taken out of queue `j`, which keeps `q`.
  take_task :
      (t : Task) (p : Pc) (j : ℕ) (q : List Task) (f : ℕ)
      → pc i ≡ p
      → tracks p ≡ none
      → (Has (fiber f) (m.queues j) → Has (fiber f) (t ∷ q))
      → IsTracked m.queues pc f
      → IsTracked (update m.queues j q) (update pc i (got t)) f
  take_task t p j q f e free split d =
      carry _ p (got t) f e
        (λ k h. elim (Bool-cases (j == k)) [
          | inl here ↦
              let same : k ≡ j = ground arith in
              got_or_queued t j q f (split (subst (λ l. Has (fiber f) (m.queues l)) same h))
          | inr there ↦ inl (k, rw there h)
        ])
        (λ h. absurd (cc)) d

  -- A fiber is put at the end of the worker's own queue.
  put_task :
      (g : ℕ) (p p' : Pc) (f : ℕ)
      → pc i ≡ p
      → tracks p ≡ some g
      → IsTracked m.queues pc f
      → IsTracked (update m.queues i (m.queues i ++ fiber g ∷ [])) (update pc i p') f
  put_task g p p' f e hand d =
      carry _ p p' f e (λ j h. inl (j, queued_push m.queues i (fiber f) (fiber g) j h))
        (λ h.
          let same : g ≡ f = cc in
          inl (
            i,
            subst (λ k. Has (fiber k) (update m.queues i (m.queues i ++ fiber g ∷ []) i)) same
                (pushed m.queues i (fiber g)),
          ))
        d

  keep_task : (t : Task) (f : ℕ) → tracks (got t) ≡ some f → tracks (counted t) ≡ some f
  keep_task (fiber g) f q = q
  keep_task (callback c) f q = q

  pub Move-ready_kept :
      {p p' : Pc} {m' : Memory}
      → Move i m p m' p'
      → pc i ≡ p
      → (f : ℕ) → m'.state f ≡ ready
      → m'.scheduled f ≡ true
      → IsTracked m'.queues (update pc i p') f
  Move-ready_kept (pop {t} {rest} h) e f st sc =
      take_task t _ i rest f e refl (λ k. subst (Has (fiber f)) h k) (ready_kept f st sc)
  Move-ready_kept (steal {t} victim front d h) e f st sc =
      take_task t _ victim front f e refl
        (λ k. elim (Has-split (fiber f) t front (subst (Has (fiber f)) h k)) [
          | inl left ↦ inr left
          | inr last ↦ inl last
        ])
        (ready_kept f st sc)
  Move-ready_kept (count {t}) e f st sc =
      carry _ _ _ f e (λ j h. inl (j, h)) (λ q. in_hand _ (counted t) f (keep_task t f q))
        (ready_kept f st sc)
  Move-ready_kept (push_back {f = g}) e f st sc = put_task g _ _ f e refl (ready_kept f st sc)
  Move-ready_kept (requeue {f = g} h) e f st sc = put_task g _ _ f e refl (ready_kept f st sc)
  Move-ready_kept (skip_dead {f = g} h) e f st sc =
      carry _ _ _ f e (λ j h. inl (j, h)) (λ q. absurd (ground arith)) (ready_kept f st sc)
  Move-ready_kept (no_requeue {f = g} h) e f st sc =
      carry _ _ _ f e (λ j h. inl (j, h)) (λ q. absurd (ground arith)) (ready_kept f st sc)
  Move-ready_kept (resume {f = g} h) e f st sc =
      carry _ _ _ f e (λ j h. inl (j, h)) (λ q. absurd (ground arith))
        (ready_kept f (ground arith) sc)
  Move-ready_kept wrap e f st sc =
      carry _ _ _ f e (λ j h. inl (j, h)) (λ q. absurd (cc))
        (ready_kept f (ground arith) (ground arith))
  Move-ready_kept (come_back {f = g} h) e f st sc = elim (Bool-cases (g == f)) [
    | inl same ↦ in_hand _ (returned g) f (ground arith)
    | inr other ↦
        carry _ _ _ f e (λ j h. inl (j, h)) (λ q. absurd (cc)) (ready_kept f (ground arith) sc)
  ]
  Move-ready_kept (try_lock {f = g} h) e f st sc =
      carry _ _ _ f e (λ j h. inl (j, h)) (λ q. in_hand _ (locked g) f q) (ready_kept f st sc)
  Move-ready_kept (try_fail {f = g} h) e f st sc =
      carry _ _ _ f e (λ j h. inl (j, h)) (λ q. in_hand _ (refused g) f q) (ready_kept f st sc)
  Move-ready_kept mv e f st sc =
      carry _ _ _ f e (λ j h. inl (j, h)) (λ q. absurd (cc)) (ready_kept f st sc)
