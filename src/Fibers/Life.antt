-- ===== src/Fibers/Life.antt =====
-- koro/fiber.cpp: the switching of contexts gives coroutines. A resumed fiber does one segment of its
-- function, and a fiber that is resumed until it ends does all of it.
pub mod Resuming
pub mod Completion
use koro.Prelude.{
  ◌≤◌, Option-cases, Bool-cases, ℕ, zero, suc, ◌+◌, ◌≡◌, ◌≢◌, refl, sym, ap, ◌∙◌, subst, Bool, true,
  false, Option, none, some, List, [], ◌∷◌, ◌++◌, if◌then◌else◌, ◌==◌, ◌>>=◌, ◌⊎◌, inl, inr, length,
  append_assoc, append-nil, arith, update, update_ne, update_self,
}
use mathlib.Core.Option.{some-injective}
use koro.Scheduling.Task.{State, ready, running, hold, term}
use koro.Fibers.{
  Action, work, yields, holds, Context, entry, behind, caller, finished, Fiber, Control, outside,
  starting, inside, Thread, can_resume, resume, load, yield_fiber, hold_fiber, is_thread_fiber,
  start_main, step, run,
}
use koro.Fibers.Coroutine.{Segment, segment, works, stops_on_way}
use koro.Fibers.Switching.{
  IsIdle, Runs, stopped, yield_lem, hold_lem, end_main_lem, Resumed, resume_lem,
}

-- The fiber has `rest` of its function to do: it was never resumed, or it has stopped in the middle.
abbrev pub IsAt : List Action → Fiber → Type 0
IsAt rest fiber = (fiber.ctx ≡ entry) × (fiber.cb ≡ some rest) ⊎ (fiber.ctx ≡ behind rest)

-- A fiber that has ended has lost its function; any other has `rest` to do.
abbrev pub IsLeft : State → List Action → Fiber → Type 0
IsLeft term rest fiber = fiber.cb ≡ none
IsLeft _ rest fiber = fiber.ctx ≡ behind rest

-- From thread `t`, fiber `f` has done segment `s`, and `main` goes on in thread `u`.
pub record Stops (main f : ℕ) (t : Thread) (s : Segment) (u : Thread) : Type 0 where
  pub idle : IsIdle main u
  pub log : u.log ≡ t.log ++ s.done
  pub state : (u.fibers f).state ≡ s.stops
  pub left : IsLeft s.stops s.left (u.fibers f)
  pub others : (d : ℕ) → d ≢ f → d ≢ main → u.fibers d ≡ t.fibers d

module _ (main f : ℕ) where
  stopped-Stops :
      (t : Thread) (g : Fiber) (rest : List Action)
      → Runs main f t
      → IsLeft g.state rest g
      → Stops main f t (record { done = []; stops = g.state; left = rest }) (stopped main f g t)
  stopped-Stops t g rest v left = record {
    idle = record { control = refl; current = refl; scheduler = v.scheduler; thread = v.thread };
    log = sym (append-nil t.log);
    state = ap (λ x. x.state) (update_self t.fibers f g);
    left = subst (IsLeft g.state rest) (sym (update_self t.fibers f g)) left;
    others = λ d nf nm. update_ne t.fibers g nf;
  }

run_outside : (n : ℕ) (t : Thread) → t.control ≡ outside → run n t ≡ some t
unfolding run step
run_outside zero t e = refl
run_outside (suc n) t e = ap (λ c. step c t >>= λ u. run n u) e ∙ run_outside n t e

run-step :
    (n : ℕ) (t u : Thread) (c : Control)
    → t.control ≡ c
    → step c t ≡ some u
    → run (suc n) t ≡ run n u
unfolding run
run-step n t u c e h = ap (λ c. step c t >>= λ u. run n u) e ∙ ap (λ o. o >>= λ u. run n u) h

module _ (main f : ℕ) where
  -- The running fiber, up to its next stop.
  run_inside :
      (rest : List Action) (t : Thread)
      → Runs main f t
      → t.control ≡ inside rest
      → (u : Thread) × (run (suc (length rest)) t ≡ some u) × Stops main f t (segment rest) u
  unfolding step
  run_inside [] t v e =
      let g : Fiber = record (t.fibers f) { cb = none; state = term; ctx = finished } in
      (
        stopped main f g t,
        run-step 0 t (stopped main f g t) (inside []) e (end_main_lem main f t v)
            ∙ run_outside 0 (stopped main f g t) refl,
        stopped-Stops main f t g [] v refl,
      )
  run_inside (work n ∷ rest) t v e =
      let t' : Thread = record t { log = t.log ++ n ∷ []; control = inside rest } in
      let v' : Runs main f t' = record {
        apart = v.apart;
        current = v.current;
        scheduler = v.scheduler;
        thread = v.thread;
        state = v.state;
        back = v.back;
      } in
      let (u, ran, stops) = run_inside rest t' v' refl in
      (
        u,
        run-step (suc (length rest)) t t' (inside (work n ∷ rest)) e refl ∙ ran,
        record {
          idle = stops.idle;
          log = stops.log ∙ append_assoc t.log (n ∷ []) (segment rest).done;
          state = stops.state;
          left = stops.left;
          others = stops.others;
        },
      )
  run_inside (yields ∷ rest) t v e =
      let g : Fiber = record (t.fibers f) { state = ready; ctx = behind rest } in
      (
        stopped main f g t,
        run-step (suc (length rest)) t (stopped main f g t) (inside (yields ∷ rest)) e (
              ap (λ o. o >>= λ f. yield_fiber f (behind rest) t) v.current
              ∙ yield_lem main f (behind rest) t v)
            ∙ run_outside (suc (length rest)) (stopped main f g t) refl,
        stopped-Stops main f t g rest v refl,
      )
  run_inside (holds ∷ rest) t v e =
      let g : Fiber = record (t.fibers f) { state = hold; ctx = behind rest } in
      (
        stopped main f g t,
        run-step (suc (length rest)) t (stopped main f g t) (inside (holds ∷ rest)) e (
              ap (λ o. o >>= λ f. hold_fiber f (behind rest) t) v.current
              ∙ hold_lem main f (behind rest) t v)
            ∙ run_outside (suc (length rest)) (stopped main f g t) refl,
        stopped-Stops main f t g rest v refl,
      )

-- More steps change nothing once the control is outside.
run_more : (n : ℕ) (t u : Thread) → run n t ≡ some u → u.control ≡ outside → run (suc n) t ≡ some u
unfolding run step
run_more zero t u ran out =
    let same : t ≡ u = some-injective _ _ ran in
    run_outside 1 t (ap (λ x. x.control) same ∙ out) ∙ ran
run_more (suc n) t u ran out = elim (Option-cases (step t.control t)) [
  | inl e ↦ absurd (cc)
  | inr (v, e) ↦
      ap (λ o. o >>= λ u. run (suc n) u) e
      ∙ run_more n v u (sym (ap (λ o. o >>= λ u. run n u) e) ∙ ran) out
]

pub run_enough :
    (n m : ℕ) (t u : Thread) → run n t ≡ some u → u.control ≡ outside → n ≤ m → run m t ≡ some u
run_enough n zero t u ran out le =
    let same : n ≡ zero = omega arith in ap (λ k. run k t) (sym same) ∙ ran
run_enough n (suc m) t u ran out le = elim (Bool-cases (n == suc m)) [
  | inl here ↦ let same : n ≡ suc m = ground arith in ap (λ k. run k t) (sym same) ∙ ran
  | inr less ↦ run_more m t u (run_enough n m t u ran out (ground arith)) out
]
