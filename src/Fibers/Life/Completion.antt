-- ===== src/Fibers/Life/Completion.antt =====
-- koro/fiber.cpp: a fiber from its creation, or from `resetFunc`, to its end.
use koro.Prelude.{
  ℕ, zero, suc, ◌+◌, ◌≤◌, ◌<◌, ◌≡◌, ◌≢◌, refl, sym, ap, ◌∙◌, subst, true, Option, none, some, List,
  ◌++◌, ◌>>=◌, ◌⊎◌, inl, inr, length, append_assoc, arith, update, update_self,
}
use koro.Scheduling.Task.{State, ready, hold, term}
use koro.Fibers.{Action, entry, Fiber, Thread, can_resume, resume, reset_func}
use koro.Fibers.Coroutine.{segment, works, stops_on_way, segment-Splits}
use koro.Fibers.Switching.{IsIdle}
use koro.Fibers.Life.{IsAt, IsLeft, Stops}
use koro.Fibers.Life.Resuming.{resume_and_run, resume-segment}

-- The fiber is resumed `k` times.
unfoldable pub resume_times : ℕ → ℕ → ℕ → Thread → Option Thread
resume_times zero fuel f t = some t
resume_times (suc k) fuel f t = resume_and_run fuel f t >>= λ u. resume_times k fuel f u

-- Fiber `f` of thread `t` has done all of `rest` in thread `u`.
pub record Ended (main f : ℕ) (t : Thread) (rest : List Action) (u : Thread) : Type 0 where
  pub idle : IsIdle main u
  pub log : u.log ≡ t.log ++ works rest
  pub state : (u.fibers f).state ≡ term
  pub gone : (u.fibers f).cb ≡ none
  pub over : resume f u ≡ none
  pub others : (d : ℕ) → d ≢ f → d ≢ main → u.fibers d ≡ t.fibers d

-- A terminated fiber cannot be resumed.
term_over : (f : ℕ) (t : Thread) → (t.fibers f).state ≡ term → resume f t ≡ none
unfolding resume can_resume
term_over f t e = rw (resume, e) refl

module _ (main f fuel : ℕ) where
  abbrev Ends : ℕ → List Action → Thread → Type 0
  Ends k rest t = (u : Thread) × (resume_times k fuel f t ≡ some u) × Ended main f t rest u

  last_segment :
      (rest : List Action) (t u : Thread)
      → resume_and_run fuel f t ≡ some u
      → Stops main f t (segment rest) u
      → (segment rest).stops ≡ term
      → works rest ≡ (segment rest).done
      → Ends 1 rest t
  unfolding resume_times
  last_segment rest t u e s is_term w =
      let over : (u.fibers f).state ≡ term = s.state ∙ is_term in
      (
        u,
        ap (λ o. o >>= λ u. resume_times 0 fuel f u) e,
        record {
          idle = s.idle;
          log = s.log ∙ ap (λ l. t.log ++ l) (sym w);
          state = over;
          gone = subst (λ st. IsLeft st (segment rest).left (u.fibers f)) is_term s.left;
          over = term_over f u over;
          others = s.others;
        },
      )

  one_segment :
      (k : ℕ) (rest : List Action) (t u : Thread)
      → resume_and_run fuel f t ≡ some u
      → Stops main f t (segment rest) u
      → works rest ≡ (segment rest).done ++ works (segment rest).left
      → Ends k (segment rest).left u
      → Ends (suc k) rest t
  unfolding resume_times
  one_segment k rest t u e s w (x, ran, ended) = (
    x,
    ap (λ o. o >>= λ u. resume_times k fuel f u) e ∙ ran,
    record {
      idle = ended.idle;
      log =
          ended.log
          ∙ ap (λ l. l ++ works (segment rest).left) s.log
          ∙ append_assoc t.log (segment rest).done (works (segment rest).left)
          ∙ ap (λ l. t.log ++ l) (sym w);
      state = ended.state;
      gone = ended.gone;
      over = ended.over;
      others = λ d nf nm. ended.others d nf nm ∙ s.others d nf nm;
    },
  )

  paused :
      (rest : List Action) (s : State) (fiber : Fiber)
      → (s ≡ ready) ⊎ (s ≡ hold)
      → fiber.state ≡ s
      → IsLeft s rest fiber
      → (can_resume fiber.state ≡ true) × IsAt rest fiber
  unfolding can_resume
  paused rest s fiber (inl p) e left =
      (ap can_resume (e ∙ p), inr (subst (λ st. IsLeft st rest fiber) p left))
  paused rest s fiber (inr p) e left =
      (ap can_resume (e ∙ p), inr (subst (λ st. IsLeft st rest fiber) p left))

  Ends-below :
      (n : ℕ) (rest : List Action) (t : Thread)
      → length rest < n
      → IsIdle main t
      → f ≢ main
      → can_resume (t.fibers f).state ≡ true
      → IsAt rest (t.fibers f)
      → length rest + 2 ≤ fuel
      → Ends (suc (stops_on_way rest)) rest t
  Ends-below zero rest t lt idle ne can at enough = absurd (omega arith)
  Ends-below (suc n) rest t lt idle ne can at enough =
      let (u, e, s) = resume-segment main f rest fuel t idle ne can at enough in
      let left = (segment rest).left in
      elim (segment-Splits rest) [
        | inl (is_term, w, k) ↦
            subst (λ k. Ends (suc k) rest t) (sym k) (last_segment rest t u e s is_term w)
        | inr (pause, w, k, shorter) ↦
            let (can', at') = paused left (segment rest).stops (u.fibers f) pause s.state s.left in
            subst (λ k. Ends (suc k) rest t) (sym k)
              (one_segment (suc (stops_on_way left)) rest t u e s w
                (Ends-below n left u (omega arith) s.idle ne can' at' (omega arith)))
      ]

-- A fiber that is ready or on hold, resumed once more often than it stops on its way, does all that is
-- left of its function, in order and once, and ends: it has lost its function and cannot be resumed
-- any more. No other fiber but `main` has changed.
pub resumed_to_end :
    (main f fuel : ℕ) (rest : List Action) (t : Thread)
    → IsIdle main t
    → f ≢ main
    → can_resume (t.fibers f).state ≡ true
    → IsAt rest (t.fibers f)
    → length rest + 2 ≤ fuel
    → (u : Thread) × (resume_times (suc (stops_on_way rest)) fuel f t ≡ some u)
      × Ended main f t rest u
resumed_to_end main f fuel rest t idle ne can at enough =
    Ends-below main f fuel (suc (length rest)) rest t (omega arith) idle ne can at enough

-- `resetFunc` of a fiber that owns a stack makes it ready to do `cb` from the start.
pub reset_func-IsAt :
    (main f : ℕ) (cb : List Action) (t : Thread)
    → IsIdle main t
    → (t.fibers f).has_stack ≡ true
    → (u : Thread) × (reset_func f cb t ≡ some u)
      × IsIdle main u
      × (can_resume (u.fibers f).state ≡ true)
      × IsAt cb (u.fibers f)
unfolding reset_func can_resume
reset_func-IsAt main f cb t idle own =
    let g : Fiber = record (t.fibers f) { state = ready; cb = some cb; ctx = entry } in
    let self = update_self t.fibers f g in
    (
      record t { fibers = update t.fibers f g },
      rw own refl,
      record {
        control = idle.control;
        current = idle.current;
        scheduler = idle.scheduler;
        thread = idle.thread;
      },
      ap (λ x. can_resume x.state) self,
      inl (ap (λ x. x.ctx) self, ap (λ x. x.cb) self),
    )
