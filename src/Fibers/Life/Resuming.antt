-- ===== src/Fibers/Life/Resuming.antt =====
-- koro/fiber.cpp: `resume` with all that the fiber does until control comes back, once and until it ends.
use koro.Prelude.{
  ℕ, suc, ◌+◌, ◌≤◌, ◌≡◌, ◌≢◌, refl, ap, ◌∙◌, true, false, Option, none, some, List, [], ◌++◌,
  if◌then◌else◌, ◌==◌, ◌>>=◌, ◌⊎◌, inl, inr, length, arith,
}
use koro.Fibers.{
  Action, Control, starting, inside, Thread, can_resume, resume, load, is_thread_fiber, start_main,
  step, run,
}
use koro.Fibers.Coroutine.{Segment, segment}
use koro.Fibers.Switching.{IsIdle, Runs, Resumed, resume_lem}
use koro.Fibers.Life.{IsAt, Stops, run-step, run_inside, run_enough}

-- `resume`, and `fuel` actions at most until it returns.
unfoldable pub resume_and_run : ℕ → ℕ → Thread → Option Thread
resume_and_run fuel f t = resume f t >>= λ u. run fuel u

module _ (main f : ℕ) where
  starting_lem :
      (rest : List Action) (u : Thread)
      → Runs main f u
      → (u.fibers f).cb ≡ some rest
      → start_main u ≡ some (record u { control = inside rest })
  unfolding start_main is_thread_fiber
  starting_lem rest u v e =
      let other : (f == main) ≡ false = ground (arith, v.apart) in
      ap
        (λ o. o >>= λ f.
          (if is_thread_fiber f u
            then none
            else some (record u {
              control = elim (u.fibers f).cb [ none ↦ inside [] | some actions ↦ inside actions ];
            })))
        v.current
      ∙ ap
          (λ b.
            if b
            then none
            else some (record u {
              control = elim (u.fibers f).cb [ none ↦ inside [] | some actions ↦ inside actions ];
            }))
          (ap (λ o. elim o [ none ↦ false | some m ↦ f == m ]) v.thread ∙ other)
      ∙ ap
          (λ o.
            some
              (record u { control = elim o [ none ↦ inside [] | some actions ↦ inside actions ] }))
          e

  -- From the moment behind `swapcontext`.
  Stops-Resumed :
      {c : Control} {t u x : Thread} {s : Segment}
      → Resumed main f c t u
      → Stops main f u s x
      → Stops main f t s x
  Stops-Resumed {s = s} r st = record {
    idle = st.idle;
    log = st.log ∙ ap (λ l. l ++ s.done) r.log;
    state = st.state;
    left = st.left;
    others = λ d nf nm. st.others d nf nm ∙ r.others d nf nm;
  }

  run-Resumed :
      (rest : List Action) (c : Control) (t u : Thread)
      → Resumed main f c t u
      → (c ≡ starting) × ((t.fibers f).cb ≡ some rest) ⊎ (c ≡ inside rest)
      → (x : Thread) × (run (suc (suc (length rest))) u ≡ some x) × Stops main f t (segment rest) x
  unfolding step
  run-Resumed rest c t u r (inl (e, cb)) =
      let begun : Thread = record u { control = inside rest } in
      let v = r.runs in
      let v' : Runs main f begun = record {
        apart = v.apart;
        current = v.current;
        scheduler = v.scheduler;
        thread = v.thread;
        state = v.state;
        back = v.back;
      } in
      let (x, ran, stops) = run_inside main f rest begun v' refl in
      (
        x,
        run-step (suc (length rest)) u begun starting (r.control ∙ e)
              (starting_lem rest u v (ap (λ fiber. fiber.cb) r.own ∙ cb))
            ∙ ran,
        Stops-Resumed r (record {
          idle = stops.idle;
          log = stops.log;
          state = stops.state;
          left = stops.left;
          others = stops.others;
        }),
      )
  run-Resumed rest c t u r (inr e) =
      let (x, ran, stops) = run_inside main f rest u r.runs (r.control ∙ e) in
      (
        x,
        run_enough (suc (length rest)) (suc (suc (length rest))) u x ran stops.idle.control
            (omega arith),
        Stops-Resumed r stops,
      )

  -- `resume` of a fiber that is ready or on hold, from a thread where nobody is resumed: control comes
  -- back, the fiber has done what its function does up to the next `yield`, the next `hold` or its end,
  -- its state says which, it will go on right behind that point, and no other fiber but `main` has
  -- changed.
  pub resume-segment :
      (rest : List Action) (fuel : ℕ) (t : Thread)
      → IsIdle main t
      → f ≢ main
      → can_resume (t.fibers f).state ≡ true
      → IsAt rest (t.fibers f)
      → length rest + 2 ≤ fuel
      → (u : Thread) × (resume_and_run fuel f t ≡ some u) × Stops main f t (segment rest) u
  unfolding resume_and_run load
  resume-segment rest fuel t idle ne can (inl (ctx, cb)) enough =
      let (u, e, r) = resume_lem main f t starting idle ne can (ap load ctx) in
      let (x, ran, stops) = run-Resumed rest starting t u r (inl (refl, cb)) in
      (
        x,
        ap (λ o. o >>= λ u. run fuel u) e
            ∙ run_enough (suc (suc (length rest))) fuel u x ran stops.idle.control (omega arith),
        stops,
      )
  resume-segment rest fuel t idle ne can (inr ctx) enough =
      let (u, e, r) = resume_lem main f t (inside rest) idle ne can (ap load ctx) in
      let (x, ran, stops) = run-Resumed rest (inside rest) t u r (inr refl) in
      (
        x,
        ap (λ o. o >>= λ u. run fuel u) e
            ∙ run_enough (suc (suc (length rest))) fuel u x ran stops.idle.control (omega arith),
        stops,
      )
