-- ===== src/Fibers/Switching.antt =====
-- koro/fiber.cpp: what `resume`, `yield`, `hold` and the end of `mainFunc` do to the thread, while a fiber
-- is resumed from the thread's own.
use koro.Prelude.{
  ℕ, ◌≡◌, ◌≢◌, refl, fun_ext, sym, ap, ◌∙◌, true, none, some, ◌==◌, ◌>>=◌, inl, inr, Bool-cases,
  update, update_ne, update_self,
}
use koro.Scheduling.Task.{ready, running, hold, term}
use koro.Fibers.{
  Context, caller, finished, Fiber, Control, outside, Thread, set_state, load, swapcontext, partner,
  can_resume, resume, leave, yielded, yield_fiber, held, hold_fiber, end_main,
}

-- Nobody is resumed, and fibers are resumed from fiber `main`.
pub record IsIdle (main : ℕ) (t : Thread) : Type 0 where
  pub control : t.control ≡ outside
  pub current : t.t_fiber ≡ some main
  pub scheduler : t.t_scheduler_fiber ≡ some main
  pub thread : t.t_thread_fiber ≡ some main

-- Fiber `f` runs, and will go back to `main`.
pub record Runs (main f : ℕ) (t : Thread) : Type 0 where
  pub apart : f ≢ main
  pub current : t.t_fiber ≡ some f
  pub scheduler : t.t_scheduler_fiber ≡ some main
  pub thread : t.t_thread_fiber ≡ some main
  pub state : (t.fibers f).state ≡ running
  pub back : (t.fibers main).ctx ≡ caller

-- Thread `t`, where `main` goes on and `f` has stopped.
abbrev pub stopped : ℕ → ℕ → Fiber → Thread → Thread
stopped main f fiber t = record t {
  fibers = update t.fibers f fiber;
  t_fiber = some main;
  control = outside;
}

stopped-IsIdle :
    (main f : ℕ) (fiber : Fiber) (t : Thread)
    → t.t_scheduler_fiber ≡ some main
    → t.t_thread_fiber ≡ some main
    → IsIdle main (stopped main f fiber t)
stopped-IsIdle main f fiber t s th = record {
  control = refl;
  current = refl;
  scheduler = s;
  thread = th;
}

partner_lem :
    (f main : ℕ) (t : Thread)
    → t.t_scheduler_fiber ≡ some main
    → t.t_thread_fiber ≡ some main
    → partner f t ≡ some main
unfolding partner
partner_lem f main t s th = elim (Bool-cases (t.fibers f).run_in_scheduler) [
  | inl on ↦ rw on s
  | inr off ↦ rw off th
]

-- Writing a fiber twice.
update_twice :
    (fibers : ℕ → Fiber) (f : ℕ) (a b : Fiber) → update (update fibers f a) f b ≡ update fibers f b
update_twice fibers f a b =
    fun_ext λ q. elim (Bool-cases (f == q)) [ inl e ↦ rw e refl | inr e ↦ rw e refl ]

swapcontext_lem :
    (from to : ℕ) (here : Context) (t : Thread) (c : Control)
    → to ≢ from
    → load (t.fibers to).ctx ≡ some c
    → swapcontext from here to t
      ≡ some (record t {
        fibers = update t.fibers from (record (t.fibers from) { ctx = here });
        control = c;
      })
unfolding swapcontext
swapcontext_lem from to here t c ne e =
    let saved : ℕ → Fiber = update t.fibers from (record (t.fibers from) { ctx = here }) in
    ap (λ o. o >>= λ c. some (record t { fibers = saved; control = c }))
      (ap (λ fiber. load fiber.ctx) (update_ne t.fibers (record (t.fibers from) { ctx = here }) ne)
        ∙ e)

leave_lem :
    (main f : ℕ) (here : Context) (t : Thread)
    → f ≢ main
    → t.t_scheduler_fiber ≡ some main
    → t.t_thread_fiber ≡ some main
    → (t.fibers main).ctx ≡ caller
    → leave f here t ≡ some (stopped main f (record (t.fibers f) { ctx = here }) t)
unfolding leave load
leave_lem main f here t ne s th back =
    ap (λ o. o >>= λ m. swapcontext f here m (record t { t_fiber = some m }))
      (partner_lem f main t s th)
    ∙ swapcontext_lem f main here (record t { t_fiber = some main }) outside (λ e. ne (sym e))
        (ap load back)

-- The same behind a change of the fiber.
leave_updated :
    (main f : ℕ) (here : Context) (g : Fiber) (t : Thread)
    → Runs main f t
    → leave f here (record t { fibers = update t.fibers f g })
      ≡ some (stopped main f (record g { ctx = here }) t)
leave_updated main f here g t v =
    let changed = update t.fibers f g in
    let untouched : changed main ≡ t.fibers main = update_ne t.fibers g (λ e. v.apart (sym e)) in
    leave_lem main f here (record t { fibers = changed }) v.apart v.scheduler v.thread
      (ap (λ fiber. fiber.ctx) untouched ∙ v.back)
    ∙ ap (λ x. some (stopped main f (record x { ctx = here }) (record t { fibers = changed })))
        (update_self t.fibers f g)
    ∙ ap (λ fs. some (record t { fibers = fs; t_fiber = some main; control = outside }))
        (update_twice t.fibers f g (record g { ctx = here }))

pub yield_lem :
    (main f : ℕ) (here : Context) (t : Thread)
    → Runs main f t
    → yield_fiber f here t
      ≡ some (stopped main f (record (t.fibers f) { state = ready; ctx = here }) t)
unfolding yield_fiber yielded set_state
yield_lem main f here t v =
    ap (λ s. yielded s >>= λ s. leave f here (set_state f s t)) v.state
    ∙ leave_updated main f here (record (t.fibers f) { state = ready }) t v

pub hold_lem :
    (main f : ℕ) (here : Context) (t : Thread)
    → Runs main f t
    → hold_fiber f here t
      ≡ some (stopped main f (record (t.fibers f) { state = hold; ctx = here }) t)
unfolding hold_fiber held set_state
hold_lem main f here t v =
    ap (λ s. held s >>= λ s. leave f here (set_state f s t)) v.state
    ∙ leave_updated main f here (record (t.fibers f) { state = hold }) t v

-- The end of `mainFunc`: the fiber is terminated, and its function is gone.
pub end_main_lem :
    (main f : ℕ) (t : Thread)
    → Runs main f t
    → end_main t
      ≡ some (stopped main f (record (t.fibers f) { cb = none; state = term; ctx = finished }) t)
unfolding end_main yield_fiber set_state yielded
end_main_lem main f t v =
    let ended : Fiber = record (t.fibers f) { cb = none; state = term } in
    ap
      (λ o. o >>= λ f.
        yield_fiber f finished (record t {
          fibers = update t.fibers f (record (t.fibers f) { cb = none; state = term });
        }))
      v.current
    ∙ ap
        (λ s. yielded s >>= λ s.
          leave f finished (set_state f s (record t { fibers = update t.fibers f ended })))
        (ap (λ fiber. fiber.state) (update_self t.fibers f ended))
    ∙ ap
        (λ x.
          leave f finished
            (record t { fibers = update (update t.fibers f ended) f (record x { state = term }) }))
        (update_self t.fibers f ended)
    ∙ ap (λ fs. leave f finished (record t { fibers = fs })) (update_twice t.fibers f ended ended)
    ∙ leave_updated main f finished ended t v

-- What `resume` of fiber `f` in thread `t` has led to, with control `c`.
pub record Resumed (main f : ℕ) (c : Control) (t u : Thread) : Type 0 where
  pub runs : Runs main f u
  pub control : u.control ≡ c
  pub log : u.log ≡ t.log
  pub own : u.fibers f ≡ record (t.fibers f) { state = running }
  pub others : (d : ℕ) → d ≢ f → d ≢ main → u.fibers d ≡ t.fibers d

pub resume_lem :
    (main f : ℕ) (t : Thread) (c : Control)
    → IsIdle main t
    → f ≢ main
    → can_resume (t.fibers f).state ≡ true
    → load (t.fibers f).ctx ≡ some c
    → (u : Thread) × (resume f t ≡ some u) × Resumed main f c t u
unfolding resume set_state
resume_lem main f t c idle ne can e =
    let g : Fiber = record (t.fibers f) { state = running } in
    let changed : ℕ → Fiber = update t.fibers f g in
    let entered : Thread = record t { fibers = changed; t_fiber = some f } in
    let saved : ℕ → Fiber = update changed main (record (changed main) { ctx = caller }) in
    let u : Thread = record entered { fibers = saved; control = c } in
    let own : saved f ≡ g = update_ne changed _ ne ∙ update_self t.fibers f g in
    (
      u,
      rw can (
          ap (λ o. o >>= λ m. swapcontext m caller f entered)
            (partner_lem f main t idle.scheduler idle.thread)
          ∙ swapcontext_lem main f caller entered c ne
              (ap (λ x. load x.ctx) (update_self t.fibers f g) ∙ e)),
      record {
        runs = record {
          apart = ne;
          current = refl;
          scheduler = idle.scheduler;
          thread = idle.thread;
          state = ap (λ x. x.state) own;
          back =
              ap (λ x. x.ctx) (update_self changed main (record (changed main) { ctx = caller }));
        };
        control = refl;
        log = refl;
        own = own;
        others = λ d nf nm. update_ne changed _ nm ∙ update_ne t.fibers g nf;
      },
    )
