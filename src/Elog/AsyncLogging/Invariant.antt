-- ===== src/Elog/AsyncLogging/Invariant.antt =====
-- elog/async_logging.cpp: what holds between any two steps of the callers and the worker.
use koro.Prelude.{some, subst, ℕ, ◌≡◌, refl, sym, ◌∙◌, inl}
use koro.Elog.FixedBuffer.Items.{new_buffer-IsBuffer}
use koro.Elog.AsyncLogging.{Shared, Worker, push_locked, init_shared, init_worker}
use koro.Elog.AsyncLogging.Rounds.{
  SharedInv, TopInv, WritingInv, new_buffer-IsSpare, collect-RoundInv, write_round-TopInv,
}
use koro.Elog.AsyncLogging.Pushing.{push_locked-Accepted}
use mathlib.Core.Option.{some-injective}
use koro.Elog.Context.{Context}
use koro.Elog.AsyncLogging.System.{Pc, System, Step, Reach, init}

-- The invariant of the whole system: the shared buffers, and the worker's by where it stands.
abbrev pub WorkerInv : ℕ → Pc → Worker → Type 0
WorkerInv n Pc.top w = TopInv n w
WorkerInv n Pc.collecting w = TopInv n w
WorkerInv n Pc.writing w = WritingInv n w
WorkerInv n Pc.finished w = TopInv n w

pub record Inv (n : ℕ) (s : System) : Type 0 where
  pub shared : SharedInv n s.shared
  pub worker : WorkerInv n s.pc s.worker

init-Inv : (n now : ℕ) → Inv n (init n now)
unfolding init init_shared init_worker
init-Inv n now = record {
  shared = record {
    cur = new_buffer-IsBuffer n now;
    next = inl (new_buffer-IsSpare n now);
    filled = tt;
  };
  worker = record {
    new1 = new_buffer-IsSpare n now;
    new2 = new_buffer-IsSpare n now;
    none_left = refl;
  };
}

pub at_pc : (n : ℕ) (w : Worker) (p : Pc) {q : Pc} → p ≡ q → WorkerInv n p w → WorkerInv n q w
at_pc n w p {q} e v = rw (← e) v

pub Step-Inv : {n : ℕ} {s t : System} → Step n s t → Inv n s → Inv n t
Step-Inv (Step.check_done e) v = record { shared = v.shared; worker = v.worker }
Step-Inv {n} {s} (Step.push now k ctx r e p) v = record {
  shared =
      (let (r', a) = push_locked-Accepted n now s.shared ctx v.shared in
        subst (SharedInv n) (some-injective _ _ (sym a.done ∙ p)) a.good);
  worker = v.worker;
}
Step-Inv {n} {s} (Step.enter e d) v = record {
  shared = v.shared;
  worker = at_pc n s.worker s.pc e v.worker;
}
Step-Inv {n} {s} (Step.take e) v =
    let c = collect-RoundInv n s.shared s.worker v.shared (at_pc n s.worker s.pc e v.worker) in
    record { shared = c.shared; worker = c.worker }
Step-Inv {n} {s} (Step.write now e) v = record {
  shared = v.shared;
  worker = write_round-TopInv n now s.worker (at_pc n s.worker s.pc e v.worker);
}
Step-Inv {n} {s} (Step.leave e d) v = record {
  shared = v.shared;
  worker = at_pc n s.worker s.pc e v.worker;
}
Step-Inv Step.do_done v = record {
  shared = record { cur = v.shared.cur; next = v.shared.next; filled = v.shared.filled };
  worker = v.worker;
}

-- In every reachable state the current buffer and all filled ones are arrays of N slots with the index
-- in range; the next buffer is empty, or was moved away, and then some filled buffer waits. At the head
-- of its loop the worker has two empty spare buffers and nothing left to write; while it writes, each
-- spare buffer is empty or was moved away, and the latter only if there is something to write.
pub Reach-Inv : {n now : ℕ} {s : System} → Reach n now s → Inv n s
Reach-Inv {n} {now} Reach.start = init-Inv n now
Reach-Inv (Reach.later r st) = Step-Inv st (Reach-Inv r)

-- In every reachable state the section of `pushMessage` succeeds: it meets no buffer that was moved
-- away, so the assertion in `push` holds; and the invariant of the shared buffers holds after it.
Reach-push_locked :
    {n now : ℕ} {s : System} (later : ℕ) (ctx : Context)
    → Reach n now s
    → (r : Shared) × (push_locked n later s.shared ctx ≡ some r) × SharedInv n r
Reach-push_locked {n} {s = s} later ctx v =
    let (r, a) = push_locked-Accepted n later s.shared ctx (Reach-Inv v).shared in
    (r, a.done, a.good)
