-- ===== src/Scheduling/Run/Invariant.antt =====
-- koro/scheduler.cpp: what holds in every reachable state of the workers.
mod Defs
mod Locks
mod Rest
pub use Defs.*
use koro.Prelude.{
  ℕ, suc, ◌+◌, ◌≤◌, ◌<◌, ◌≡◌, refl, sym, Bool, true, false, Option, none, some, List, [], ◌∷◌, ◌++◌,
  All, All-append, arith, ◌==◌, Bool-cases, inl, inr, if◌then◌else◌, update,
}
use koro.Scheduling.Task.{State, ready, running, Task, fiber, callback}
use koro.Scheduling.Run.{
  Memory, Pc, fetching, System, IsKnown, Move, Step, pick, submit, new_fiber, init, Reach, start,
  later,
}
use koro.Scheduling.Run.Count.{active_workers, active_workers-fetching}
use Locks.{Move-held, Move-unique, Move-runs, Move-runner, Move-owner}
use Rest.{Move-counts, Move-IsKnown, Move-in_hand, Move-unborn, All-update, AllKnown-suc}

Move-Inv :
    {n : ℕ} {m m' : Memory} {pc : ℕ → Pc} {p' : Pc} (i : ℕ)
    → i < n
    → Move i m (pc i) m' p'
    → Inv n m pc
    → Inv n m' (update pc i p')
Move-Inv i h mv v = record {
  counts = Move-counts v i h mv refl;
  held = Move-held v i mv refl;
  owner = Move-owner v i mv refl;
  unique = Move-unique v i mv refl;
  runs = Move-runs v i mv refl;
  runner = Move-runner v i mv refl;
  known = Move-IsKnown v i mv refl;
  in_hand = Move-in_hand v i mv refl;
  unborn = Move-unborn v i mv refl;
}

pub Step-Inv : {n : ℕ} {s t : System} → Step n s t → Inv n s.mem s.pc → Inv n t.mem t.pc
Step-Inv (pick i h mv) v = Move-Inv i h mv v
Step-Inv {s = s} (submit j t b h) v = record {
  counts = v.counts;
  held = v.held;
  owner = v.owner;
  unique = v.unique;
  runs = v.runs;
  runner = v.runner;
  known =
      All-update (All (IsKnown s.mem.fresh)) s.mem.queues j _
        (All-append (IsKnown s.mem.fresh) (s.mem.queues j) _ (v.known j) (h, tt)) v.known;
  in_hand = v.in_hand;
  unborn = v.unborn;
}
Step-Inv {s = s} new_fiber v = record {
  counts = v.counts;
  held = v.held;
  owner = v.owner;
  unique = v.unique;
  runs = λ i f q. ground (arith, v.runs i f, v.unborn f);
  runner = λ f q. v.runner f (ground arith);
  known = λ j. AllKnown-suc s.mem.fresh (s.mem.queues j) (v.known j);
  in_hand = λ i f q. omega (arith, v.in_hand i f q);
  unborn = λ f h. ground (arith, v.unborn f);
}

pub Reach-Inv : {n : ℕ} {s : System} → Reach n s → Inv n s.mem s.pc
unfolding init
Reach-Inv {n} start = record {
  counts = sym (active_workers-fetching n);
  held = λ i f q. cc;
  owner = λ f q. cc;
  unique = λ i j f q r. cc;
  runs = λ i f q. cc;
  runner = λ f q. cc;
  known = λ j. tt;
  in_hand = λ i f q. cc;
  unborn = λ f h. (refl, refl);
}
Reach-Inv (later r st) = Step-Inv st (Reach-Inv r)
