-- ===== src/Elog/AsyncLogging/Shutdown.antt =====
-- elog/async_logging.cpp, `doDone` and the end of `threadWorker`: the worker leaves its loop as soon
-- as it sees `done_`, whatever the buffers hold.
use koro.Prelude.{ℕ, ◌<◌, ◌≡◌, ◌≢◌, refl, ap, List, [], ◌∷◌, ◌++◌, length, length-append, arith}
use koro.Elog.Context.{Context}
use koro.Elog.AsyncLogging.System.{Pc, System, Step, Reach}
use koro.Elog.AsyncLogging.Invariant.{Reach-Inv}
use koro.Elog.AsyncLogging.Delivery.{
  logged, notices, pending, pending-push, pending-done, Reach-IsDelivered,
}

-- Any further steps, the last one first.
pub data Steps (n : ℕ) (s : System) : System → Type 0 where
  stay : Steps n s s
  then : {t u : System} → Steps n s t → Step n t u → Steps n s u

Reach-Steps : {n now : ℕ} {s t : System} → Reach n now s → Steps n s t → Reach n now t
Reach-Steps r Steps.stay = r
Reach-Steps r (Steps.then st x) = Reach.later (Reach-Steps r st) x

-- A finished worker with records left in the buffers.
record Stranded (s t : System) : Type 0 where
  pc : t.pc ≡ Pc.finished
  out : t.worker.out ≡ s.worker.out
  left : 0 < length (pending t.shared t.worker)

not_writing : {A : Type 0} {p : Pc} → p ≡ Pc.writing → p ≡ Pc.finished → A
not_writing e f = cc

not_top : {A : Type 0} {p : Pc} → p ≡ Pc.top → p ≡ Pc.finished → A
not_top e f = cc

not_collecting : {A : Type 0} {p : Pc} → p ≡ Pc.collecting → p ≡ Pc.finished → A
not_collecting e f = cc

Step-Stranded :
    {n now : ℕ} {s t u : System} → 0 < n → Reach n now t → Step n t u → Stranded s t → Stranded s u
Step-Stranded h r (Step.check_done e) d = record { pc = d.pc; out = d.out; left = d.left }
Step-Stranded {n} {now} {s} {t} h r (Step.push at k ctx q e p) d = record {
  pc = d.pc;
  out = d.out;
  left = omega (
    arith,
    ap length (pending-push n at t.shared q t.worker ctx h (Reach-Inv r).shared p),
    length-append {0} (pending t.shared t.worker) (ctx ∷ []),
  );
}
Step-Stranded h r (Step.enter e f) d = not_top e d.pc
Step-Stranded h r (Step.take e) d = not_collecting e d.pc
Step-Stranded h r (Step.write at e) d = not_writing e d.pc
Step-Stranded h r (Step.leave e f) d = not_top e d.pc
Step-Stranded {t} h r Step.do_done d = record {
  pc = d.pc;
  out = d.out;
  left = rw (pending-done t.shared t.worker) d.left;
}

Steps-Stranded :
    {n now : ℕ} {s t : System} → 0 < n → Reach n now s → Steps n s t → Stranded s s → Stranded s t
Steps-Stranded h r Steps.stay d = d
Steps-Stranded h r (Steps.then st x) d =
    Step-Stranded h (Reach-Steps r st) x (Steps-Stranded h r st d)

-- If the worker has left its loop without ever having dropped buffers, records that are in buffers then
-- never reach the log file: however the system goes on, the file stays as it is, and differs from
-- what callers have pushed.
pub lost_at_exit :
    {n now : ℕ} {s t : System}
    → 0 < n
    → Reach n now s
    → s.pc ≡ Pc.finished
    → notices s.worker.out ≡ 0
    → pending s.shared s.worker ≢ []
    → Steps n s t
    → (t.worker.out ≡ s.worker.out) × (logged t.worker.out ≢ t.sent)
lost_at_exit {n} {now} {s} {t} h r f q some_left st = (
  d.out,
  λ e. absurd (
      omega (
        arith,
        d.left,
        ap length e,
        ap length delivered,
        length-append {0} (logged t.worker.out) (pending t.shared t.worker),
      )),
)
  where
    nonempty : (l : List Context) → l ≢ [] → 0 < length l
    nonempty [] k = absurd (k refl)
    nonempty (x ∷ l) k = omega arith

    d : Stranded s t
    d = Steps-Stranded h r st (record { pc = f; out = refl; left = nonempty _ some_left })

    delivered : logged t.worker.out ++ pending t.shared t.worker ≡ t.sent
    delivered = Reach-IsDelivered h (Reach-Steps r st) (rw d.out q)
