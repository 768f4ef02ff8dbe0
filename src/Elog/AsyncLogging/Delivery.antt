-- ===== src/Elog/AsyncLogging/Delivery.antt =====
-- elog/async_logging.cpp: what reaches the log file of the records that callers pushed.
use koro.Prelude.{
  ◌-◌, ℕ, suc, ◌+◌, ◌<◌, ◌≡◌, refl, sym, ap, ◌∙◌, inl, inr, true, some, List, [], ◌∷◌, ◌++◌,
  if◌then◌else◌, ltb, length, take, map, arith, Bool-cases, append_assoc, append-nil,
}
use mathlib.Core.Option.{some-injective}
use koro.Elog.Context.{Context}
use koro.Elog.FixedBuffer.{Buffer, new_buffer, empty, items}
use koro.Elog.FixedBuffer.Items.{items-unused}
use koro.Elog.AsyncLogging.{
  Shared, Worker, Line, entry, notice, push_locked, collect, flat, drop_excess, write_entries,
  recycle, write_round, init_shared, init_worker,
}
use koro.Elog.AsyncLogging.Rounds.{SharedInv, TopInv, is_empty-eq_nil}
use koro.Elog.AsyncLogging.Pushing.{push_locked-Accepted, flat-append_one}
use koro.Elog.AsyncLogging.System.{System, Step, Reach, init}
use koro.Elog.AsyncLogging.Invariant.{Inv, Reach-Inv, at_pc}

-- The records among the lines of the log file, and the number of notices.
abbrev pub logged : List Line → List Context
logged [] = []
logged (entry c ∷ ls) = c ∷ logged ls
logged (notice k ∷ ls) = logged ls

abbrev pub notices : List Line → ℕ
notices [] = 0
notices (entry c ∷ ls) = notices ls
notices (notice k ∷ ls) = suc (notices ls)

-- The records that are in buffers, oldest first.
unfoldable pub pending : Shared → Worker → List Context
pending s w = flat w.buf2write ++ (flat s.bufs ++ items s.cur_buf)

logged-append : (xs ys : List Line) → logged (xs ++ ys) ≡ logged xs ++ logged ys
logged-append [] ys = refl
logged-append (entry c ∷ xs) ys = ap (◌∷◌ c) (logged-append xs ys)
logged-append (notice k ∷ xs) ys = logged-append xs ys

logged-entries : (cs : List Context) → logged (map entry cs) ≡ cs
logged-entries [] = refl
logged-entries (c ∷ cs) = ap (◌∷◌ c) (logged-entries cs)

notices-append : (xs ys : List Line) → notices (xs ++ ys) ≡ notices xs + notices ys
notices-append [] ys = omega arith
notices-append (entry c ∷ xs) ys = notices-append xs ys
notices-append (notice k ∷ xs) ys = omega (arith, notices-append xs ys)

notices-entries : (cs : List Context) → notices (map entry cs) ≡ 0
notices-entries [] = refl
notices-entries (c ∷ cs) = notices-entries cs

-- What the section under the lock makes of the fields that hold records.
collect-fields :
    (s : Shared) (w : Worker)
    → ((collect s w).0.bufs ≡ w.buf2write)
      × ((collect s w).1.buf2write ≡ (if empty s.cur_buf then s.bufs else s.bufs ++ s.cur_buf ∷ []))
      × ((collect s w).0.cur_buf ≡ (if empty s.cur_buf then s.cur_buf else w.new_buf1))
      × ((collect s w).1.out ≡ w.out)
unfolding collect
collect-fields s w = ground arith

regroup :
    (bs : List Buffer) (cur spare : Buffer)
    → spare.index ≡ 0
    → flat (if empty cur then bs else bs ++ cur ∷ []) ++ items (if empty cur then cur else spare)
      ≡ flat bs ++ items cur
regroup bs cur spare e = elim (Bool-cases (empty cur)) [
  | inl y ↦ rw y
  | inr y ↦ rw (y, flat-append_one bs cur, items-unused spare e) (append-nil _)
]

-- Taking the buffers over leaves the records and their order as they are.
pending-collect :
    (n : ℕ) (s : Shared) (w : Worker)
    → TopInv n w
    → pending (collect s w).0 (collect s w).1 ≡ pending s w
unfolding pending flat
pending-collect n s w t =
    let (bufs, taken, cur, _) = collect-fields s w in
    rw (bufs, taken, cur, t.none_left) (regroup s.bufs s.cur_buf w.new_buf1 t.new1.1)

-- A caller's section puts its record behind all others.
pub pending-push :
    (n now : ℕ) (s r : Shared) (w : Worker) (ctx : Context)
    → 0 < n
    → SharedInv n s
    → push_locked n now s ctx ≡ some r
    → pending r w ≡ pending s w ++ ctx ∷ []
unfolding pending
pending-push n now s r w ctx h v e =
    let (r', a) = push_locked-Accepted n now s ctx v in
    let same : r ≡ r' = some-injective _ _ (sym e ∙ a.done) in
    rw (same, a.appended h) (sym (append_assoc (flat w.buf2write) _ _))

-- The log file after a round that has taken the buffers `taken`.
abbrev written : List Line → List Buffer → List Line
written out [] = out
written out (b ∷ bs) =
    if ltb 100 (length (b ∷ bs))
    then (out ++ notice (length (b ∷ bs) - 2) ∷ []) ++ map entry (flat (take 2 (b ∷ bs)))
    else out ++ map entry (flat (b ∷ bs))

out-write_round :
    (n now : ℕ) (w : Worker)
    → ((write_round n now w).out ≡ written w.out w.buf2write)
      × ((write_round n now w).buf2write ≡ [])
unfolding write_round recycle write_entries drop_excess
out-write_round n now w = (ground arith, ground (arith, is_empty-eq_nil w.buf2write))

notices-dropped :
    (out : List Line) (k : ℕ) (cs : List Context)
    → notices ((out ++ notice k ∷ []) ++ map entry cs) ≡ suc (notices out)
notices-dropped out k cs = omega (
  arith,
  notices-append (out ++ notice k ∷ []) (map entry cs),
  notices-append out (notice k ∷ []),
  notices-entries cs,
)

logged-append_entries :
    (out : List Line) (cs rest : List Context)
    → logged (out ++ map entry cs) ++ rest ≡ logged out ++ (cs ++ rest)
logged-append_entries out cs rest =
    rw (logged-append out (map entry cs), logged-entries cs) (append_assoc (logged out) cs rest)

notices-append_entries :
    (out : List Line) (cs : List Context) → notices (out ++ map entry cs) ≡ notices out
notices-append_entries out cs = omega (arith, notices-append out (map entry cs), notices-entries cs)

logged-written :
    (out : List Line) (taken : List Buffer) (rest : List Context)
    → notices (written out taken) ≡ 0
    → (logged (written out taken) ++ rest ≡ logged out ++ (flat taken ++ rest)) × (notices out ≡ 0)
unfolding flat
logged-written out [] rest e = (refl, e)
logged-written out (b ∷ bs) rest e = elim (Bool-cases (ltb 100 (length (b ∷ bs)))) [
  | inl many ↦
      let none_left : suc (notices out) ≡ 0 =
        sym (notices-dropped out _ (flat (take 2 (b ∷ bs)))) ∙ (rw many at e) in
      absurd (omega arith)
  | inr few ↦ rw few (
    logged-append_entries out (flat (b ∷ bs)) rest,
    sym (notices-append_entries out (flat (b ∷ bs))) ∙ (rw few at e),
  )
]

-- Unless it drops buffers, a round moves the records that the worker has taken to the log file.
pub logged-write_round :
    (n now : ℕ) (s : Shared) (w : Worker)
    → notices (write_round n now w).out ≡ 0
    → (logged (write_round n now w).out ++ pending s (write_round n now w)
        ≡ logged w.out ++ pending s w)
      × (notices w.out ≡ 0)
unfolding pending flat
logged-write_round n now s w e =
    let (out, cleared) = out-write_round n now w in
    rw (out, cleared) (logged-written w.out w.buf2write _ (sym (ap notices out) ∙ e))

abbrev pub IsDelivered : System → Type 0
IsDelivered s = notices s.worker.out ≡ 0 → logged s.worker.out ++ pending s.shared s.worker ≡ s.sent

pub pending-done : (s : Shared) (w : Worker) → pending (record s { done = true }) w ≡ pending s w
unfolding pending
pending-done s w = refl

pending-init : (n now : ℕ) → pending (init_shared n now) (init_worker n now) ≡ []
unfolding pending flat init_shared init_worker new_buffer items
pending-init n now = refl

Step-IsDelivered :
    {n : ℕ} {s t : System} → 0 < n → Step n s t → Inv n s → IsDelivered s → IsDelivered t
Step-IsDelivered h (Step.check_done e) v d = d
Step-IsDelivered {n} {s} h (Step.push now k ctx r e p) v d = λ q.
    rw (pending-push n now s.shared r s.worker ctx h v.shared p)
      (sym (append_assoc (logged s.worker.out) _ _) ∙ ap (λ l. l ++ ctx ∷ []) (d q))
Step-IsDelivered h (Step.enter e f) v d = d
Step-IsDelivered {n} {s} h (Step.take e) v d =
    let t = at_pc n s.worker s.pc e v.worker in
    let same = (collect-fields s.shared s.worker).3 in
    rw (same, pending-collect n s.shared s.worker t) d
Step-IsDelivered {n} {s} h (Step.write now e) v d =
    λ q. let (kept, quiet) = logged-write_round n now s.shared s.worker q in kept ∙ d quiet
Step-IsDelivered h (Step.leave e f) v d = d
Step-IsDelivered {s} h Step.do_done v d = rw (pending-done s.shared s.worker) d

-- In every reachable state in which no buffer was dropped, the log file holds a prefix of the records
-- that callers have pushed, in the order of their sections, and the buffers hold the rest, in order:
-- nothing is lost, repeated or reordered, whatever the interleaving of callers and worker.
pub Reach-IsDelivered : {n now : ℕ} {s : System} → 0 < n → Reach n now s → IsDelivered s
unfolding init init_shared init_worker
Reach-IsDelivered {n} {now} h Reach.start = λ q. rw (pending-init n now)
Reach-IsDelivered h (Reach.later r st) = Step-IsDelivered h st (Reach-Inv r) (Reach-IsDelivered h r)
