-- ===== src/Elog/AsyncLogging/Pushing.antt =====
-- elog/async_logging.cpp: the section of pushMessage on buffers that are in order.
use koro.Prelude.{
  append_assoc, append-nil, sym, ◌<◌, ℕ, ◌≡◌, inl, inr, false, some, List, [], ◌∷◌, ◌++◌,
  if◌then◌else◌, arith, All-append, Bool-cases,
}
use koro.Elog.Context.{Context}
use koro.Elog.FixedBuffer.{items, Buffer, moved_from, check, full}
use koro.Elog.FixedBuffer.Items.{items-unused, IsBuffer, push-Pushed}
use koro.Elog.AsyncLogging.{flat, Shared, replacement, push_locked}
use koro.Elog.AsyncLogging.Rounds.{SharedInv, replacement-IsSpare, spent-gone, is_empty-append_one}

pub flat-append_one : (bs : List Buffer) (b : Buffer) → flat (bs ++ b ∷ []) ≡ flat bs ++ items b
unfolding flat
flat-append_one [] b = append-nil (items b)
flat-append_one (x ∷ bs) b = rw (flat-append_one bs b) (sym (append_assoc (items x) _ _))

-- What a caller's section does: it never fails, keeps the invariant of the shared buffers, and puts
-- its record behind all others.
pub record Accepted (n now : ℕ) (s : Shared) (ctx : Context) (r : Shared) : Type 0 where
  pub done : push_locked n now s ctx ≡ some r
  pub good : SharedInv n r
  pub appended :
      0 < n → flat r.bufs ++ items r.cur_buf ≡ (flat s.bufs ++ items s.cur_buf) ++ ctx ∷ []

pub push_locked-Accepted :
    (n now : ℕ) (s : Shared) (ctx : Context) → SharedInv n s → (r : Shared) × Accepted n now s ctx r
unfolding push_locked
push_locked-Accepted n now s ctx v = elim (Bool-cases (full n s.cur_buf)) [
  | inl e ↦
      let spare = replacement-IsSpare n now s v in
      let (b, p) = push-Pushed n (replacement n now s) ctx spare.0 in
      (
        record s {
          cur_buf = b;
          next_buf = if check s.next_buf then moved_from else s.next_buf;
          bufs = s.bufs ++ s.cur_buf ∷ [];
        },
        record {
          done = rw (e, p.done);
          good = record {
            cur = p.good;
            next = inr (spent-gone s.next_buf, is_empty-append_one s.bufs s.cur_buf);
            filled = All-append (IsBuffer n) s.bufs _ v.filled (v.cur, tt);
          };
          appended = λ h.
              let room : full n (replacement n now s) ≡ false = ground arith in
              rw (
                flat-append_one s.bufs s.cur_buf,
                p.contents,
                room,
                items-unused (replacement n now s) spare.1,
              );
        },
      )
  | inr e ↦
      let (b, p) = push-Pushed n s.cur_buf ctx v.cur in
      (
        record s { cur_buf = b },
        record {
          done = rw (e, p.done);
          good = record { cur = p.good; next = v.next; filled = v.filled };
          appended = λ h. rw (p.contents, e) (sym (append_assoc (flat s.bufs) _ _));
        },
      )
]
