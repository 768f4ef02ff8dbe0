-- ===== src/Elog/AsyncLogging/Rounds.antt =====
-- elog/async_logging.cpp: the buffers that each section hands to the next one.
use koro.Prelude.{
  ℕ, suc, ◌≡◌, refl, ◌⊎◌, inl, inr, true, false, List, [], ◌∷◌, ◌++◌, if◌then◌else◌, ltb, length,
  is_empty, take, arith, All, All-append, Bool-cases,
}
use koro.Elog.FixedBuffer.{Buffer, new_buffer, moved_from, check, empty, reset}
use koro.Elog.FixedBuffer.Items.{IsBuffer, IsBuffer-check, new_buffer-IsBuffer, reset-IsBuffer}
use koro.Elog.AsyncLogging.{
  Shared, Worker, replacement, collect, drop_excess, write_entries, first_or_new, second_or_new,
  recycle, write_round,
}

-- A buffer kept in reserve: there, and empty.
abbrev pub IsSpare : ℕ → Buffer → Type 0
IsSpare n b = IsBuffer n b × (b.index ≡ 0)

-- A buffer that was moved from, or a spare one.
abbrev pub IsSpareOrGone : ℕ → Buffer → Type 0
IsSpareOrGone n b = (check b ≡ false) ⊎ IsSpare n b

pub record SharedInv (n : ℕ) (s : Shared) : Type 0 where
  pub cur : IsBuffer n s.cur_buf
  pub next : IsSpare n s.next_buf ⊎ ((check s.next_buf ≡ false) × (is_empty s.bufs ≡ false))
  pub filled : All (IsBuffer n) s.bufs

pub record TopInv (n : ℕ) (w : Worker) : Type 0 where
  pub new1 : IsSpare n w.new_buf1
  pub new2 : IsSpare n w.new_buf2
  pub none_left : w.buf2write ≡ []

pub record WritingInv (n : ℕ) (w : Worker) : Type 0 where
  pub new1 : IsSpareOrGone n w.new_buf1
  pub new2 : IsSpareOrGone n w.new_buf2
  pub taken : All (IsBuffer n) w.buf2write
  pub kept : is_empty w.buf2write ≡ true → IsSpare n w.new_buf1 × IsSpare n w.new_buf2

pub new_buffer-IsSpare : (n now : ℕ) → IsSpare n (new_buffer n now)
unfolding new_buffer
new_buffer-IsSpare n now = (new_buffer-IsBuffer n now, refl)

reset-IsSpare : (n : ℕ) (b : Buffer) → IsBuffer n b → IsSpare n (reset b)
unfolding reset
reset-IsSpare n b h = (reset-IsBuffer n b h, refl)

pub replacement-IsSpare : (n now : ℕ) (s : Shared) → SharedInv n s → IsSpare n (replacement n now s)
unfolding replacement
replacement-IsSpare n now s v = elim v.next [
  | inl spare ↦ rw (IsBuffer-check spare.0, replacement) spare
  | inr (gone, _) ↦ rw (gone, replacement) (new_buffer-IsSpare n now)
]

moved_from-gone : check moved_from ≡ false
unfolding moved_from check
moved_from-gone = refl

pub is_empty-append_one {ℓ} : {A : Type ℓ} (xs : List A) (x : A) → is_empty (xs ++ x ∷ []) ≡ false
is_empty-append_one [] x = refl
is_empty-append_one (y ∷ xs) x = refl

pub is_empty-eq_nil {ℓ} : {A : Type ℓ} (xs : List A) → is_empty xs ≡ true → xs ≡ []
is_empty-eq_nil [] h = refl
is_empty-eq_nil (x ∷ xs) h = cc

pub record RoundInv (n : ℕ) (r : Shared × Worker) : Type 0 where
  pub shared : SharedInv n r.0
  pub worker : WritingInv n r.1

-- The section under the lock, by what it finds: an empty current buffer or not, and the next
-- buffer there or gone.
pub collect-RoundInv :
    (n : ℕ) (s : Shared) (w : Worker) → SharedInv n s → TopInv n w → RoundInv n (collect s w)
unfolding collect
collect-RoundInv n s w v t = elim (Bool-cases (empty s.cur_buf)) [
  | inl e ↦ elim v.next [
    | inl there ↦
        rw (e, IsBuffer-check there.0)
          (record {
            shared = record { cur = v.cur; next = inl there; filled = cleared };
            worker = record {
              new1 = inr t.new1;
              new2 = inr t.new2;
              taken = v.filled;
              kept = λ _. (t.new1, t.new2);
            };
          })
    | inr (gone, some_left) ↦
        rw (e, gone)
          (record {
            shared = record { cur = v.cur; next = inl t.new2; filled = cleared };
            worker = record {
              new1 = inr t.new1;
              new2 = inl moved_from-gone;
              taken = v.filled;
              kept = λ h. cc;
            };
          })
  ]
  | inr e ↦ elim v.next [
    | inl there ↦
        rw (e, IsBuffer-check there.0)
          (record {
            shared = record { cur = t.new1.0; next = inl there; filled = cleared };
            worker = record {
              new1 = inl moved_from-gone;
              new2 = inr t.new2;
              taken = grown;
              kept = λ h. cc (is_empty-append_one s.bufs s.cur_buf);
            };
          })
    | inr (gone, some_left) ↦
        rw (e, gone)
          (record {
            shared = record { cur = t.new1.0; next = inl t.new2; filled = cleared };
            worker = record {
              new1 = inl moved_from-gone;
              new2 = inl moved_from-gone;
              taken = grown;
              kept = λ h. cc (is_empty-append_one s.bufs s.cur_buf);
            };
          })
  ]
]
  where
    cleared : All (IsBuffer n) w.buf2write
    cleared = rw t.none_left tt

    grown : All (IsBuffer n) (s.bufs ++ s.cur_buf ∷ [])
    grown = All-append (IsBuffer n) s.bufs _ v.filled (v.cur, tt)

first_or_new-IsBuffer :
    (n now : ℕ) (bs : List Buffer) → All (IsBuffer n) bs → IsBuffer n (first_or_new n now bs)
unfolding first_or_new
first_or_new-IsBuffer n now [] h = new_buffer-IsBuffer n now
first_or_new-IsBuffer n now (b ∷ bs) h = h.0

second_or_new-IsBuffer :
    (n now : ℕ) (bs : List Buffer) → All (IsBuffer n) bs → IsBuffer n (second_or_new n now bs)
unfolding second_or_new
second_or_new-IsBuffer n now [] h = new_buffer-IsBuffer n now
second_or_new-IsBuffer n now (b ∷ bs) h = first_or_new-IsBuffer n now bs h.1

-- A spare buffer that is gone is replaced by an emptied one.
respare-IsSpare :
    (n : ℕ) (old b : Buffer)
    → IsSpareOrGone n old
    → IsBuffer n b
    → IsSpare n (if check old then old else reset b)
respare-IsSpare n old b (inl gone) h = rw gone (reset-IsSpare n b h)
respare-IsSpare n old b (inr spare) h = rw (IsBuffer-check spare.0) spare

recycle-TopInv :
    (n now : ℕ) (w : Worker)
    → IsSpareOrGone n w.new_buf1
    → IsSpareOrGone n w.new_buf2
    → All (IsBuffer n) w.buf2write
    → TopInv n (recycle n now w)
unfolding recycle
recycle-TopInv n now w one two taken = record {
  new1 = respare-IsSpare n w.new_buf1 _ one (first_or_new-IsBuffer n now _ taken);
  new2 = respare-IsSpare n w.new_buf2 _ two (second_or_new-IsBuffer n now _ taken);
  none_left = refl;
}

All-take {ℓ κ} : {A : Type ℓ} (P : A → Type κ) (k : ℕ) (xs : List A) → All P xs → All P (take k xs)
All-take P ℕ.zero xs h = tt
All-take P (suc k) [] h = tt
All-take P (suc k) (x ∷ xs) h = (h.0, All-take P k xs h.1)

drop_excess-taken :
    (n : ℕ) (w : Worker) → WritingInv n w → All (IsBuffer n) (drop_excess w).buf2write
unfolding drop_excess
drop_excess-taken n w v = elim (Bool-cases (ltb 100 (length w.buf2write))) [
  | inl e ↦ rw e (All-take (IsBuffer n) 2 _ v.taken)
  | inr e ↦ rw e v.taken
]

spares-drop_excess :
    (w : Worker) → ((drop_excess w).new_buf1 ≡ w.new_buf1) × ((drop_excess w).new_buf2 ≡ w.new_buf2)
unfolding drop_excess
spares-drop_excess w = ground arith

pub write_round-TopInv : (n now : ℕ) (w : Worker) → WritingInv n w → TopInv n (write_round n now w)
unfolding write_round write_entries
write_round-TopInv n now w v = elim (Bool-cases (is_empty w.buf2write)) [
  | inl e ↦
      rw e (record { new1 = (v.kept e).0; new2 = (v.kept e).1; none_left = is_empty-eq_nil _ e })
  | inr e ↦ rw e (
      recycle-TopInv n now _ (rw ((spares-drop_excess w).0) v.new1)
        (rw ((spares-drop_excess w).1) v.new2) (drop_excess-taken n w v))
]

pub spent-gone : (b : Buffer) → check (if check b then moved_from else b) ≡ false
spent-gone b = elim (Bool-cases (check b)) [ inl e ↦ rw e moved_from-gone | inr e ↦ rw e e ]
