-- ===== src/Elog/Frontend/Racing/Accounting.antt =====
-- elog/logger.cpp: what becomes of the statements of many threads.
use koro.Prelude.{
  ℕ, suc, ◌+◌, ◌<◌, ◌≡◌, ◌≢◌, refl, sym, ◌∙◌, subst, Bool, true, false, inl, inr, arith, update,
  update-cases, update_self, total, total-update, total-zero,
}
use koro.Elog.Frontend.Racing.{
  Pc, away, testing, chosen, pushing, crashed, Shutter, waiting, called, cleared, over, System,
  Step, init, Reach,
}

abbrev pub under_way : Pc → ℕ
under_way away = 0
under_way _ = 1

-- The flags, by where the thread stands that shuts down.
abbrev pub Flags : Shutter → Bool → Bool → Type 0
Flags waiting alive enabled = (alive ≡ true) × (enabled ≡ true)
Flags called alive enabled = (alive ≡ true) × (enabled ≡ true)
Flags cleared alive enabled = (alive ≡ false) × (enabled ≡ true)
Flags over alive enabled = (alive ≡ false) × (enabled ≡ false)

pub record IsAccounted (n : ℕ) (s : System) : Type 0 where
  pub flags : Flags s.shutter s.alive s.async_enabled
  pub counted : s.begun ≡ s.pushed + s.printed + s.dropped + total under_way n s.pc
  pub sound : s.alive ≡ true → (s.dropped ≡ 0) × ((j : ℕ) → s.pc j ≢ crashed)

-- No crash yet, and thread `j` moves on.
still_sound :
    (pc : ℕ → Pc) (j : ℕ) (p : Pc)
    → p ≢ crashed
    → ((k : ℕ) → pc k ≢ crashed)
    → (k : ℕ) → update pc j p k ≢ crashed
still_sound pc j p ne h k e = elim (update-cases pc j k p) [
  | inl (same, w) ↦ ne (sym w ∙ e)
  | inr (apart, w) ↦ h k (sym w ∙ e)
]

-- While `async_logging_` is there, logging is on.
enabled_while_alive :
    (q : Shutter) (alive enabled : Bool) → Flags q alive enabled → alive ≡ true → enabled ≡ true
enabled_while_alive waiting alive enabled f h = f.1
enabled_while_alive called alive enabled f h = f.1
enabled_while_alive cleared alive enabled f h = f.1
enabled_while_alive over alive enabled f h = absurd (cc (f.0, h))

module _ {n : ℕ} {s : System} (v : IsAccounted n s) where
  open v use {flags, counted, sound}

  -- Thread `j` moves from `p` to `p'` and nothing is finished, or something is.
  moved :
      (j : ℕ) (p p' : Pc)
      → j < n
      → s.pc j ≡ p
      → total under_way n (update s.pc j p') + under_way p ≡ total under_way n s.pc + under_way p'
  moved j p p' lt at =
      subst
        (λ q.
          total under_way n (update s.pc j p') + under_way q
          ≡ total under_way n s.pc + under_way p')
        at (total-update under_way n s.pc j p' lt)

  sound_moved :
      (j : ℕ) (p : Pc)
      → p ≢ crashed
      → s.alive ≡ true
      → (s.dropped ≡ 0) × ((k : ℕ) → update s.pc j p k ≢ crashed)
  sound_moved j p ne h = ((sound h).0, still_sound s.pc j p ne (sound h).1)

  Step-IsAccounted : {t : System} → Step n s t → IsAccounted n t
  Step-IsAccounted (Step.begin j lt at) = record {
    flags = flags;
    counted = omega (arith, counted, moved j away testing lt at);
    sound = sound_moved j testing (λ e. cc);
  }
  Step-IsAccounted (Step.choose j lt at on) = record {
    flags = flags;
    counted = omega (arith, counted, moved j testing chosen lt at);
    sound = sound_moved j chosen (λ e. cc);
  }
  Step-IsAccounted (Step.print j lt at off) = record {
    flags = flags;
    counted = omega (arith, counted, moved j testing away lt at);
    sound = sound_moved j away (λ e. cc);
  }
  Step-IsAccounted (Step.test_again j lt at on) = record {
    flags = flags;
    counted = omega (arith, counted, moved j chosen pushing lt at);
    sound = sound_moved j pushing (λ e. cc);
  }
  Step-IsAccounted (Step.drop j lt at off) = record {
    flags = flags;
    counted = omega (arith, counted, moved j chosen away lt at);
    sound = λ h. absurd (cc (enabled_while_alive s.shutter s.alive s.async_enabled flags h, off));
  }
  Step-IsAccounted (Step.push j lt at on) = record {
    flags = flags;
    counted = omega (arith, counted, moved j pushing away lt at);
    sound = sound_moved j away (λ e. cc);
  }
  Step-IsAccounted (Step.fault j lt at gone) = record {
    flags = flags;
    counted = omega (arith, counted, moved j pushing crashed lt at);
    sound = λ h. absurd (cc (h, gone));
  }
  Step-IsAccounted (Step.call at on) = record {
    flags = subst (λ q. Flags q s.alive s.async_enabled) at flags;
    counted = counted;
    sound = sound;
  }
  Step-IsAccounted (Step.reset at) = record {
    flags = (refl, (subst (λ q. Flags q s.alive s.async_enabled) at flags).1);
    counted = counted;
    sound = λ h. absurd (cc);
  }
  Step-IsAccounted (Step.store at) = record {
    flags = ((subst (λ q. Flags q s.alive s.async_enabled) at flags).0, refl);
    counted = counted;
    sound = sound;
  }

Reach-IsAccounted : {n : ℕ} {s : System} → Reach n s → IsAccounted n s
unfolding init
Reach-IsAccounted {n} Reach.start = record {
  flags = (refl, refl);
  counted = omega (arith, total-zero under_way n (λ _. away) (λ i lt. refl));
  sound = λ h. (refl, λ j e. cc);
}
Reach-IsAccounted (Reach.later r st) = Step-IsAccounted (Reach-IsAccounted r) st

-- The thread logs behind `async_logging_.reset()` and before the flag is cleared.
unfoldable pub crashes : ℕ → System → System
crashes j s = record s {
  pc = update (update (update (update s.pc j testing) j chosen) j pushing) j crashed;
  begun = suc s.begun;
}

-- In every reachable state each statement that has come to its end has given its record to asynchronous
-- logging, has printed its line, has done neither, or is still under way. Until `async_logging_` is reset no
-- statement has done neither and none has used a null pointer. When it has been reset and the flag is
-- still set, any thread that logs now uses a null pointer.
pub accounted :
    {n : ℕ} {s : System}
    → Reach n s
    → IsAccounted n s
      × (s.shutter ≡ cleared → (j : ℕ) → j < n → s.pc j ≡ away → Reach n (crashes j s))
unfolding crashes
accounted {n} {s} r =
    let v = Reach-IsAccounted r in
    (
      v,
      λ at j lt idle.
          let (gone, on) = subst (λ q. Flags q s.alive s.async_enabled) at v.flags in
          let tested = update s.pc j testing in
          let again = update tested j chosen in
          let last = update again j pushing in
          Reach.later
            (Reach.later
              (Reach.later (Reach.later r (Step.begin j lt idle))
                (Step.choose j lt (update_self s.pc j testing) on))
              (Step.test_again j lt (update_self tested j chosen) on))
            (Step.fault j lt (update_self again j pushing) gone),
    )
