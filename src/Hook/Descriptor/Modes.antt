-- ===== src/Hook/Descriptor/Modes.antt =====
-- koro/file_descriptor.h: what `setNonBlocking` does to the flags of a file.
use koro.Prelude.{
  ℕ, ◌-◌, ◌^◌, ◌<◌, ◌≡◌, sym, ap, ◌∙◌, Bool, true, false, not, ◌&&◌, ◌||◌, none, some,
  if◌then◌else◌, ◌==◌, arith, Bool-cases, inl, inr, digit, digit-and, digit-or, digit-complement,
  digit-pow, subst,
}
use koro.Hook.Descriptor.{o_nonblock, Fcntl, new_flags, set_non_blocking}

-- The flag is as `on` says, and all others are as they were.
pub record IsMode (on : Bool) (old new : ℕ) : Type 0 where
  pub mode : digit 11 new ≡ on
  pub others : (k : ℕ) → k < 32 → (k == 11) ≡ false → digit k new ≡ digit k old

new_flags-IsMode : (on : Bool) (flags : ℕ) → IsMode on flags (new_flags on flags)
unfolding new_flags
new_flags-IsMode true flags = record {
  mode = digit-or 11 o_nonblock flags ∙ ap (λ b. b || digit 11 flags) (digit-pow 11 11);
  others =
      λ k h ne. digit-or k o_nonblock flags ∙ ap (λ b. b || digit k flags) (digit-pow k 11 ∙ ne);
}
new_flags-IsMode false flags = record {
  mode =
      digit-and 11 (2 ^ 32 - 1 - o_nonblock) flags
      ∙ ap (λ b. b && digit 11 flags)
          (digit-complement 32 11 o_nonblock (omega arith) (omega arith)
            ∙ ap not (digit-pow 11 11));
  others = λ k h ne.
      digit-and k (2 ^ 32 - 1 - o_nonblock) flags
      ∙ ap (λ b. b && digit k flags)
          (digit-complement 32 k o_nonblock h (omega arith) ∙ ap not (digit-pow k 11 ∙ ne));
}

module _ {S : Type 0} (fc : Fcntl S) where
  -- What a call that has returned `r` has done.
  abbrev Done : S → ℕ → ℕ → Bool → S × Bool → Type 0
  Done s fd flags on r =
      (r.1 ≡ true → (new : ℕ) × (fc.get_flags r.0 fd ≡ some new) × IsMode on flags new)
      × (r.1 ≡ false → r.0 ≡ s)

  chosen :
      (s : S) (fd flags : ℕ) (on : Bool)
      → fc.get_flags s fd ≡ some flags
      → Done s fd flags on (
          if new_flags on flags == flags then (s, true) else fc.set_flags s fd (new_flags on flags))
  chosen s fd flags on h =
      let new = new_flags on flags in
      elim (Bool-cases (new == flags)) [
        | inl same ↦
            let kept : new ≡ flags = ground arith in
            subst (λ b. Done s fd flags on (if b then (s, true) else fc.set_flags s fd new))
              (sym same)
              (
                λ e. (flags, h, subst (IsMode on flags) kept (new_flags-IsMode on flags)),
                λ e. absurd (cc),
              )
        | inr changed ↦
            subst (λ b. Done s fd flags on (if b then (s, true) else fc.set_flags s fd new))
              (sym changed)
              (
                λ e. (new, fc.set_ok s fd flags on h e, new_flags-IsMode on flags),
                λ e. fc.set_failed s fd new e,
              )
      ]

  -- `setNonBlocking` on a file whose flags can be read: when it returns true, O_NONBLOCK is set or cleared as
  -- it was told and all other flags are as before; when it returns false, nothing has changed.
  pub set_non_blocking-IsMode :
      (s : S) (fd flags : ℕ) (on : Bool)
      → fc.get_flags s fd ≡ some flags
      → ((set_non_blocking fc s fd on).1 ≡ true
          → (new : ℕ) × (fc.get_flags (set_non_blocking fc s fd on).0 fd ≡ some new)
            × IsMode on flags new)
        × ((set_non_blocking fc s fd on).1 ≡ false → (set_non_blocking fc s fd on).0 ≡ s)
  unfolding set_non_blocking
  set_non_blocking-IsMode s fd flags on h =
      let new = new_flags on flags in
      subst
        (λ o. Done s fd flags on (elim o [
          | none ↦ (s, false)
          | some old ↦
              if new_flags on old == old then (s, true) else fc.set_flags s fd (new_flags on old)
        ]))
        (sym h) (chosen s fd flags on h)
