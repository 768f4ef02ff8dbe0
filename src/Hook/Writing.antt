-- ===== src/Hook/Writing.antt =====
-- koro/hook.cpp, `write`: it ends, and what it returns is what it has written.
use koro.Prelude.{
  ℕ, zero, suc, ◌+◌, ◌-◌, ◌≤◌, ◌≡◌, refl, sym, ap, ◌∙◌, true, Option, some, List, [], ◌∷◌, ◌++◌,
  if◌then◌else◌, ltb, subst, length, take, drop, arith, append_assoc, append-nil, ◌⊎◌, inl, inr,
}
use koro.Hook.{Ret, failed, count, Writer, after_failure, write_loop, write}

length-drop : (n : ℕ) (xs : List ℕ) → length (drop n xs) ≡ length xs - n
length-drop zero xs = omega arith
length-drop (suc n) [] = omega arith
length-drop (suc n) (x ∷ xs) = omega (arith, length-drop n xs)

take_none : (n : ℕ) → ◌≡◌ {A = List ℕ} (take n []) []
take_none zero = refl
take_none (suc n) = refl

take-add : (n k : ℕ) (xs : List ℕ) → take (n + k) xs ≡ take n xs ++ take k (drop n xs)
take-add zero k xs = ap (λ m. take m xs) (omega arith)
take-add (suc n) k [] = take_none (suc n + k) ∙ sym (take_none k)
take-add (suc n) k (x ∷ xs) =
    let e : suc n + k ≡ suc (n + k) = omega arith in
    ap (λ m. take m (x ∷ xs)) e ∙ ap (◌∷◌ x) (take-add n k xs)

drop_none : (n : ℕ) → ◌≡◌ {A = List ℕ} (drop n []) []
drop_none zero = refl
drop_none (suc n) = refl

drop-add : (n k : ℕ) (xs : List ℕ) → drop (n + k) xs ≡ drop k (drop n xs)
drop-add zero k xs = ap (λ m. drop m xs) (omega arith)
drop-add (suc n) k [] = drop_none (suc n + k) ∙ sym (drop_none k)
drop-add (suc n) k (x ∷ xs) =
    let e : suc n + k ≡ suc (n + k) = omega arith in ap (λ m. drop m (x ∷ xs)) e ∙ drop-add n k xs

pub Ret-cases : (r : Ret) → (r ≡ failed) ⊎ (r ≡ count 0) ⊎ ((n : ℕ) × (r ≡ count (suc n)))
Ret-cases failed = inl refl
Ret-cases (count zero) = inr (inl refl)
Ret-cases (count (suc n)) = inr (inr (n, refl))

module _ {S : Type 0} (w : Writer S) where
  -- Calls that have each written some of what remained, `k` bytes together, and with them led from the
  -- state `s` with `bytes` to write to the state `t` with `rest`.
  pub data Calls : S → List ℕ → ℕ → S → List ℕ → Type 0 where
    start : {s : S} {bytes : List ℕ} → Calls s bytes 0 s bytes
    later :
        {s t : S} {bytes rest : List ℕ} {n k : ℕ}
        → (w.call s bytes).1 ≡ count (suc n)
        → Calls (w.call s bytes).0 (drop (suc n) bytes) k t rest
        → Calls s bytes (suc n + k) t rest

  -- The loop has ended with `rest` to write in the state `t`: nothing remained, or the call for all that
  -- remained has failed or has written nothing, and was the last one.
  abbrev pub Ended : S → List ℕ → S → Type 0
  Ended t rest last =
      (rest ≡ []) × (last ≡ t)
      ⊎ (((w.call t rest).1 ≡ failed) ⊎ ((w.call t rest).1 ≡ count 0)) × (last ≡ (w.call t rest).0)

  -- With `total` bytes written before, the loop has written the first `k` bytes, and returns their
  -- number with those before, or it has failed with nothing written, now or before. It has gone on
  -- until nothing remained, or a call for the rest has failed or has written nothing.
  pub record Wrote (total : ℕ) (s : S) (bytes : List ℕ) (o : Option (S × Ret)) : Type 0 where
    pub last : S
    pub ret : Ret
    pub k : ℕ
    pub until : S
    pub returns : o ≡ some (last, ret)
    pub at_most : k ≤ length bytes
    pub written : w.content last ≡ w.content s ++ take k bytes
    pub answer : (ret ≡ count (total + k)) ⊎ (ret ≡ failed) × (total + k ≡ 0)
    pub calls : Calls s bytes k until (drop k bytes)
    pub stopped : Ended until (drop k bytes) last

  after_failure_lem :
      (total : ℕ)
      → (after_failure total ≡ count (total + 0)) ⊎ (after_failure total ≡ failed) × (total + 0 ≡ 0)
  unfolding after_failure
  after_failure_lem zero = inr (refl, refl)
  after_failure_lem (suc total) =
      let positive : ltb 0 (suc total) ≡ true = ground arith in
      let same : suc total ≡ suc total + 0 = omega arith in
      inl (ap (λ b. if b then count (suc total) else failed) positive ∙ ap count same)

  failed-Wrote :
      (total : ℕ) (s : S) (bytes : List ℕ) (o : Option (S × Ret))
      → (w.call s bytes).1 ≡ failed
      → o ≡ some ((w.call s bytes).0, after_failure total)
      → Wrote total s bytes o
  failed-Wrote total s bytes o e q = record {
    last = (w.call s bytes).0;
    ret = after_failure total;
    k = 0;
    returns = q;
    at_most = omega arith;
    written = w.nothing s bytes e ∙ sym (append-nil (w.content s));
    answer = after_failure_lem total;
    until = s;
    calls = Calls.start;
    stopped = inr (inl e, refl);
  }

  blocked-Wrote :
      (total : ℕ) (s : S) (bytes : List ℕ) (o : Option (S × Ret))
      → (w.call s bytes).1 ≡ count 0
      → o ≡ some ((w.call s bytes).0, count total)
      → Wrote total s bytes o
  blocked-Wrote total s bytes o e q = record {
    last = (w.call s bytes).0;
    ret = count total;
    k = 0;
    returns = q;
    at_most = omega arith;
    written = (w.partial s bytes 0 e).1;
    until = s;
    calls = Calls.start;
    stopped = inr (inr e, refl);
    answer = inl (ap count (omega arith));
  }

  went_on-Wrote :
      (total n : ℕ) (s : S) (bytes : List ℕ) (o : Option (S × Ret))
      → (w.call s bytes).1 ≡ count (suc n)
      → Wrote (total + suc n) (w.call s bytes).0 (drop (suc n) bytes) o
      → Wrote total s bytes o
  went_on-Wrote total n s bytes o e rest =
      let (fits, here) = w.partial s bytes (suc n) e in
      record {
        last = rest.last;
        ret = rest.ret;
        k = suc n + rest.k;
        returns = rest.returns;
        at_most = omega (arith, rest.at_most, length-drop (suc n) bytes);
        written =
            rest.written
            ∙ ap (λ c. c ++ take rest.k (drop (suc n) bytes)) here
            ∙ append_assoc (w.content s) (take (suc n) bytes) (take rest.k (drop (suc n) bytes))
            ∙ ap (λ c. w.content s ++ c) (sym (take-add (suc n) rest.k bytes));
        until = rest.until;
        calls =
            subst (Calls s bytes (suc n + rest.k) rest.until) (sym (drop-add (suc n) rest.k bytes))
              (Calls.later e rest.calls);
        stopped =
            subst (λ r. Ended rest.until r rest.last) (sym (drop-add (suc n) rest.k bytes))
              rest.stopped;
        answer = elim rest.answer [
          | inl q ↦ inl (q ∙ ap count (omega arith))
          | inr (q, none_written) ↦ absurd (omega arith)
        ];
      }

  pub write_loop-Wrote :
      (fuel total : ℕ) (s : S) (bytes : List ℕ)
      → length bytes ≤ fuel
      → Wrote total s bytes (write_loop w fuel total s bytes)
  unfolding write_loop
  write_loop-Wrote fuel total s [] h = record {
    last = s;
    ret = count total;
    k = 0;
    returns = refl;
    at_most = omega arith;
    written = sym (append-nil (w.content s));
    until = s;
    calls = Calls.start;
    stopped = inl (refl, refl);
    answer = inl (ap count (omega arith));
  }
  write_loop-Wrote zero total s (b ∷ bytes) h = absurd (omega arith)
  write_loop-Wrote (suc fuel) total s (b ∷ bytes) h = elim (Ret-cases (w.call s (b ∷ bytes)).1) [
    | inl e ↦ failed-Wrote total s (b ∷ bytes) _ e (rw (write_loop, e) refl)
    | inr (inl e) ↦ blocked-Wrote total s (b ∷ bytes) _ e (rw (write_loop, e) refl)
    | inr (inr (n, e)) ↦ went_on-Wrote total n s (b ∷ bytes) _ e (
        rw (write_loop, e)
          (write_loop-Wrote fuel (total + suc n) (w.call s (b ∷ bytes)).0 (drop n bytes)
            (omega (arith, length-drop n bytes))))
  ]

  -- `write` returns where each of its calls does. It has written the first `k` of its bytes and returns
  -- `k`, or it has written nothing and returns -1; it goes on until nothing remains, or a call for all
  -- that remains has failed or has written nothing.
  write-Wrote : (s : S) (bytes : List ℕ) → Wrote 0 s bytes (write w s bytes)
  unfolding write
  write-Wrote s bytes = write_loop-Wrote (length bytes) 0 s bytes (omega arith)
