-- ===== src/Prelude/Sums.antt =====
-- Sums over the first `n` values of a function, one of which is replaced.
use Prim.Native.Nat.{ℕ, zero, suc, ◌+◌, ◌≤◌, ◌<◌}
use mathlib.Core.Path.{◌≡◌, refl, sym, ap, subst}
use mathlib.Core.Logic.{◌≢◌, inl, inr}
use native.Mathlib.Omega.{arith}
use koro.Prelude.Tests.{◌==◌, Bool-cases}
use koro.Prelude.Updates.{update, update_ne, update_self}

module _ {A : Type 0} (measure : A → ℕ) where
  -- The sum of `measure` over the first `n` values.
  abbrev pub total : ℕ → (ℕ → A) → ℕ
  total zero f = 0
  total (suc n) f = measure (f n) + total n f

  total-update_beyond :
      (n : ℕ) (f : ℕ → A) (i : ℕ) (v : A) → n ≤ i → total n (update f i v) ≡ total n f
  total-update_beyond zero f i v h = refl
  total-update_beyond (suc n) f i v h =
      let apart : n ≢ i = λ e. absurd (omega arith) in
      omega (arith, ap measure (update_ne f v apart), total-update_beyond n f i v (omega arith))

  -- One value is replaced.
  pub total-update :
      (n : ℕ) (f : ℕ → A) (i : ℕ) (v : A)
      → i < n
      → total n (update f i v) + measure (f i) ≡ total n f + measure v
  total-update zero f i v h = absurd (omega arith)
  total-update (suc n) f i v h = elim (Bool-cases (n == i)) [
    | inl here ↦
        let same : i ≡ n = ground arith in
        subst (λ k. total (suc n) (update f k v) + measure (f k) ≡ total (suc n) f + measure v)
          (sym same)
          (omega (arith, ap measure (update_self f n v), total-update_beyond n f n v (omega arith)))
    | inr there ↦
        let apart : n ≢ i = ground arith in
        omega (arith, ap measure (update_ne f v apart), total-update n f i v (ground arith))
  ]

  pub total-zero : (n : ℕ) (f : ℕ → A) → ((i : ℕ) → i < n → measure (f i) ≡ 0) → total n f ≡ 0
  total-zero zero f h = refl
  total-zero (suc n) f h =
      omega (arith, h n (omega arith), total-zero n f (λ i lt. h i (omega arith)))

  -- A sum that is 0 has no other value, and a value that is not 0 makes the sum positive.
  pub total-zero_inv : (n : ℕ) (f : ℕ → A) → total n f ≡ 0 → (i : ℕ) → i < n → measure (f i) ≡ 0
  total-zero_inv zero f h i lt = absurd (omega arith)
  total-zero_inv (suc n) f h i lt = elim (Bool-cases (n == i)) [
    | inl here ↦
        let same : n ≡ i = ground arith in subst (λ k. measure (f k) ≡ 0) same (omega arith)
    | inr there ↦
        let apart : n ≢ i = ground arith in total-zero_inv n f (omega arith) i (omega arith)
  ]

  pub total-le : (n : ℕ) (f : ℕ → A) (i : ℕ) → i < n → measure (f i) ≤ total n f
  total-le zero f i lt = absurd (omega arith)
  total-le (suc n) f i lt = elim (Bool-cases (n == i)) [
    | inl here ↦
        let same : n ≡ i = ground arith in
        subst (λ k. measure (f k) ≤ total (suc n) f) same (omega arith)
    | inr there ↦ let apart : n ≢ i = ground arith in omega (arith, total-le n f i (omega arith))
  ]
