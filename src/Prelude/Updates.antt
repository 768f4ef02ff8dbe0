-- ===== src/Prelude/Updates.antt =====
-- Functions from addresses, changed in one place.
use Prim.Native.Nat.{ℕ}
use mathlib.Core.Path.{◌≡◌}
use mathlib.Core.Logic.{◌≢◌, ◌⊎◌, inl, inr}
use native.Mathlib.Omega.{arith}
use koro.Prelude.Tests.{if◌then◌else◌, ◌==◌, Bool-cases}

abbrev pub update {ℓ} : {A : Type ℓ} → (ℕ → A) → ℕ → A → ℕ → A
update f p v q = if p == q then v else f q

pub update_self {ℓ} : {A : Type ℓ} (f : ℕ → A) (p : ℕ) (v : A) → update f p v p ≡ v
update_self f p v = ground arith

pub update_ne {ℓ} : {A : Type ℓ} (f : ℕ → A) {p q : ℕ} (v : A) → q ≢ p → update f p v q ≡ f q
update_ne f v h = ground arith

-- To split on whether the changed place is read.
pub update-cases {ℓ} :
    {A : Type ℓ} (f : ℕ → A) (p q : ℕ) (v : A)
    → (p ≡ q) × (update f p v q ≡ v) ⊎ (q ≢ p) × (update f p v q ≡ f q)
update-cases f p q v = elim (Bool-cases (p == q)) [
  | inl here ↦ inl (ground arith, ground arith)
  | inr there ↦ inr (ground arith, ground arith)
]
