-- ===== src/Hook/Examples.antt =====
-- A descriptor that takes two bytes at a time, and a write of five bytes.
use koro.Prelude.{
  ℕ, ◌≤◌, ◌≡◌, refl, sym, ap, subst, List, [], ◌∷◌, ◌++◌, length, take, arith, append-nil, some,
}
use koro.Hook.{Ret, failed, count, Writer, write, write_loop}

abbrev two_bytes : List ℕ → List ℕ → List ℕ × Ret
two_bytes s [] = (s, count 0)
two_bytes s (x ∷ []) = (s ++ x ∷ [], count 1)
two_bytes s (x ∷ y ∷ rest) = (s ++ x ∷ y ∷ [], count 2)

abbrev number : Ret → ℕ
number failed = 0
number (count n) = n

two_bytes-partial :
    (s bytes : List ℕ) (n : ℕ)
    → (two_bytes s bytes).1 ≡ count n
    → (n ≤ length bytes) × ((two_bytes s bytes).0 ≡ s ++ take n bytes)
two_bytes-partial s [] n h =
    subst (λ m. (m ≤ 0) × (s ≡ s ++ take m [])) (ap number h) (omega arith, sym (append-nil s))
two_bytes-partial s (x ∷ []) n h =
    subst (λ m. (m ≤ 1) × (s ++ x ∷ [] ≡ s ++ take m (x ∷ []))) (ap number h) (omega arith, refl)
two_bytes-partial s (x ∷ y ∷ rest) n h =
    subst (λ m. (m ≤ length (x ∷ y ∷ rest)) × (s ++ x ∷ y ∷ [] ≡ s ++ take m (x ∷ y ∷ rest)))
      (ap number h) (omega arith, refl)

two_bytes-nothing : (s bytes : List ℕ) → (two_bytes s bytes).1 ≡ failed → (two_bytes s bytes).0 ≡ s
two_bytes-nothing s [] h = absurd (cc)
two_bytes-nothing s (x ∷ []) h = absurd (cc)
two_bytes-nothing s (x ∷ y ∷ rest) h = absurd (cc)

abbrev slow : Writer (List ℕ)
slow = record {
  call = two_bytes;
  content = λ s. s;
  partial = two_bytes-partial;
  nothing = two_bytes-nothing;
}

abbrev five : List ℕ
five = 1 ∷ 2 ∷ 3 ∷ 4 ∷ 5 ∷ []

write_run : write slow [] five ≡ some (five, count 5)
unfolding write write_loop
write_run = refl
